-- ===== src/Issues/Sorting.antt =====
-- `slices.Sort` of strings, as hack/osvissues/main.go and hack/apklock/main.go use it.
use spin_machine.Common.{
  Text, ◌↔◌, Bool, true, false, ltb, ◌==◌, ◌&&◌, ◌||◌, List, [], ◌∷◌, if◌then◌else◌, All,
  Bool-cases, inl, inr,
}

-- `a <= b` of strings, byte by byte.
unfoldable pub text_le : Text → Text → Bool
text_le [] t = true
text_le (a ∷ s) [] = false
text_le (a ∷ s) (b ∷ t) = ltb a b || a == b && text_le s t

unfoldable pub insert : Text → List Text → List Text
unfolding text_le
insert x [] = x ∷ []
insert x (y ∷ ys) = let rest = insert x ys in if text_le x y then x ∷ y ∷ ys else y ∷ rest

-- `slices.Sort`.
unfoldable pub sort : List Text → List Text
unfolding insert
sort [] = []
sort (x ∷ xs) = insert x (sort xs)

module _ (P : Text → Type 0) where
  pub insert-All : (x : Text) (xs : List Text) → All P (insert x xs) ↔ (P x × All P xs)
  unfolding insert
  insert-All x [] = ((λ h. h), (λ h. h))
  insert-All x (y ∷ ys) =
      let (to, from) = insert-All x ys in
      elim (Bool-cases (text_le x y)) [
        | inl e ↦ rw e ((λ h. h), (λ h. h))
        | inr e ↦ rw e (
          (λ (p, h). let (q, hs) = to h in (q, (p, hs))),
          (λ (q, h). let (p, hs) = h in (p, from (q, hs))),
        )
      ]

  -- What holds of every text of a sorted list holds of every text of the list.
  pub sort-All : (xs : List Text) → All P (sort xs) ↔ All P xs
  unfolding sort
  sort-All [] = ((λ h. h), (λ h. h))
  sort-All (x ∷ xs) =
      let (to, from) = insert-All x (sort xs) in
      let (all, sorted) = sort-All xs in
      ((λ h. let (p, hs) = to h in (p, all hs)), (λ (p, hs). from (p, sorted hs)))
