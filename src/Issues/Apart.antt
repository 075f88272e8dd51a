-- ===== src/Issues/Apart.antt =====
-- The lists that `plan` of hack/osvissues/main.go goes through hold no text twice.
use spin_machine.Common.{
  ◌≡◌, ◌≢◌, refl, ap, sym, ◌∙◌, Text, true, false, List, [], ◌∷◌, ◌++◌, All, All-append, Bool-cases,
  inl, inr, text_eq, text_eq_iff, ne_of_text_eq, contains,
}
use spin_machine.Issues.{Issue, add_new, distinct, is_gone, gone}
use spin_machine.Issues.Sorting.{text_le, insert, insert-All, sort, sort-All}

abbrev pub IsDistinct : List Text → Type 0
IsDistinct [] = Unit
IsDistinct (x ∷ xs) = All (λ y. y ≢ x) xs × IsDistinct xs

-- A text that a list does not contain is none of its texts.
pub apart_of_contains : (x : Text) (xs : List Text) → contains xs x ≡ false → All (λ y. y ≢ x) xs
unfolding contains
apart_of_contains x [] _ = tt
apart_of_contains x (y ∷ xs) h = elim (Bool-cases (text_eq y x)) [
  | inl e ↦ absurd (cc (rw e at h))
  | inr e ↦ (ne_of_text_eq y x e, apart_of_contains x xs (rw e at h))
]

append-IsDistinct :
    (x : Text) (xs : List Text) → All (λ y. y ≢ x) xs → IsDistinct xs → IsDistinct (xs ++ x ∷ [])
append-IsDistinct x [] _ _ = (tt, tt)
append-IsDistinct x (y ∷ xs) (a, as') (b, bs) =
    (All-append (λ z. z ≢ y) xs (x ∷ []) b ((λ e. a (sym e)), tt), append-IsDistinct x xs as' bs)

distinct_from-IsDistinct : (seen xs : List Text) → IsDistinct seen → IsDistinct (distinct seen xs)
unfolding distinct
distinct_from-IsDistinct seen [] h = h
distinct_from-IsDistinct seen (x ∷ xs) h =
    distinct_from-IsDistinct (add_new seen x) xs (elim (Bool-cases (contains seen x)) [
      | inl e ↦ rw e h
      | inr e ↦ rw e (append-IsDistinct x seen (apart_of_contains x seen e) h)
    ])

pub distinct-IsDistinct : (xs : List Text) → IsDistinct (distinct [] xs)
distinct-IsDistinct xs = distinct_from-IsDistinct [] xs tt

insert-IsDistinct :
    (x : Text) (xs : List Text) → All (λ y. y ≢ x) xs → IsDistinct xs → IsDistinct (insert x xs)
unfolding insert
insert-IsDistinct x [] _ _ = (tt, tt)
insert-IsDistinct x (y ∷ ys) (a, as') (b, bs) = elim (Bool-cases (text_le x y)) [
  | inl e ↦ rw e ((a, as'), (b, bs))
  | inr e ↦
      rw e ((insert-All (λ z. z ≢ y) x ys).1 ((λ q. a (sym q)), b), insert-IsDistinct x ys as' bs)
]

pub sort-IsDistinct : (xs : List Text) → IsDistinct xs → IsDistinct (sort xs)
unfolding sort
sort-IsDistinct [] _ = tt
sort-IsDistinct (x ∷ xs) (a, h) =
    insert-IsDistinct x (sort xs) ((sort-All (λ y. y ≢ x) xs).1 a) (sort-IsDistinct xs h)

module _ (names : List Text) (issues : List Issue) where
  -- What holds of all texts, and of those that are gone.
  pub gone-All : (P : Text → Type 0) (ts : List Text) → All P ts → All P (gone names issues ts)
  unfolding gone
  gone-All P [] _ = tt
  gone-All P (t ∷ ts) (p, h) = elim (Bool-cases (is_gone names issues t)) [
    | inl e ↦ rw e (p, gone-All P ts h)
    | inr e ↦ rw e (gone-All P ts h)
  ]

  pub gone-is_gone :
      (ts : List Text) → All (λ t. is_gone names issues t ≡ true) (gone names issues ts)
  unfolding gone
  gone-is_gone [] = tt
  gone-is_gone (t ∷ ts) = elim (Bool-cases (is_gone names issues t)) [
    | inl e ↦ rw e (e, gone-is_gone ts)
    | inr e ↦ rw e (gone-is_gone ts)
  ]

  pub gone-IsDistinct : (ts : List Text) → IsDistinct ts → IsDistinct (gone names issues ts)
  unfolding gone
  gone-IsDistinct [] _ = tt
  gone-IsDistinct (t ∷ ts) (a, h) = elim (Bool-cases (is_gone names issues t)) [
    | inl e ↦ rw e (gone-All (λ y. y ≢ t) ts a, gone-IsDistinct ts h)
    | inr e ↦ rw e (gone-IsDistinct ts h)
  ]

  pub contains-gone :
      (ts : List Text) (t : Text)
      → contains ts t ≡ true
      → is_gone names issues t ≡ true
      → contains (gone names issues ts) t ≡ true
  unfolding gone contains
  contains-gone [] t h g = cc
  contains-gone (x ∷ ts) t h g = elim (Bool-cases (text_eq x t)) [
    | inl e ↦
        let there : is_gone names issues x ≡ true =
          ap (is_gone names issues) ((text_eq_iff x t).0 e) ∙ g in
        rw (gone, there, contains, e) refl
    | inr e ↦
        let rest = contains-gone ts t (rw e at h) g in
        elim (Bool-cases (is_gone names issues x)) [
          | inl f ↦ rw (gone, f, contains, e) rest
          | inr f ↦ rw (gone, f) rest
        ]
  ]
