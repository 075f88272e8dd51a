-- ===== src/Notes/Touching.antt =====
-- Which commits touch a part (`touches` and `only` of hack/releasenotes/main.go).
use mathlib.Core.List.{Memᴰ}
use spin_machine.Common.{
  ◌≡◌, ◌≢◌, ◌↔◌, refl, ap, sym, ◌∙◌, Text, lit, ◌++◌, Bool, true, false, not, ◌&&◌, List, [], ◌∷◌,
  All, Bool-cases, inl, inr, text_eq, text_eq_iff, is_empty, ◌==◌, arith,
}
use spin_machine.Issues.Links.{cut_prefix}
use spin_machine.Notes.{Commit, any, touches, only}
use spin_machine.Notes.Texts.{has_prefix}

-- A file that a commit changed has one of the paths in front.
abbrev pub HasTouched : Commit → List Text → Type 0
HasTouched c paths =
    (f : Text) × Memᴰ f c.files × (p : Text) × Memᴰ p paths × (rest : Text) × (f ≡ p ++ rest)

-- A commit that changed versions.yaml and no other file.
abbrev pub IsPin : Commit → Type 0
IsPin c = (c.files ≢ []) × All (λ f. f ≡ lit "versions.yaml") c.files

module _ {A : Type 0} (p : A → Bool) where
  pub any_some : (xs : List A) → any p xs ≡ true → (x : A) × Memᴰ x xs × (p x ≡ true)
  any_some [] h = absurd (cc h)
  any_some (x ∷ xs) h = elim (Bool-cases (p x)) [
    | inl e ↦ (x, Memᴰ.head refl, e)
    | inr e ↦ let (y, m, k) = any_some xs (rw e at h) in (y, Memᴰ.tail m, k)
  ]

  pub any-here : (x : A) (xs : List A) → Memᴰ x xs → p x ≡ true → any p xs ≡ true
  any-here x [] m h = elim m [ ]
  any-here x (y ∷ xs) (Memᴰ.head e) h = rw (ap p (sym e) ∙ h) refl
  any-here x (y ∷ xs) (Memᴰ.tail m) h = let rest = any-here x xs m h in ground (arith, rest)

  pub any_none : (xs : List A) → any p xs ≡ false → All (λ x. p x ≡ false) xs
  any_none [] h = tt
  any_none (x ∷ xs) h = elim (Bool-cases (p x)) [
    | inl e ↦ absurd (cc (rw e at h))
    | inr e ↦ (e, any_none xs (rw e at h))
  ]

has_prefix_iff : (p s : Text) → (has_prefix p s ≡ true) ↔ ((rest : Text) × (s ≡ p ++ rest))
unfolding has_prefix cut_prefix
has_prefix_iff p s = (split p s, joined p s)
  where
    split : (p s : Text) → has_prefix p s ≡ true → (rest : Text) × (s ≡ p ++ rest)
    split [] s h = (s, refl)
    split (c ∷ p) [] h = absurd (cc h)
    split (c ∷ p) (d ∷ s) h = elim (Bool-cases (c == d)) [
      | inl e ↦
          let (rest, same) = split p s (rw e at h) in
          let first : c ≡ d = ground (arith, e) in (rest, cc)
      | inr e ↦ absurd (cc (rw e at h))
    ]

    joined : (p s : Text) → (rest : Text) × (s ≡ p ++ rest) → has_prefix p s ≡ true
    joined [] s _ = refl
    joined (c ∷ p) [] (rest, e) = absurd (cc e)
    joined (c ∷ p) (d ∷ s) (rest, e) =
        let first : (c == d) ≡ true = let same : c ≡ d = cc in ground (arith, same) in
        rw first (joined p s (rest, cc))

pub touches_iff : (c : Commit) (paths : List Text) → (touches c paths ≡ true) ↔ HasTouched c paths
unfolding touches
touches_iff c paths = (
  λ h.
      let (f, m, k) = any_some (λ f. any (λ p. has_prefix p f) paths) c.files h in
      let (p, n, l) = any_some (λ p. has_prefix p f) paths k in
      let (rest, same) = (has_prefix_iff p f).0 l in (f, m, p, n, rest, same),
  λ (f, m, p, n, rest, same).
      any-here (λ f. any (λ p. has_prefix p f) paths) f c.files m
        (any-here (λ p. has_prefix p f) p paths n ((has_prefix_iff p f).1 (rest, same))),
)

pub untouched : (c : Commit) (paths : List Text) → touches c paths ≡ false → ¬ HasTouched c paths
untouched c paths h t = let k = (touches_iff c paths).1 t in cc

pub only_iff : (c : Commit) → (only c (lit "versions.yaml") ≡ true) ↔ IsPin c
unfolding only
only_iff c = files_iff c.files
  where
    same_iff :
        (fs : List Text)
        → (any (λ f. not (text_eq f (lit "versions.yaml"))) fs ≡ false)
          ↔ All (λ f. f ≡ lit "versions.yaml") fs
    same_iff [] = ((λ _. tt), (λ _. refl))
    same_iff (f ∷ fs) =
        let (to, from) = same_iff fs in
        let (eq, back) = text_eq_iff f (lit "versions.yaml") in
        elim (Bool-cases (text_eq f (lit "versions.yaml"))) [
          | inl e ↦ rw e ((λ h. (eq e, to h)), (λ (_, h). from h))
          | inr e ↦ rw e ((λ h. cc), (λ (h, _). let k = back h in cc))
        ]

    files_iff :
        (fs : List Text)
        → ((not (is_empty fs) && not (any (λ f. not (text_eq f (lit "versions.yaml"))) fs)) ≡ true)
          ↔ ((fs ≢ []) × All (λ f. f ≡ lit "versions.yaml") fs)
    files_iff [] = ((λ h. cc), (λ (h, _). absurd (h refl)))
    files_iff (f ∷ fs) =
        let (to, from) = same_iff (f ∷ fs) in
        elim (Bool-cases (any (λ f. not (text_eq f (lit "versions.yaml"))) (f ∷ fs))) [
          | inl e ↦ rw e ((λ h. cc), (λ (_, h). let k = from h in cc))
          | inr e ↦ rw e ((λ _. ((λ q. cc q), to e)), (λ _. refl))
        ]
