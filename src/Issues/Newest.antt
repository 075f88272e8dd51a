-- ===== src/Issues/Newest.antt =====
-- The newest issue of a title (hack/osvissues/main.go), when issues are changed or added.
use mathlib.Core.Path.{subst}
use spin_machine.Common.{
  ◌≡◌, ◌≢◌, inl, inr, refl, ap, ◌∙◌, Text, Bool, true, false, List, [], ◌∷◌, map, Option, none,
  some, All, All-imp, Bool-cases, text_eq, text_eq_iff, text_eq_self, if◌then◌else◌,
}
use spin_machine.Common.Int.{ltb_ℤ}
use spin_machine.Issues.{Issue, newer, newest}

abbrev pub touched : (Issue → Issue) → Option Issue → Option Issue
touched g none = none
touched g (some i) = some (g i)

-- A change that leaves numbers and titles as they are.
abbrev pub IsChange : (Issue → Issue) → Type 0
IsChange g = (i : Issue) → ((g i).number ≡ i.number) × ((g i).title ≡ i.title)

if-touched :
    (g : Issue → Issue) (b : Bool) (i j : Issue)
    → (if b then some (g i) else some (g j)) ≡ touched g (if b then some i else some j)
if-touched g true i j = refl
if-touched g false i j = refl

newer-touched :
    (g : Issue → Issue)
    → IsChange g
    → (have : Option Issue) (i : Issue) → newer (touched g have) (g i) ≡ touched g (newer have i)
newer-touched g h none i = refl
newer-touched g h (some j) i =
    ap (λ n. if ltb_ℤ n (g i).number then some (g i) else some (g j)) (h j).0
    ∙ ap (λ n. if ltb_ℤ j.number n then some (g i) else some (g j)) (h i).0
    ∙ if-touched g (ltb_ℤ j.number i.number) i j

newest_from-map :
    (g : Issue → Issue)
    → IsChange g
    → (t : Text) (have : Option Issue) (is : List Issue)
    → newest t (touched g have) (map g is) ≡ touched g (newest t have is)
unfolding newest
newest_from-map g h t have [] = refl
newest_from-map g h t have (i ∷ is) =
    ap
      (λ s.
        newest t (if text_eq s t then newer (touched g have) (g i) else touched g have) (map g is))
      (h i).1
    ∙ chosen (text_eq i.title t) (λ have'. newest_from-map g h t have' is)
  where
    chosen :
        (b : Bool)
        → ((have' : Option Issue)
            → newest t (touched g have') (map g is) ≡ touched g (newest t have' is))
        → newest t (if b then newer (touched g have) (g i) else touched g have) (map g is)
          ≡ touched g (newest t (if b then newer have i else have) is)
    chosen true rest =
        ap (λ x. newest t x (map g is)) (newer-touched g h have i) ∙ rest (newer have i)
    chosen false rest = rest have

pub newest-map :
    (g : Issue → Issue)
    → IsChange g
    → (t : Text) (is : List Issue) → newest t none (map g is) ≡ touched g (newest t none is)
newest-map g h t is = newest_from-map g h t none is

-- What an issue satisfies that is found.
abbrev Found : (Issue → Type 0) → Option Issue → Type 0
Found P none = Unit
Found P (some i) = P i

newer-Found :
    (P : Issue → Type 0) (have : Option Issue) (i : Issue)
    → Found P have
    → P i
    → Found P (newer have i)
newer-Found P none i _ p = p
newer-Found P (some j) i q p = elim (Bool-cases (ltb_ℤ j.number i.number)) [
  | inl e ↦ rw e p
  | inr e ↦ rw e q
]

newest-Found :
    (P : Issue → Type 0) (t : Text) (have : Option Issue) (is : List Issue)
    → Found P have
    → All (λ (i : Issue). i.title ≡ t → P i) is
    → Found P (newest t have is)
unfolding newest
newest-Found P t have [] h _ = h
newest-Found P t have (i ∷ is) h (p, hs) = elim (Bool-cases (text_eq i.title t)) [
  | inl e ↦ rw e (
      newest-Found P t (newer have i) is (newer-Found P have i h (p ((text_eq_iff i.title t).0 e)))
        hs)
  | inr e ↦ rw e (newest-Found P t have is h hs)
]

pub each_one : (P : Issue → Type 0) → ((i : Issue) → P i) → (is : List Issue) → All P is
each_one P h [] = tt
each_one P h (i ∷ is) = (h i, each_one P h is)

-- The newest issue of a title has the title, and what all issues have.
pub newest-title :
    (t : Text) (i : Issue) (is : List Issue) → newest t none is ≡ some i → i.title ≡ t
newest-title t i is e =
    subst (Found (λ j. j.title ≡ t)) e
      (newest-Found (λ j. j.title ≡ t) t none is tt (each_one _ (λ j h. h) is))

pub newest-All :
    (P : Issue → Type 0) (t : Text) (i : Issue) (is : List Issue)
    → newest t none is ≡ some i
    → All P is
    → P i
newest-All P t i is e h =
    subst (Found P) e (newest-Found P t none is tt (All-imp (λ j p _. p) is h))

some_after :
    (t : Text) (j : Issue) (is : List Issue) → (i : Issue) × (newest t (some j) is ≡ some i)
unfolding newest
some_after t j [] = (j, refl)
some_after t j (i ∷ is) = elim (Bool-cases (text_eq i.title t)) [
  | inr e ↦ rw e (some_after t j is)
  | inl e ↦ rw e (elim (Bool-cases (ltb_ℤ j.number i.number)) [
    | inl f ↦ rw f (some_after t i is)
    | inr f ↦ rw f (some_after t j is)
  ])
]

newest_kept :
    (t : Text) (have : Option Issue) (is : List Issue)
    → newest t none is ≡ none
    → newest t have is ≡ have
unfolding newest
newest_kept t have [] h = refl
newest_kept t have (i ∷ is) h = elim (Bool-cases (text_eq i.title t)) [
  | inr e ↦ rw (newest, e) (newest_kept t have is (rw e at h))
  | inl e ↦ absurd (let (j, f) = some_after t i is in cc (rw e at h, f))
]

-- A new issue is the newest of its title where there was none, and no other title's.
pub newest-new :
    (i : Issue) (is : List Issue)
    → newest i.title none is ≡ none
    → newest i.title none (i ∷ is) ≡ some i
unfolding newest
newest-new i is h = rw (text_eq_self i.title) (newest_kept i.title (some i) is h)

pub newest-other :
    (t : Text) (i : Issue) (is : List Issue)
    → i.title ≢ t
    → newest t none (i ∷ is) ≡ newest t none is
unfolding newest
newest-other t i is h = elim (Bool-cases (text_eq i.title t)) [
  | inl e ↦ absurd (h ((text_eq_iff i.title t).0 e))
  | inr e ↦ rw e refl
]
