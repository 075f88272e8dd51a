-- ===== src/Report/Copies.antt =====
-- Lists of texts by how often a text stands in them, and what one leaves of another.
use spin_machine.Common.{
  ℕ, ◌+◌, ◌-◌, ◌≡◌, refl, sym, ◌∙◌, Text, false, List, [], ◌∷◌, length, Bool-cases, inl, inr, ◌&&◌,
  text_eq_self, ne_of_text_eq, text_eq, text_eq_iff, if◌then◌else◌, arith,
}

-- A list without the first text that is this one.
remove : Text → List Text → List Text
remove s [] = []
remove s (x ∷ xs) = let rest = remove s xs in if text_eq x s then xs else x ∷ rest

-- What is left of a list once each text of another has taken one that is equal to it.
unfoldable pub without : List Text → List Text → List Text
unfolding remove
without a [] = a
without a (s ∷ b) = without (remove s a) b

-- How often a text stands in a list.
unfoldable pub copies : Text → List Text → ℕ
copies s [] = 0
copies s (x ∷ xs) = let rest = copies s xs in if text_eq x s then rest + 1 else rest

-- A text is not equal to two different ones.
pub apart : (s t x : Text) → text_eq x t ≡ false → (text_eq x s && text_eq t s) ≡ false
apart s t x h = elim (Bool-cases (text_eq x s)) [
  | inr e ↦ rw e
  | inl e ↦ elim (Bool-cases (text_eq t s)) [
    | inr e' ↦ rw (e, e')
    | inl e' ↦ absurd (ne_of_text_eq x t h ((text_eq_iff x s).0 e ∙ sym ((text_eq_iff t s).0 e')))
  ]
]

copies-remove :
    (s t : Text) (xs : List Text)
    → copies s (remove t xs) ≡ (if text_eq t s then copies s xs - 1 else copies s xs)
unfolding copies remove
copies-remove s t [] = ground arith
copies-remove s t (x ∷ xs) = elim (Bool-cases (text_eq x t)) [
  | inl e ↦ rw (e, (text_eq_iff x t).0 e) (ground arith)
  | inr e ↦ rw e (ground (arith, apart s t x e, copies-remove s t xs))
]

pub copies-without : (s : Text) (a b : List Text) → copies s (without a b) ≡ copies s a - copies s b
unfolding copies without
copies-without s a [] = omega arith
copies-without s a (t ∷ b) = ground (arith, copies-without s (remove t a) b, copies-remove s t a)

-- A list without any copy of a text.
unfoldable pub clear : Text → List Text → List Text
clear s [] = []
clear s (x ∷ xs) = let rest = clear s xs in if text_eq x s then rest else x ∷ rest

pub clear-length : (s : Text) (xs : List Text) → length xs ≡ copies s xs + length (clear s xs)
unfolding clear copies
clear-length s [] = refl
clear-length s (x ∷ xs) = ground (arith, clear-length s xs)

pub copies-clear :
    (s t : Text) (xs : List Text) → copies s (clear t xs) ≡ (if text_eq t s then 0 else copies s xs)
unfolding clear copies
copies-clear s t [] = ground arith
copies-clear s t (x ∷ xs) = elim (Bool-cases (text_eq x t)) [
  | inl e ↦ rw (e, (text_eq_iff x t).0 e) (ground (arith, copies-clear s t xs))
  | inr e ↦ rw e (ground (arith, apart s t x e, copies-clear s t xs))
]

pub none_of_copies : (xs : List Text) → ((s : Text) → copies s xs ≡ 0) → length xs ≡ 0
unfolding copies
none_of_copies [] h = refl
none_of_copies (x ∷ xs) h = absurd (ground (arith, h x, text_eq_self x))
