-- ===== src/Release/Trim.antt =====
-- `strings.TrimSpace`: the white space of Unicode, as UTF-8 writes it, off both ends.
use mathlib.Core.List.{reverse, reverse-reverse}
use spin_machine.Common.{
  ℕ, zero, suc, Text, Bool, ◌&&◌, ◌||◌, ◌==◌, leb, [], ◌∷◌, length, Option, none, some, ◌≡◌, ◌≢◌,
  refl, if◌then◌else◌,
}

-- A space of one, two or three bytes.
space1 : ℕ → Bool
space1 a = a == b' ' || a == 9 || a == 10 || a == 11 || a == 12 || a == 13

space2 : ℕ → ℕ → Bool
space2 a b = a == 0xc2 && (b == 0x85 || b == 0xa0)

space3 : ℕ → ℕ → ℕ → Bool
space3 a b c =
    a == 0xe1 && b == 0x9a && c == 0x80
    || a == 0xe2 && b == 0x80 && (leb 0x80 c && leb c 0x8a || c == 0xa8 || c == 0xa9 || c == 0xaf)
    || a == 0xe2 && b == 0x81 && c == 0x9f
    || a == 0xe3 && b == 0x80 && c == 0x80

-- What is behind one space at the front, if there is one.
unfoldable pub behind : Text → Option Text
unfolding space1 space2 space3
behind [] = none
behind (a ∷ []) = if space1 a then some [] else none
behind (a ∷ b ∷ []) = if space1 a then some (b ∷ []) else if space2 a b then some [] else none
behind (a ∷ b ∷ c ∷ s) =
    if space1 a
    then some (b ∷ c ∷ s)
    else if space2 a b
    then some (c ∷ s)
    else if space3 a b c
    then some s
    else none

-- The same for a text that is read from its end.
unfoldable pub before : Text → Option Text
unfolding space1 space2 space3
before [] = none
before (a ∷ []) = if space1 a then some [] else none
before (b ∷ a ∷ []) = if space1 b then some (a ∷ []) else if space2 a b then some [] else none
before (c ∷ b ∷ a ∷ s) =
    if space1 c
    then some (b ∷ a ∷ s)
    else if space2 b c
    then some (a ∷ s)
    else if space3 a b c
    then some s
    else none

-- One space after another; a text has no more of them than bytes.
trim : (Text → Option Text) → ℕ → Text → Text
trim f zero s = s
trim f (suc fuel) s = elim (f s) [ none ↦ s | some t ↦ trim f fuel t ]

unfoldable pub trim_space : Text → Text
unfolding trim behind before
trim_space s = let t = trim behind (length s) s in reverse (trim before (length t) (reverse t))

-- Text that neither starts nor ends with a space.
abbrev pub IsTrimmed : Text → Type 0
IsTrimmed s = (behind s ≡ none) × (before (reverse s) ≡ none)

trim-none : (f : Text → Option Text) (fuel : ℕ) (s : Text) → f s ≡ none → trim f fuel s ≡ s
unfolding trim
trim-none f zero s h = refl
trim-none f (suc fuel) s h = rw (trim, h)

pub trim_space-IsTrimmed : (s : Text) → IsTrimmed s → trim_space s ≡ s
unfolding trim_space
trim_space-IsTrimmed s (front, back) = rw (
  trim-none behind (length s) s front,
  trim-none before (length s) (reverse s) back,
  reverse-reverse,
)

-- A carriage return is a space.
pub before-return : (r : Text) → before (13 ∷ r) ≢ none
unfolding before space1
before-return [] h = cc
before-return (_ ∷ []) h = cc
before-return (_ ∷ _ ∷ _) h = cc
