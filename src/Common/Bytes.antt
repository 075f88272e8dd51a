-- ===== src/Common/Bytes.antt =====
-- Texts as lists of bytes. The literals of the source are ASCII, so their code points are their bytes.
use Prim.Native.Nat.{ℕ}
use Prim.Native.Char.{code}
use Prim.Native.String.{String}
use mathlib.Core.Path.{◌≡◌, refl}
use mathlib.Core.Logic.{◌≢◌, ◌↔◌}
use mathlib.Core.Bool.{Bool, true, false, ◌&&◌, ◌||◌}
use mathlib.Core.List.{List, [], ◌∷◌, ◌++◌}
use native.Mathlib.Omega.{arith}
use spin_machine.Common.Tests.{◌==◌}
use spin_machine.Common.Lists.{All, All-imp}

abbrev pub Text : Type 0
Text = List ℕ

abbrev codes : String → Text
codes String.[] = []
codes (String.◌∷◌ c s) = code c ∷ codes s

-- A literal, shut: proofs that read its bytes unfold it.
unfoldable pub lit : String → Text
lit s = codes s

-- Concatenation that groups to the right, as a format string reads.
infixr 66 ◌<>◌
abbrev pub ◌<>◌ : Text → Text → Text
a <> b = a ++ b

abbrev pub Lacks : ℕ → Text → Type 0
Lacks b = All (λ c. c ≢ b)

-- Go's `==` on strings.
unfoldable pub text_eq : Text → Text → Bool
text_eq [] [] = true
text_eq [] (_ ∷ _) = false
text_eq (_ ∷ _) [] = false
text_eq (a ∷ s) (b ∷ t) = a == b && text_eq s t

pub text_eq_iff : (s t : Text) → (text_eq s t ≡ true) ↔ (s ≡ t)
unfolding text_eq
text_eq_iff [] [] = (λ _. refl, λ _. refl)
text_eq_iff [] (b ∷ t) = (λ h. cc, λ h. cc)
text_eq_iff (a ∷ s) [] = (λ h. cc, λ h. cc)
text_eq_iff (a ∷ s) (b ∷ t) = ground (arith, text_eq_iff s t)

pub text_eq_self : (s : Text) → text_eq s s ≡ true
text_eq_self s = (text_eq_iff s s).1 refl

-- `s == ""`.
abbrev pub is_empty {ℓ} : {A : Type ℓ} → List A → Bool
is_empty [] = true
is_empty (_ ∷ _) = false

-- `slices.Contains(xs, s)`.
unfoldable pub contains : List Text → Text → Bool
unfolding text_eq
contains [] s = false
contains (x ∷ xs) s = text_eq x s || contains xs s

-- `strings.ContainsRune(s, b)` for an ASCII `b`.
unfoldable pub has_byte : ℕ → Text → Bool
has_byte b [] = false
has_byte b (c ∷ s) = c == b || has_byte b s

pub has_byte-Lacks : (b : ℕ) (s : Text) → (has_byte b s ≡ false) ↔ Lacks b s
unfolding has_byte
has_byte-Lacks b [] = (λ _. tt, λ _. refl)
has_byte-Lacks b (c ∷ s) = ground (arith, has_byte-Lacks b s)

-- `strings.Join(parts, sep)`.
unfoldable pub join : Text → List Text → Text
join sep [] = []
join sep (p ∷ []) = p
join sep (p ∷ q ∷ ps) = p ++ (sep ++ join sep (q ∷ ps))

pub contains-append :
    (xs ys : List Text) (s : Text) → contains (xs ++ ys) s ≡ (contains xs s || contains ys s)
unfolding contains
contains-append [] ys s = refl
contains-append (x ∷ xs) ys s = ground (arith, contains-append xs ys s)

pub ne_of_text_eq : (s t : Text) → text_eq s t ≡ false → s ≢ t
ne_of_text_eq s t h e = ground (arith, (text_eq_iff s t).1 e)

-- A list contains each of its texts.
pub all_contained : (xs : List Text) → All (λ x. contains xs x ≡ true) xs
unfolding contains
all_contained [] = tt
all_contained (x ∷ xs) =
    (rw ((text_eq_iff x x).1 refl) refl, All-imp (λ y h. wider y h) xs (all_contained xs))
  where
    wider : (y : Text) → contains xs y ≡ true → (text_eq x y || contains xs y) ≡ true
    wider y h = ground (arith, h)
