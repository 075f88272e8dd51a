-- ===== src/Common/Numeral.antt =====
-- `%d` and `%x`: numerals, and reading them back.
use Prim.Native.Nat.{ℕ, zero, suc, ◌+◌, ◌-◌, ◌*◌, ◌/◌, ◌%◌, ◌≤◌, ◌<◌}
use mathlib.Core.Path.{◌≡◌, ap, sym, subst}
use mathlib.Core.Logic.{◌⊎◌, ◌≢◌}
use mathlib.Core.List.{[], ◌∷◌, foldl}
use native.Mathlib.Omega.{arith}
use spin_machine.Common.Int.{ℤ, pos, negsuc}
use spin_machine.Common.Lists.{All, All-imp}
use spin_machine.Common.Tests.{ltb, ◌==◌, if◌then◌else◌}
use spin_machine.Common.Bytes.{Text, Lacks}

digit : ℕ → ℕ
digit d = if ltb d 10 then b'0' + d else b'a' + (d - 10)

-- The digits of `n` in a base, before `out`; the fuel bounds their number.
digits : ℕ → ℕ → ℕ → Text → Text
unfolding digit
digits zero base n out = out
digits (suc fuel) base n out =
    let more = digits fuel base (n / base) (digit (n % base) ∷ out) in
    if n / base == 0 then digit (n % base) ∷ out else more

unfoldable pub decimal : ℕ → Text
unfolding digits
decimal n = digits (suc n) 10 n []

-- `%x` of a number that is not negative.
unfoldable pub hex : ℕ → Text
unfolding digits
hex n = digits (suc n) 16 n []

-- `%d` of an `int`.
unfoldable pub itoa : ℤ → Text
unfolding decimal
itoa (pos n) = decimal n
itoa (negsuc n) = b'-' ∷ decimal (suc n)

-- The number that decimal digits spell behind `n`.
abbrev value : ℕ → Text → ℕ
value = foldl (λ n c. n * 10 + (c - b'0'))

value-digits : (fuel n : ℕ) (out : Text) → n < fuel → value 0 (digits fuel 10 n out) ≡ value n out
unfolding digits
value-digits zero n out h = absurd (omega arith)
value-digits (suc fuel) n out h = ground (arith, value-digits fuel (n / 10) (digit (n % 10) ∷ out))

abbrev pub IsDigit : ℕ → Type 0
IsDigit c = (b'0' ≤ c) × (c ≤ b'9')

digits-IsDigit : (fuel n : ℕ) (out : Text) → All IsDigit out → All IsDigit (digits fuel 10 n out)
unfolding digits
digits-IsDigit zero n out h = h
digits-IsDigit (suc fuel) n out h =
    ground (arith, digits-IsDigit fuel (n / 10) (digit (n % 10) ∷ out))

-- A numeral is read back as its number.
pub value-decimal : (n : ℕ) → value 0 (decimal n) ≡ n
unfolding decimal
value-decimal n = value-digits (suc n) n [] (omega arith)

pub decimal-IsDigit : (n : ℕ) → All IsDigit (decimal n)
unfolding decimal
decimal-IsDigit n = digits-IsDigit (suc n) n [] tt

pub decimal_injective : (m n : ℕ) → decimal m ≡ decimal n → m ≡ n
decimal_injective m n h = cc (value-decimal m, value-decimal n)

abbrev pub IsPlain : ℕ → Type 0
IsPlain c = (b'-' ≤ c) × (c ≤ b'9')

-- A numeral holds bytes from `-` to `9` only.
pub itoa-IsPlain : (a : ℤ) → All IsPlain (itoa a)
unfolding itoa
itoa-IsPlain (pos n) = All-imp (λ c h. omega arith) _ (decimal-IsDigit n)
itoa-IsPlain (negsuc n) = (omega arith, All-imp (λ c h. omega arith) _ (decimal-IsDigit (suc n)))

pub itoa-Lacks : (b : ℕ) (a : ℤ) → (b < b'-') ⊎ (b'9' < b) → Lacks b (itoa a)
itoa-Lacks b a h = All-imp (λ c p. omega arith) _ (itoa-IsPlain a)

pub decimal-Lacks : (b n : ℕ) → (b < b'0') ⊎ (b'9' < b) → Lacks b (decimal n)
decimal-Lacks b n h = All-imp (λ c p. omega arith) _ (decimal-IsDigit n)

-- A text of digits and lower-case letters.
abbrev pub IsAlnum : ℕ → Type 0
IsAlnum c = (b'0' ≤ c) × (c ≤ b'z')

digits-IsAlnum : (fuel n : ℕ) (out : Text) → All IsAlnum out → All IsAlnum (digits fuel 16 n out)
unfolding digits
digits-IsAlnum zero n out h = h
digits-IsAlnum (suc fuel) n out h =
    ground (arith, digits-IsAlnum fuel (n / 16) (digit (n % 16) ∷ out))

pub hex-Lacks : (b n : ℕ) → (b < b'0') ⊎ (b'z' < b) → Lacks b (hex n)
unfolding hex
hex-Lacks b n h = All-imp (λ c p. omega arith) _ (digits-IsAlnum (suc n) n [] tt)

dash-ne_decimal : (m n : ℕ) → b'-' ∷ decimal m ≢ decimal n
dash-ne_decimal m n e = absurd (omega (arith, (subst (All IsDigit) (sym e) (decimal-IsDigit n)).0))

-- A numeral is one integer's.
pub itoa_injective : (a b : ℤ) → itoa a ≡ itoa b → a ≡ b
unfolding itoa
itoa_injective (pos m) (pos n) e = ap pos (decimal_injective m n e)
itoa_injective (pos m) (negsuc n) e = absurd (dash-ne_decimal (suc n) m (sym e))
itoa_injective (negsuc m) (pos n) e = absurd (dash-ne_decimal (suc m) n e)
itoa_injective (negsuc m) (negsuc n) e =
    let same : suc m ≡ suc n = decimal_injective (suc m) (suc n) (cc) in ap negsuc (omega arith)
