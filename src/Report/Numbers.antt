-- ===== src/Report/Numbers.antt =====
-- The floating point of boot/report.go and boot/phases.go: its numbers and operations are a
-- parameter, with what `fmt` prints of them.
use spin_machine.Common.{ℕ, ◌+◌, ◌/◌, suc, Text, Bool, leb, ◌≡◌, true, ◌⊎◌, arith}
use spin_machine.Common.Int.{ℤ, pos, negsuc, pos_part, neg_part, sub_ℕ}

pub record Floats : Type 1 where
  pub Num : Type 0
  -- A conversion from an `int`, and `int(x)`.
  pub of_int : ℤ → Num
  pub to_int : Num → ℤ
  -- The digits of a literal, and how many of them are behind the point.
  pub literal : ℕ → ℕ → Num
  pub sub : Num → Num → Num
  pub mul : Num → Num → Num
  pub div : Num → Num → Num
  pub abs : Num → Num
  pub round : Num → Num
  pub ceil : Num → Num
  pub lt : Num → Num → Bool
  -- `%.Nf` and `%+.Nf`.
  pub fixed : ℕ → Num → Text
  pub signed : ℕ → Num → Text

-- `d.Microseconds()`: the nanoseconds of a duration, divided towards zero.
unfoldable pub microseconds : ℤ → ℤ
microseconds (pos n) = pos (n / 1000)
microseconds (negsuc n) = sub_ℕ 0 (suc n / 1000)

-- `a <= b` of durations.
abbrev pub le_ℤ : ℤ → ℤ → Bool
le_ℤ a b = leb (pos_part a + neg_part b) (pos_part b + neg_part a)

-- `int(math.Ceil(p * float64(n)))`.
unfoldable pub rank : (F : Floats) → F.Num → ℕ → ℤ
rank F p n = F.to_int (F.ceil (F.mul p (F.of_int (pos n))))

pub le_ℤ_total : (a b : ℤ) → (le_ℤ a b ≡ true) ⊎ (le_ℤ b a ≡ true)
le_ℤ_total a b = ground arith

pub le_ℤ_trans : (a b c : ℤ) → le_ℤ a b ≡ true → le_ℤ b c ≡ true → le_ℤ a c ≡ true
le_ℤ_trans a b c h k = ground arith
