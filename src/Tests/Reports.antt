-- ===== src/Tests/Reports.antt =====
-- Two reports of the feature matrix, and the theorems at them.
use spin_machine.Common.{
  ℕ, ◌+◌, ◌-◌, ◌*◌, ◌/◌, ◌≡◌, ◌↔◌, refl, lit, [], ◌∷◌, some, false, true, length, ltb, All, text_eq,
  contains,
}
use spin_machine.Common.Int.{pos, pos_part, ◌+ℤ◌}
use spin_machine.Common.Numeral.{decimal}
use spin_machine.Boot.{is_some}
use spin_machine.Report.{Row, Boot}
use spin_machine.Report.Numbers.{Floats}
use spin_machine.Report.Distance.{distance}
use spin_machine.Report.Leftovers.{distance-without}
use spin_machine.Report.Copies.{without}
use spin_machine.Report.Renames.{value_at, renames}
use spin_machine.Report.Paired.{IsMutual, renames_iff, renames_injective}
use spin_machine.Report.Rows.{section_lines}
use spin_machine.Report.Silent.{IsKept, IsComplete, section_lines_iff}

-- Whole numbers in place of the floating point.
abbrev pub whole_numbers : Floats
whole_numbers = record {
  Num = ℕ;
  of_int = pos_part;
  to_int = pos;
  literal = λ n k. n;
  sub = λ a b. a - b;
  mul = λ a b. a * b;
  div = λ a b. a / b;
  abs = λ a. a;
  round = λ a. a;
  ceil = λ a. a;
  lt = ltb;
  fixed = λ n a. decimal a;
  signed = λ n a. b'+' ∷ decimal a;
}

abbrev pub booted : ℕ → Boot ℕ
booted ms = record {
  boots = pos 5;
  failed = pos 0;
  error = [];
  phases = (lit "usable", record { p50 = ms; p95 = ms + 9; n = 5 }) ∷ [];
}

-- A row of one axis before, and of two after, with one more argument.
abbrev pub before : Row ℕ
before = record {
  id = lit "kvm";
  features = (lit "accel", lit "kvm") ∷ [];
  args = lit "-accel" ∷ lit "kvm" ∷ [];
  fingerprint = lit "f00d";
  boot = booted 230;
}

abbrev after : Row ℕ
after = record {
  id = lit "kvm-qboot";
  features = (lit "accel", lit "kvm") ∷ (lit "bios", lit "qboot") ∷ [];
  args = lit "-accel" ∷ lit "kvm" ∷ lit "-bios" ∷ [];
  fingerprint = lit "f00d";
  boot = booted 228;
}

abbrev farther : Row ℕ
farther = record after { id = lit "kvm-seabios"; args = lit "-bios" ∷ [] }

renames_iff_example :
    (is_some (value_at (lit "kvm-qboot") (renames (before ∷ []) (after ∷ farther ∷ []))) ≡ true)
    ↔ ((o : Row ℕ) × IsMutual (before ∷ []) (after ∷ farther ∷ []) (lit "kvm-qboot") o)
renames_iff_example = renames_iff (before ∷ []) (after ∷ farther ∷ []) (lit "kvm-qboot")

paired : value_at (lit "kvm-qboot") (renames (before ∷ []) (after ∷ farther ∷ [])) ≡ some before
unfolding value_at renames distance lit text_eq ◌+ℤ◌
paired = refl

renames_injective_example : lit "kvm-qboot" ≡ lit "kvm-qboot"
renames_injective_example =
    renames_injective (before ∷ []) (after ∷ farther ∷ []) (lit "kvm-qboot") (lit "kvm-qboot")
      before paired paired

section_lines_iff_example :
    (section_lines whole_numbers (before ∷ []) (before ∷ []) 5 false ≡ []) ↔ (
      All (IsKept whole_numbers 5 (before ∷ [])) (before ∷ [])
      × IsComplete whole_numbers 5 false (before ∷ []) (before ∷ []))
section_lines_iff_example = section_lines_iff whole_numbers 5 (before ∷ []) (before ∷ []) false

unchanged : section_lines whole_numbers (before ∷ []) (before ∷ []) 5 false ≡ []
unfolding section_lines text_eq lit contains
unchanged = refl

distance-without_example :
    distance before.args after.args
    ≡ length (without before.args after.args) + length (without after.args before.args)
distance-without_example = distance-without before.args after.args

one_apart : distance before.args after.args ≡ 1
unfolding distance lit text_eq ◌+ℤ◌
one_apart = refl
