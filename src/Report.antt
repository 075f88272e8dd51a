-- ===== src/Report.antt =====
-- boot/report.go: reports of the feature matrix, how the runs of a row are summed up, and what
-- changed from one report to the next. `Row.Shape`, which no function reads, is left out.
pub mod Numbers
pub mod Distance
pub mod Renames
pub mod Rows
pub mod Compared
pub mod Nearest
pub mod Pairs
pub mod Paired
pub mod Copies
pub mod Leftovers
pub mod Silent
pub mod Same
pub mod Summed
use spin_machine.Common.{
  ℕ, Text, lit, Bool, true, false, not, ltb, List, [], ◌∷◌, ◌++◌, length, Option, none, some,
  if◌then◌else◌,
}
use spin_machine.Common.Int.{ℤ, pos}
use spin_machine.Boot.{Phase, firmware, kernel, pid1, started, usable, phase_name, Run, is_some}
use spin_machine.Boot.Percentile.{count, percentile}
use Numbers.{Floats, le_ℤ, microseconds, rank}

-- A decoded JSON object, a map: no key stands twice in what is modelled by it.
abbrev pub Entries {ℓ} : Type ℓ → Type ℓ
Entries A = List (Text × A)

-- `Host`.
pub record Host : Type 0 where
  pub cpu : Text
  pub kernel : Text
  pub cpus : ℤ

-- `Summary`, for the numbers of a floating point.
pub record Summary (N : Type 0) : Type 0 where
  pub p50 : N
  pub p95 : N
  pub n : ℕ

-- `Boot`.
pub record Boot (N : Type 0) : Type 0 where
  pub boots : ℤ
  pub failed : ℤ
  pub error : Text
  pub phases : Entries (Summary N)

-- `Row`.
pub record Row (N : Type 0) : Type 0 where
  pub id : Text
  pub features : Entries Text
  pub args : List Text
  pub fingerprint : Text
  pub boot : Boot N

-- `Skipped`.
pub record Skipped : Type 0 where
  pub id : Text
  pub why : Text

-- `Report`.
pub record Report (N : Type 0) : Type 0 where
  pub release : Text
  pub artifacts : Entries Text
  pub host : Host
  pub reps : ℤ
  pub flags : List Text
  pub only : Text
  pub login : Text
  pub specs : List (Row N)
  pub variants : List (Row N)
  pub skipped : List Skipped

-- The times at which runs reached a phase.
unfoldable pub times : Phase → List Run → List ℤ
times p [] = []
times p (r ∷ runs) = let rest = times p runs in elim (r.at p) [ none ↦ rest | some d ↦ d ∷ rest ]

-- The phases, in their order.
unfoldable pub all_phases : List Phase
all_phases = firmware ∷ kernel ∷ pid1 ∷ started ∷ usable ∷ []

module _ (F : Floats) where
  -- `ms`.
  unfoldable pub ms : ℤ → F.Num
  unfolding microseconds
  ms d =
      F.div (F.round (F.div (F.of_int (microseconds d)) (F.of_int (pos 10)))) (F.of_int (pos 100))

  -- A phase, where there are percentiles of its times.
  abbrev pub summary_of : ℕ → Option ℤ → Option ℤ → Option (Summary F.Num)
  summary_of n none p95 = none
  summary_of n (some p50) none = none
  summary_of n (some p50) (some p95) = some (record { p50 = ms p50; p95 = ms p95; n = n })

  unfoldable pub summary : Phase → List Run → Option (Summary F.Num)
  unfolding times
  summary p runs =
      let ds = times p runs in
      summary_of (length ds) (percentile le_ℤ (rank F (F.literal 5 1)) ds)
        (percentile le_ℤ (rank F (F.literal 95 2)) ds)

  abbrev pub with_phase :
      Phase → Option (Summary F.Num) → Entries (Summary F.Num) → Entries (Summary F.Num)
  with_phase p none rest = rest
  with_phase p (some s) rest = (phase_name p, s) ∷ rest

  unfoldable pub summaries : List Phase → List Run → Entries (Summary F.Num)
  unfolding summary
  summaries [] runs = []
  summaries (p ∷ ps) runs = with_phase p (summary p runs) (summaries ps runs)

  -- `Summarise`.
  unfoldable pub summarise : List Run → Text → Boot F.Num
  unfolding summaries all_phases
  summarise runs failure =
      let failed = count (λ (r : Run). not (is_some (r.at usable))) runs in
      record {
        boots = pos (length runs);
        failed = pos failed;
        error = if ltb 0 failed then failure else [];
        phases = summaries all_phases runs;
      }
