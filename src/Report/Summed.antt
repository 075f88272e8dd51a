-- ===== src/Report/Summed.antt =====
-- What `Summarise` of boot/report.go says of the phases.
use spin_machine.Common.{
  ℕ, zero, suc, ◌≡◌, refl, ap, ◌∙◌, Text, lit, true, false, List, [], ◌∷◌, length, Option, none,
  some, All, text_eq, arith,
}
use spin_machine.Common.Int.{ℤ}
use spin_machine.Boot.{Phase, firmware, kernel, pid1, started, usable, phase_name, Run, is_some}
use spin_machine.Boot.Percentile.{count, percentile, percentile-rank}
use spin_machine.Report.{
  Entries, Summary, times, all_phases, summary_of, summary, with_phase, summaries, summarise,
}
use spin_machine.Report.Numbers.{Floats, le_ℤ, le_ℤ_total, le_ℤ_trans, rank}
use spin_machine.Report.Renames.{value_at}

-- How many runs reached a phase.
abbrev pub reached : Phase → List Run → ℕ
reached p = count (λ (r : Run). is_some (r.at p))

times-length : (p : Phase) (runs : List Run) → length (times p runs) ≡ reached p runs
unfolding times
times-length p [] = refl
times-length p (r ∷ runs) = ground (arith, times-length p runs)

-- A number of runs, if there are any.
abbrev pub some_runs : ℕ → Option ℕ
some_runs zero = none
some_runs (suc n) = some (suc n)

abbrev pub runs_of : {N : Type 0} → Option (Summary N) → Option ℕ
runs_of none = none
runs_of (some s) = some s.n

module _ (F : Floats) where
  with_phase-skip :
      (k : Text) (p : Phase) (s : Option (Summary F.Num)) (rest : Entries (Summary F.Num))
      → text_eq (phase_name p) k ≡ false
      → value_at k (with_phase F p s rest) ≡ value_at k rest
  unfolding value_at
  with_phase-skip k p none rest h = refl
  with_phase-skip k p (some s) rest h = rw (value_at, h) refl

  with_phase-hit :
      (k : Text) (p : Phase) (s : Option (Summary F.Num)) (rest : Entries (Summary F.Num))
      → text_eq (phase_name p) k ≡ true
      → value_at k rest ≡ none
      → value_at k (with_phase F p s rest) ≡ s
  unfolding value_at
  with_phase-hit k p none rest h e = e
  with_phase-hit k p (some s) rest h e = rw (value_at, h) refl

  -- Whether no phase of a list has a name.
  abbrev Unnamed : Text → List Phase → Type 0
  Unnamed k = All (λ p. text_eq (phase_name p) k ≡ false)

  summaries-none :
      (k : Text) (ps : List Phase) (runs : List Run)
      → Unnamed k ps
      → value_at k (summaries F ps runs) ≡ none
  unfolding summaries value_at
  summaries-none k [] runs h = refl
  summaries-none k (p ∷ ps) runs (h, hs) =
      with_phase-skip k p (summary F p runs) (summaries F ps runs) h ∙ summaries-none k ps runs hs

  summaries-hit :
      (p : Phase) (ps : List Phase) (runs : List Run)
      → text_eq (phase_name p) (phase_name p) ≡ true
      → Unnamed (phase_name p) ps
      → value_at (phase_name p) (summaries F (p ∷ ps) runs) ≡ summary F p runs
  unfolding summaries
  summaries-hit p ps runs same h =
      with_phase-hit (phase_name p) p (summary F p runs) (summaries F ps runs) same
        (summaries-none (phase_name p) ps runs h)

  summaries-skip :
      (k : Text) (p : Phase) (ps : List Phase) (runs : List Run)
      → text_eq (phase_name p) k ≡ false
      → value_at k (summaries F (p ∷ ps) runs) ≡ value_at k (summaries F ps runs)
  unfolding summaries
  summaries-skip k p ps runs h = with_phase-skip k p (summary F p runs) (summaries F ps runs) h

  value_at-summaries :
      (p : Phase) (runs : List Run)
      → value_at (phase_name p) (summaries F all_phases runs) ≡ summary F p runs
  unfolding all_phases phase_name text_eq lit
  value_at-summaries firmware runs =
      summaries-hit firmware (kernel ∷ pid1 ∷ started ∷ usable ∷ []) runs refl
        (refl, (refl, (refl, (refl, tt))))
  value_at-summaries kernel runs =
      summaries-skip _ firmware (kernel ∷ pid1 ∷ started ∷ usable ∷ []) runs refl
      ∙ summaries-hit kernel (pid1 ∷ started ∷ usable ∷ []) runs refl (refl, (refl, (refl, tt)))
  value_at-summaries pid1 runs =
      summaries-skip _ firmware (kernel ∷ pid1 ∷ started ∷ usable ∷ []) runs refl
      ∙ summaries-skip _ kernel (pid1 ∷ started ∷ usable ∷ []) runs refl
      ∙ summaries-hit pid1 (started ∷ usable ∷ []) runs refl (refl, (refl, tt))
  value_at-summaries started runs =
      summaries-skip _ firmware (kernel ∷ pid1 ∷ started ∷ usable ∷ []) runs refl
      ∙ summaries-skip _ kernel (pid1 ∷ started ∷ usable ∷ []) runs refl
      ∙ summaries-skip _ pid1 (started ∷ usable ∷ []) runs refl
      ∙ summaries-hit started (usable ∷ []) runs refl (refl, tt)
  value_at-summaries usable runs =
      summaries-skip _ firmware (kernel ∷ pid1 ∷ started ∷ usable ∷ []) runs refl
      ∙ summaries-skip _ kernel (pid1 ∷ started ∷ usable ∷ []) runs refl
      ∙ summaries-skip _ pid1 (started ∷ usable ∷ []) runs refl
      ∙ summaries-skip _ started (usable ∷ []) runs refl
      ∙ summaries-hit usable [] runs refl tt

  -- Times have a percentile exactly when there are any.
  percentile-some :
      (rank_of : ℕ → ℤ) (d : ℤ) (ds : List ℤ)
      → (v : ℤ) × (percentile le_ℤ rank_of (d ∷ ds) ≡ some v)
  percentile-some rank_of d ds =
      let h = percentile-rank le_ℤ le_ℤ_total le_ℤ_trans rank_of d ds in (h.0, h.1)

  summary_of-runs :
      (p50 p95 : ℕ → ℤ) (ds : List ℤ)
      → runs_of (summary_of F (length ds) (percentile le_ℤ p50 ds) (percentile le_ℤ p95 ds))
        ≡ some_runs (length ds)
  unfolding percentile
  summary_of-runs p50 p95 [] = refl
  summary_of-runs p50 p95 (d ∷ ds) =
      rw ((percentile-some p50 d ds).1, (percentile-some p95 d ds).1) refl

  -- A boot has a summary of a phase exactly when one of its runs reached the phase, and it counts
  -- those runs.
  pub summarise-phase :
      (runs : List Run) (failure : Text) (p : Phase)
      → runs_of (value_at (phase_name p) (summarise F runs failure).phases)
        ≡ some_runs (reached p runs)
  unfolding summarise summary
  summarise-phase runs failure p =
      ap runs_of (value_at-summaries p runs)
      ∙ summary_of-runs (rank F (F.literal 5 1)) (rank F (F.literal 95 2)) (times p runs)
      ∙ ap some_runs (times-length p runs)
