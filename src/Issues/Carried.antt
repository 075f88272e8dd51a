-- ===== src/Issues/Carried.antt =====
-- What `run` of hack/osvissues/main.go does of its plan.
use spin_machine.Common.{
  ℕ, suc, ◌+◌, ◌∙◌, length, arith, ◌≡◌, ◌⊎◌, inl, inr, refl, ap, Text, Bool, true, false, List, [],
  ◌∷◌, ◌++◌, map, Option, none, some, Result, ok, err, is_empty,
}
use spin_machine.Issues
use spin_machine.Issues.{Issue, Action, plan}
use spin_machine.Issues.Findings.{Finding, read_findings}
use spin_machine.Issues.Running.{
  Setting, describe, not_done, Exit, before, after_call, carry_out, list_issues, run,
}

-- A dry run prints the plan and calls nothing.
carry_out_dry :
    (w : Setting) (n : ℕ) (todo : List Action)
    → carry_out w true n todo
      ≡ record { status = 0; printed = map (describe w.quote) todo; calls = []; complaint = none }
unfolding carry_out
carry_out_dry w n [] = refl
carry_out_dry w n (a ∷ todo) = rw (carry_out_dry w n todo) refl

-- The CLI took the calls of these actions, from its n-th call on.
abbrev pub AllTaken : Setting → ℕ → List Action → Type 0
AllTaken w n [] = Unit
AllTaken w n (a ∷ as') =
    ((out : Text) × (w.cli n (Issues.args a) ≡ ok out)) × AllTaken w (suc n) as'

-- The actions that were tried, each printed and then called, before those that were not. Either the
-- CLI took all of them and none was left, or it failed at the last one and took those before it.
abbrev pub IsCarried : Setting → ℕ → List Action → Exit → Type 0
IsCarried w n todo e =
    (tried : List Action) × (rest : List Action) × (todo ≡ tried ++ rest)
    × (e.printed ≡ map (describe w.quote) tried)
    × (e.calls ≡ map Issues.args tried)
    × (((e.status ≡ 0) × (e.complaint ≡ none) × (rest ≡ []) × AllTaken w n tried)
        ⊎ ((done : List Action) × (a : Action) × (why : Text) × (e.status ≡ 1)
            × (tried ≡ done ++ a ∷ [])
            × (e.complaint ≡ some (not_done (describe w.quote a) why))
            × AllTaken w n done
            × (w.cli (n + length done) (Issues.args a) ≡ err why)))

carry_out-IsCarried :
    (w : Setting) (n : ℕ) (todo : List Action) → IsCarried w n todo (carry_out w false n todo)
unfolding carry_out
carry_out-IsCarried w n [] = ([], [], refl, refl, refl, inl (refl, refl, refl, tt))
carry_out-IsCarried w n (a ∷ todo) =
    called (w.cli n (Issues.args a)) refl (carry_out-IsCarried w (suc n) todo)
  where
    later : (i : ℕ) → n + suc i ≡ suc n + i
    later i = omega arith

    called :
        {rest : Exit} (answer : Result Text Text)
        → w.cli n (Issues.args a) ≡ answer
        → IsCarried w (suc n) todo rest
        → IsCarried w n (a ∷ todo) (after_call (describe w.quote a) (Issues.args a) rest answer)
    called (err e) said _ = (
      a ∷ [],
      todo,
      refl,
      refl,
      refl,
      inr ([], a, e, refl, refl, refl, tt, ap (λ i. w.cli i (Issues.args a)) (omega arith) ∙ said),
    )
    called (ok out) said (tried, more, split, printed, calls, end) = (
      a ∷ tried,
      more,
      ap (λ xs. a ∷ xs) split,
      ap (λ xs. describe w.quote a ∷ xs) printed,
      ap (λ xs. Issues.args a ∷ xs) calls,
      elim end [
        | inl (s, c, r, taken) ↦ inl (s, c, r, ((out, said), taken))
        | inr (done, last, why, s, t, c, taken, failed) ↦ inr (
          a ∷ done,
          last,
          why,
          s,
          ap (λ xs. a ∷ xs) t,
          c,
          ((out, said), taken),
          ap (λ i. w.cli i (Issues.args last)) (later (length done)) ∙ failed,
        )
      ],
    )

-- A run: behind the listing of the issues, a dry one or one that carries out the plan.
abbrev pub IsRun : Setting → Bool → List Action → Exit → Type 0
IsRun w true todo e = e ≡ record {
  status = 0;
  printed = map (describe w.quote) todo;
  calls = list_issues ∷ [];
  complaint = none;
}
IsRun w false todo e =
    (rest : Exit) × (e ≡ before [] (list_issues ∷ []) rest) × IsCarried w 1 todo rest

-- `run` with findings and issues that could be read: it lists the issues, and then does its plan in
-- order, printing each action and calling for it. It ends with status 0 only where the CLI took the
-- call of every action of the plan; else it ends with status 1 and the CLI's error, at the first
-- action whose call failed, and tries none behind it. A dry run prints the whole plan and calls
-- nothing more.
pub run-IsCarried :
    (w : Setting) (release path bytes out : Text) (end : Option Text) (fs : List Finding)
    (issues : List Issue) (dry : Bool)
    → is_empty release ≡ false
    → is_empty path ≡ false
    → w.open_file path ≡ ok (bytes, end)
    → read_findings bytes end ≡ ok fs
    → w.cli 0 list_issues ≡ ok out
    → w.decode out ≡ ok issues
    → IsRun w dry (plan release fs issues) (run w release path dry)
unfolding run
run-IsCarried w release path bytes out end fs issues true r p f d l j =
    rw (r, p, f, d, l, j, carry_out_dry w 1 (plan release fs issues)) refl
run-IsCarried w release path bytes out end fs issues false r p f d l j =
    rw (r, p, f, d, l, j)
      (
        carry_out w false 1 (plan release fs issues),
        refl,
        carry_out-IsCarried w 1 (plan release fs issues),
      )
