-- ===== src/Issues/Running.antt =====
-- `run` and `action.describe` of hack/osvissues/main.go. The GitHub CLI, the file of findings, the
-- decoding of JSON and `%q` are parameters.
use spin_machine.Common.{
  ℕ, suc, Text, lit, ◌<>◌, Bool, true, false, ◌||◌, List, [], ◌∷◌, ◌++◌, Option, none, some, Result,
  ok, err, is_empty, if◌then◌else◌,
}
use spin_machine.Common.Int.{is_zero}
use spin_machine.Common.Numeral.{itoa}
use spin_machine.Issues
use spin_machine.Issues.{Issue, Action, Verb, create, edit, reopen, close, plan}
use spin_machine.Issues.Findings.{Finding, FindingsError, read_findings}

unfoldable pub verb_name : Verb → Text
verb_name create = lit "create"
verb_name edit = lit "edit"
verb_name reopen = lit "reopen"
verb_name close = lit "close"

-- What `run` is given beside its flags: the answer to its n-th call of the CLI, the bytes of a file
-- with the error that ended them early, the decoder of the issues, and quoting.
pub record Setting : Type 0 where
  pub cli : ℕ → List Text → Result Text Text
  pub open_file : Text → Result Text (Text × Option Text)
  pub decode : Text → Result Text (List Issue)
  pub quote : Text → Text

-- `describe`.
unfoldable pub describe : (Text → Text) → Action → Text
unfolding verb_name
describe quote a =
    if is_zero a.number
    then verb_name a.verb <> lit " " <> quote a.title
    else verb_name a.verb <> lit " #" <> itoa a.number <> lit " " <> quote a.title

-- What `run` writes to the error output.
pub data Complaint : Type 0 where
  required : Complaint
  not_opened : Text → Complaint
  not_read : FindingsError → Complaint
  not_listed : Text → Complaint
  not_done : Text → Text → Complaint

-- The exit status, the lines printed, the calls of the CLI and the complaint.
pub record Exit : Type 0 where
  pub status : ℕ
  pub printed : List Text
  pub calls : List (List Text)
  pub complaint : Option Complaint

abbrev pub finished : Exit
finished = record { status = 0; printed = []; calls = []; complaint = none }

abbrev pub stopped : ℕ → List (List Text) → Complaint → Exit
stopped n calls c = record { status = n; printed = []; calls = calls; complaint = some c }

-- An action that was done, before the rest.
abbrev pub before : List Text → List (List Text) → Exit → Exit
before lines calls rest = record rest {
  printed = lines ++ rest.printed;
  calls = calls ++ rest.calls;
}

abbrev pub after_call : Text → List Text → Exit → Result Text Text → Exit
after_call said called rest (ok _) = before (said ∷ []) (called ∷ []) rest
after_call said called rest (err e) = record {
  status = 1;
  printed = said ∷ [];
  calls = called ∷ [];
  complaint = some (not_done said e);
}

-- The loop over the plan, from a number of calls on.
unfoldable pub carry_out : Setting → Bool → ℕ → List Action → Exit
unfolding describe Issues.args
carry_out w dry n [] = finished
carry_out w true n (a ∷ todo) = before (describe w.quote a ∷ []) [] (carry_out w true n todo)
carry_out w false n (a ∷ todo) =
    after_call (describe w.quote a) (Issues.args a) (carry_out w false (suc n) todo)
      (w.cli n (Issues.args a))

unfoldable pub list_issues : List Text
list_issues =
    lit "issue"
    ∷ lit "list"
    ∷ lit "--state"
    ∷ lit "all"
    ∷ lit "--limit"
    ∷ lit "1000"
    ∷ lit "--json"
    ∷ lit "number,title,state,body"
    ∷ []

abbrev pub on_issues : Setting → Bool → Text → List Finding → Result Text (List Issue) → Exit
on_issues w dry release fs (err e) = stopped 1 (list_issues ∷ []) (not_listed e)
on_issues w dry release fs (ok issues) =
    before [] (list_issues ∷ []) (carry_out w dry 1 (plan release fs issues))

abbrev pub on_list : Setting → Bool → Text → List Finding → Result Text Text → Exit
on_list w dry release fs (err e) = stopped 1 (list_issues ∷ []) (not_listed e)
on_list w dry release fs (ok out) = on_issues w dry release fs (w.decode out)

abbrev pub on_findings : Setting → Bool → Text → Result FindingsError (List Finding) → Exit
on_findings w dry release (err e) = stopped 1 [] (not_read e)
on_findings w dry release (ok fs) = on_list w dry release fs (w.cli 0 list_issues)

abbrev pub on_file : Setting → Bool → Text → Result Text (Text × Option Text) → Exit
on_file w dry release (err e) = stopped 1 [] (not_opened e)
on_file w dry release (ok (bytes, end)) = on_findings w dry release (read_findings bytes end)

-- `run`, behind the parsing of its flags.
unfoldable pub run : Setting → Text → Text → Bool → Exit
unfolding carry_out list_issues
run w release findings dry =
    if is_empty release || is_empty findings
    then stopped 2 [] required
    else on_file w dry release (w.open_file findings)
