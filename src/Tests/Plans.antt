-- ===== src/Tests/Plans.antt =====
-- A plan of hack/osvissues/main.go, carried out on issues that are a list.
use spin_machine.Common.{
  ℕ, ◌+◌, ◌≤◌, ◌≡◌, ◌≢◌, refl, ap, sym, ◌∙◌, Text, lit, List, [], ◌∷◌, map, none, some, All, arith,
}
use spin_machine.Common.Int.{pos, pos_part}
use spin_machine.Issues.{Issue, Action, Verb, create, edit, reopen, close, newest, plan}
use spin_machine.Issues.Newest.{newest-title, newest-All}
use spin_machine.Issues.Github.{IsGithub, carried, on_number, with_body, with_state, AreUnique}
use spin_machine.Issues.Done.{plan-carried}
use spin_machine.Tests.Tools.{opened, found}

-- More than every number that is in use.
unfoldable numbered : List Issue → ℕ
numbered [] = 1
numbered (i ∷ is) = pos_part i.number + numbered is

abbrev listed_by : Verb → Action → List Issue → List Issue
listed_by create a is =
    record { number = pos (numbered is); title = a.title; state = lit "OPEN"; body = a.body } ∷ is
listed_by edit a is = map (on_number a.number (with_body a.body)) is
listed_by reopen a is = map (on_number a.number (with_state (lit "OPEN"))) is
listed_by close a is = map (on_number a.number (with_state (lit "CLOSED"))) is

abbrev on_issue_list : Action → List Issue → List Issue
on_issue_list a is = listed_by a.verb a is

numbered-new :
    (n : ℕ) (is : List Issue) → numbered is ≤ n → All (λ (i : Issue). i.number ≢ pos n) is
unfolding numbered
numbered-new n [] h = tt
numbered-new n (i ∷ is) h = (
  λ e. absurd (let p = ap pos_part e in let o = some_left is in omega arith),
  numbered-new n is (omega arith),
)
  where
    some_left : (is : List Issue) → 1 ≤ numbered is
    some_left [] = omega arith
    some_left (j ∷ js) = let rest = some_left js in omega arith

on_issue_list-IsGithub : IsGithub on_issue_list
on_issue_list-IsGithub = record {
  creates = λ a is e. (
    pos (numbered is),
    numbered-new (numbered is) is (omega arith),
    ap (λ v. listed_by v a is) e,
  );
  edits = λ a is e. ap (λ v. listed_by v a is) e;
  reopens = λ a is e. ap (λ v. listed_by v a is) e;
  closes = λ a is e. ap (λ v. listed_by v a is) e;
}

opened-AreUnique : AreUnique (opened ∷ [])
opened-AreUnique t u i j e f _ = sym (titled t i e) ∙ titled u j f
  where
    titled : (t : Text) (i : Issue) → newest t none (opened ∷ []) ≡ some i → lit "osv: curl" ≡ t
    titled t i e =
        sym (newest-All (λ (k : Issue). k.title ≡ lit "osv: curl") t i (opened ∷ []) e (refl, tt))
        ∙ newest-title t i (opened ∷ []) e

plan-carried_example :
    plan
      (lit "v3")
      found
      (carried on_issue_list (plan (lit "v3") found (opened ∷ [])) (opened ∷ []))
    ≡ []
plan-carried_example =
    plan-carried on_issue_list (lit "v3") found (opened ∷ []) on_issue_list-IsGithub
      opened-AreUnique
