-- ===== src/Issues/Settling.antt =====
-- The actions for one package or one title (hack/osvissues/main.go) settle its newest issue, and those
-- for many settle each.
use mathlib.Core.Path.{subst}
use spin_machine.Common.{
  ◌≡◌, ◌≢◌, refl, ap, sym, ◌∙◌, inl, inr, Text, lit, Bool, true, false, List, [], ◌∷◌, ◌++◌, Option,
  none, some, All, text_eq, text_eq_self, text_eq_iff, if◌then◌else◌,
}
use spin_machine.Issues.{
  Issue, Action, edit, body, title_of, newest, unlisted, ids, is_open, is_open_one, reopening, keep,
  closing,
}
use spin_machine.Issues.Findings.{Finding}
use spin_machine.Issues.Settled.{Kept, unlisted-nothing}
use spin_machine.Issues.Github.{
  IsGithub, carried, carried-append, AreUnique, Settles, Settles-nil, Settles-change,
  Settles-create, with_body, with_state,
}

module _ (perform : Action → List Issue → List Issue) (github : IsGithub perform) where
  -- The body is written last.
  edit-Settles :
      (release : Text) (fs : List Finding) (u : Text) (is : List Issue) (i : Issue)
      → is_open i ≡ true
      → AreUnique is
      → newest u none is ≡ some i
      → Settles perform
          (record { verb = edit; number = i.number; title = i.title; body = body release fs } ∷ [])
          u
          is
          (Kept release fs)
  edit-Settles release fs u is i opened unique e =
      let want = body release fs in
      let a : Action = record { verb = edit; number = i.number; title = i.title; body = want } in
      Settles-change perform a [] u is (Kept release fs) (with_body want) i (λ j. (refl, refl))
        unique e (github.edits a is refl)
        (λ is' unique' e'.
          Settles-nil perform u is' (Kept release fs) unique'
            (subst (Kept release fs) (sym e') (inl (opened, refl))))

  reopening-Settles :
      (release : Text) (fs : List Finding) (u : Text) (is : List Issue) (i : Issue) (xs : List Text)
      → is_open i ≡ false
      → unlisted (ids i) fs ≡ xs
      → AreUnique is
      → newest u none is ≡ some i
      → Settles perform (reopening release i (body release fs) xs) u is (Kept release fs)
  reopening-Settles release fs u is i [] shut few unique e =
      Settles-nil perform u is (Kept release fs) unique
        (subst (Kept release fs) (sym e) (inr (shut, (unlisted-nothing (ids i) fs).0 few)))
  reopening-Settles release fs u is i (x ∷ xs) shut few unique e =
      Settles-change perform _ _ u is (Kept release fs) (with_state (lit "OPEN")) i
        (λ j. (refl, refl)) unique e (github.reopens _ is refl)
        (λ is' unique' e'.
          edit-Settles release fs u is' (with_state (lit "OPEN") i) (text_eq_self (lit "OPEN"))
            unique' e')

  pub keep-Settles :
      (release : Text) (fs : List Finding) (n : Text) (is : List Issue) (o : Option Issue)
      → AreUnique is
      → newest (title_of n) none is ≡ o
      → Settles perform (keep release fs n o) (title_of n) is (Kept release fs)
  keep-Settles release fs n is none unique e =
      Settles-create perform _ (title_of n) is (Kept release fs) github refl refl unique e
        (λ i opened same.
          inl (ap (λ s. text_eq s (lit "OPEN")) opened ∙ text_eq_self (lit "OPEN"), same))
  keep-Settles release fs n is (some i) unique e = by_state (is_open i) refl
    where
      by_body :
          (b : Bool)
          → text_eq i.body (body release fs) ≡ b
          → is_open i ≡ true
          → Settles perform
              (if b
                then []
                else record {
                  verb = edit;
                  number = i.number;
                  title = i.title;
                  body = body release fs;
                }
                  ∷ [])
              (title_of n)
              is
              (Kept release fs)
      by_body true same opened = Settles-nil perform (title_of n) is (Kept release fs) unique (
          subst (Kept release fs) (sym e)
            (inl (opened, (text_eq_iff i.body (body release fs)).0 same)))
      by_body false same opened = edit-Settles release fs (title_of n) is i opened unique e

      by_state :
          (b : Bool)
          → is_open i ≡ b
          → Settles perform
              (if b
                then (if text_eq i.body (body release fs)
                    then []
                    else record {
                      verb = edit;
                      number = i.number;
                      title = i.title;
                      body = body release fs;
                    }
                      ∷ [])
                else reopening release i (body release fs) (unlisted (ids i) fs))
              (title_of n)
              is
              (Kept release fs)
      by_state true opened = by_body (text_eq i.body (body release fs)) refl opened
      by_state false shut = reopening-Settles release fs (title_of n) is i _ shut refl unique e

  -- An issue that is not open, or none.
  abbrev pub IsShut : Option Issue → Type 0
  IsShut o = is_open_one o ≡ false

  pub closing-Settles :
      (release t : Text) (is : List Issue) (o : Option Issue)
      → AreUnique is
      → newest t none is ≡ o
      → Settles perform (closing release t o) t is IsShut
  unfolding text_eq lit
  closing-Settles release t is none unique e =
      Settles-nil perform t is IsShut unique (subst IsShut (sym e) refl)
  closing-Settles release t is (some i) unique e =
      Settles-change perform _ [] t is IsShut (with_state (lit "CLOSED")) i (λ j. (refl, refl))
        unique e (github.closes _ is refl)
        (λ is' unique' e'. Settles-nil perform t is' IsShut unique' (subst IsShut (sym e') refl))

-- Titles that are different.
abbrev pub AreApart : (Text → Text) → List Text → Type 0
AreApart title [] = Unit
AreApart title (k ∷ ks) = All (λ m. title m ≢ title k) ks × AreApart title ks

unfoldable pub all_actions : (Text → List Action) → List Text → List Action
all_actions actions [] = []
all_actions actions (k ∷ ks) = actions k ++ all_actions actions ks

module _ (perform : Action → List Issue → List Issue) (issues : List Issue) (title : Text → Text)
    (actions : Text → List Action) (Q : Text → Option Issue → Type 0)
    (settle : (k : Text) (is : List Issue)
      → AreUnique is
      → newest (title k) none is ≡ newest (title k) none issues
      → Settles perform (actions k) (title k) is (Q k)) where
  pub record AllSettle (ks : List Text) (is : List Issue) : Type 0 where
    pub unique : AreUnique (carried perform (all_actions actions ks) is)
    pub others :
        (t : Text)
        → All (λ k. title k ≢ t) ks
        → newest t none (carried perform (all_actions actions ks) is) ≡ newest t none is
    pub made :
        All (λ k. Q k (newest (title k) none (carried perform (all_actions actions ks) is))) ks

  pub all_settle :
      (ks : List Text) (is : List Issue)
      → AreUnique is
      → AreApart title ks
      → All (λ k. newest (title k) none is ≡ newest (title k) none issues) ks
      → AllSettle ks is
  unfolding all_actions carried
  all_settle [] is unique _ _ = record { unique = unique; others = λ t _. refl; made = tt }
  all_settle (k ∷ ks) is unique (apart, aparts) (h, hs) =
      let first = settle k is unique h in
      let is' = carried perform (actions k) is in
      let split = carried-append perform (actions k) (all_actions actions ks) is in
      let both : All (λ m. newest (title m) none is' ≡ newest (title m) none issues) ks =
        both_hold ks is' first.others apart hs in
      let rest = all_settle ks is' first.unique aparts both in
      record {
        unique = subst AreUnique (sym split) rest.unique;
        others = λ t (a, as').
            ap (λ x. newest t none x) split ∙ rest.others t as' ∙ first.others t (λ e. a (sym e));
        made = (
          subst (λ x. Q k (newest (title k) none x)) (sym split)
              (subst (Q k) (sym (rest.others (title k) apart)) first.made),
          subst (λ x. All (λ m. Q m (newest (title m) none x)) ks) (sym split) rest.made,
        );
      }
    where
      both_hold :
          (ms : List Text) (is' : List Issue)
          → ((t : Text) → t ≢ title k → newest t none is' ≡ newest t none is)
          → All (λ m. title m ≢ title k) ms
          → All (λ m. newest (title m) none is ≡ newest (title m) none issues) ms
          → All (λ m. newest (title m) none is' ≡ newest (title m) none issues) ms
      both_hold [] is' o _ _ = tt
      both_hold (m ∷ ms) is' o (a, as') (b, bs) = (o (title m) a ∙ b, both_hold ms is' o as' bs)
