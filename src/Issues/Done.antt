-- ===== src/Issues/Done.antt =====
-- A plan that is carried out (hack/osvissues/main.go) leaves nothing to do.
use mathlib.Core.Path.{subst}
use spin_machine.Common.{
  ◌≡◌, ◌≢◌, refl, ap, sym, ◌∙◌, Text, Bool, true, false, List, [], ◌∷◌, map, Option, none, All,
  All-map, All-imp, Bool-cases, inl, inr, contains, all_contained,
}
use spin_machine.Issues.{
  Issue, Action, title_of, of_package, packages, newest, keep, keep_all, is_gone, gone, closing,
  close_all, titles, plan,
}
use spin_machine.Issues.Findings.{Finding, name}
use spin_machine.Issues.Sorting.{sort, sort-All}
use spin_machine.Issues.Settled.{Kept, contains-All, distinct-All, plan_nothing}
use spin_machine.Issues.Newest.{each_one}
use spin_machine.Issues.Github.{IsGithub, carried, carried-append, AreUnique}
use spin_machine.Issues.Settling.{
  AllSettle, IsShut, all_actions, all_settle, keep-Settles, closing-Settles,
}
use spin_machine.Issues.Apart.{
  IsDistinct, apart_of_contains, distinct-IsDistinct, sort-IsDistinct, gone-IsDistinct,
  gone-is_gone, contains-gone,
}
use spin_machine.Issues.Titled.{
  title_of-injective, distinct-AreApart, named-stays, gone-apart, is_gone-newest, gone-open,
  open-titled, keep_all-actions, close_all-actions, stays-Justified,
}

module _ (perform : Action → List Issue → List Issue) (github : IsGithub perform) (release : Text)
    (fs : List Finding) (issues : List Issue) (unique : AreUnique issues) where
  abbrev KeptOne : Text → Option Issue → Type 0
  KeptOne n = Kept release (of_package n fs)

  abbrev keeps : Text → List Action
  keeps n = keep release (of_package n fs) n (newest (title_of n) none issues)

  abbrev closes : Text → List Action
  closes t = closing release t (newest t none issues)

  abbrev named_ones : List Text
  named_ones = sort (packages fs)

  abbrev gone_ones : List Text
  gone_ones = sort (gone (packages fs) issues (titles issues))

  abbrev after_keeps : List Issue
  after_keeps = carried perform (all_actions keeps named_ones) issues

  abbrev after_all : List Issue
  after_all = carried perform (all_actions closes gone_ones) after_keeps

  packages-IsDistinct : IsDistinct (packages fs)
  unfolding packages
  packages-IsDistinct = distinct-IsDistinct (map name fs)

  titles-IsDistinct : IsDistinct (titles issues)
  unfolding titles
  titles-IsDistinct = distinct-IsDistinct (map (λ (i : Issue). i.title) issues)

  keeps_settle :
      AllSettle perform issues title_of keeps KeptOne
        (λ n is u e.
          keep-Settles perform github release
            (of_package n fs)
            n
            is
            (newest (title_of n) none issues)
            u
            e)
        named_ones
        issues
  keeps_settle =
      all_settle perform issues title_of keeps KeptOne
        (λ n is u e.
          keep-Settles perform github release (of_package n fs) n is
            (newest (title_of n) none issues) u e)
        named_ones issues unique
        (distinct-AreApart title_of title_of-injective named_ones
          (sort-IsDistinct (packages fs) packages-IsDistinct))
        (each_text named_ones)
    where
      each_text :
          (ks : List Text)
          → All (λ k. newest (title_of k) none issues ≡ newest (title_of k) none issues) ks
      each_text [] = tt
      each_text (k ∷ ks) = (refl, each_text ks)

  kept-gone :
      (t : Text)
      → is_gone (packages fs) issues t ≡ true
      → newest t none after_keeps ≡ newest t none issues
  kept-gone t g =
      keeps_settle.others t
        ((sort-All (λ k. title_of k ≢ t) (packages fs)).1 (gone-apart (packages fs) issues t g))

  gone_ones-gone : All (λ t. is_gone (packages fs) issues t ≡ true) gone_ones
  gone_ones-gone =
      (sort-All (λ t. is_gone (packages fs) issues t ≡ true)
          (gone (packages fs) issues (titles issues))).1
        (gone-is_gone (packages fs) issues (titles issues))

  closes_settle :
      AllSettle perform issues
        (λ t. t)
        closes
        (λ t. IsShut perform github)
        (λ t is u e. closing-Settles perform github release t is (newest t none issues) u e)
        gone_ones
        after_keeps
  closes_settle =
      all_settle perform issues (λ t. t) closes (λ t. IsShut perform github)
        (λ t is u e. closing-Settles perform github release t is (newest t none issues) u e)
        gone_ones after_keeps keeps_settle.unique
        (distinct-AreApart (λ t. t) (λ m n e. e) gone_ones
          (sort-IsDistinct (gone (packages fs) issues (titles issues))
            (gone-IsDistinct (packages fs) issues (titles issues) titles-IsDistinct)))
        (All-imp kept-gone gone_ones gone_ones-gone)

  -- After the plan the issue of each package is as it should be.
  all-Kept : All (λ (f : Finding). KeptOne (name f) (newest (title_of (name f)) none after_all)) fs
  unfolding packages
  all-Kept =
      let P : Text → Type 0 = λ n. KeptOne n (newest (title_of n) none after_all) in
      let listed : All (λ k. contains (packages fs) k ≡ true) named_ones =
        (sort-All (λ k. contains (packages fs) k ≡ true) (packages fs)).1
          (all_contained (packages fs)) in
      let kept : All P named_ones = moved named_ones listed keeps_settle.made in
      (All-map P name fs).0
        ((distinct-All P [] (map name fs)).0 ((sort-All P (packages fs)).0 kept)).1
    where
      unmoved :
          (k : Text)
          → contains (packages fs) k ≡ true
          → newest (title_of k) none after_all ≡ newest (title_of k) none after_keeps
      unmoved k c = closes_settle.others (title_of k) (
          All-imp
            (λ t g e. absurd (
              let s = named-stays (packages fs) issues k c in
              let q = ap (is_gone (packages fs) issues) e in cc))
            gone_ones gone_ones-gone)

      moved :
          (ks : List Text)
          → All (λ k. contains (packages fs) k ≡ true) ks
          → All (λ k. KeptOne k (newest (title_of k) none after_keeps)) ks
          → All (λ k. KeptOne k (newest (title_of k) none after_all)) ks
      moved [] _ _ = tt
      moved (k ∷ ks) (c, cs) (q, qs) = (subst (KeptOne k) (sym (unmoved k c)) q, moved ks cs qs)

  -- And no title is left to be closed.
  none-gone : (t : Text) → is_gone (packages fs) after_all t ≡ false
  none-gone t = elim (Bool-cases (is_gone (packages fs) after_all t)) [
    | inr e ↦ e
    | inl e ↦ absurd (left e (contains (gone (packages fs) issues (titles issues)) t) refl)
  ]
    where
      left :
          is_gone (packages fs) after_all t ≡ true
          → (b : Bool) → contains (gone (packages fs) issues (titles issues)) t ≡ b
          → ⊥
      left g true c =
          let shut =
            contains-All (λ u. IsShut perform github (newest u none after_all))
              (gone (packages fs) issues (titles issues)) t c
              ((sort-All (λ u. IsShut perform github (newest u none after_all))
                  (gone (packages fs) issues (titles issues))).0
                closes_settle.made) in
          let opened = gone-open (packages fs) after_all t g in cc
      left g false c =
          let second = closes_settle.others t (
            (sort-All (λ u. u ≢ t) (gone (packages fs) issues (titles issues))).1
              (apart_of_contains t (gone (packages fs) issues (titles issues)) c)) in
          let first = keeps_settle.others t (
            (sort-All (λ k. title_of k ≢ t) (packages fs)).1
              (gone-apart (packages fs) after_all t g)) in
          let before : is_gone (packages fs) issues t ≡ true =
            sym (is_gone-newest (packages fs) after_all issues t (second ∙ first)) ∙ g in
          let there =
            contains-gone (packages fs) issues (titles issues) t
              (open-titled issues t (gone-open (packages fs) issues t before)) before in
          cc

  carried-after : carried perform (plan release fs issues) issues ≡ after_all
  unfolding plan
  carried-after =
      carried-append perform (keep_all release fs issues named_ones)
        (close_all release issues gone_ones) issues
      ∙ ap (λ xs. carried perform (close_all release issues gone_ones) (carried perform xs issues))
          (keep_all-actions release fs issues named_ones)
      ∙ ap (λ xs. carried perform xs after_keeps) (close_all-actions release issues gone_ones)

-- Where the newest issues of two titles have two numbers, the issues that carrying out the plan leaves
-- want no action: with the same findings and release, the plan of them is empty. What a call makes of
-- the issues is what the GitHub CLI documents: a new issue is open and has a new number, and the other
-- calls change the body or the state of the issue with their number.
pub plan-carried :
    (perform : Action → List Issue → List Issue) (release : Text) (fs : List Finding)
    (issues : List Issue)
    → IsGithub perform
    → AreUnique issues
    → plan release fs (carried perform (plan release fs issues) issues) ≡ []
plan-carried perform release fs issues github unique =
    subst (λ is. plan release fs is ≡ [])
      (sym (carried-after perform github release fs issues unique))
      ((plan_nothing release fs (after_all perform github release fs issues unique)).1 (
        all-Kept perform github release fs issues unique,
        each_one _
            (λ i.
              stays-Justified (packages fs) _ i.title
                (none-gone perform github release fs issues unique i.title))
            _,
      ))
