-- ===== src/Issues/Titled.antt =====
-- The titles of the packages and of the issues that `plan` of hack/osvissues/main.go closes.
use mathlib.Core.Option.{some-injective}
use spin_machine.Common.{
  ◌≡◌, ◌≢◌, refl, ap, sym, ◌∙◌, Text, lit, Bool, true, false, ◌&&◌, not, List, [], ◌∷◌, ◌++◌, map,
  Option, none, some, All, All-map, All-imp, Bool-cases, inl, inr, contains, all_contained,
  has_byte, arith,
}
use spin_machine.Issues.{
  Issue, title_of, of_package, newest, is_open_one, keep, keep_all, is_gone, is_gone_name, closing,
  close_all, titles,
}
use spin_machine.Issues.Findings.{Finding}
use spin_machine.Issues.Links.{cut_prefix}
use spin_machine.Issues.Settled.{Justified, gone-Justified, distinct-All}
use spin_machine.Issues.Newest.{newest-title, newest-All}
use spin_machine.Issues.Settling.{AreApart, all_actions}
use spin_machine.Issues.Apart.{IsDistinct, apart_of_contains}

named-cut_prefix : (n : Text) → cut_prefix (lit "osv: ") (title_of n) ≡ some n
unfolding cut_prefix lit title_of
named-cut_prefix n = refl

pub title_of-injective : (m n : Text) → title_of m ≡ title_of n → m ≡ n
title_of-injective m n e =
    some-injective m n
      (sym (named-cut_prefix m) ∙ ap (cut_prefix (lit "osv: ")) e ∙ named-cut_prefix n)

pub distinct-AreApart :
    (title : Text → Text)
    → ((m n : Text) → title m ≡ title n → m ≡ n)
    → (ks : List Text) → IsDistinct ks
    → AreApart title ks
distinct-AreApart title inj [] _ = tt
distinct-AreApart title inj (k ∷ ks) (a, h) =
    (All-imp (λ m apart e. apart (inj m k e)) ks a, distinct-AreApart title inj ks h)

-- The title of a package with a finding is not that of one without.
pub named-stays :
    (names : List Text) (issues : List Issue) (k : Text)
    → contains names k ≡ true
    → is_gone names issues (title_of k) ≡ false
unfolding is_gone
named-stays names issues k h =
    ap (λ o. is_open_one (newest (title_of k) none issues) && is_gone_name names o)
      (named-cut_prefix k)
    ∙ listed_one (is_open_one (newest (title_of k) none issues)) (has_byte b' ' k)
        (contains names k) h
  where
    listed_one : (a b c : Bool) → c ≡ true → (a && (not b && not c)) ≡ false
    listed_one a b c e = ground (arith, e)

pub gone-apart :
    (names : List Text) (issues : List Issue) (t : Text)
    → is_gone names issues t ≡ true
    → All (λ k. title_of k ≢ t) names
gone-apart names issues t g =
    All-imp
      (λ k c e.
        absurd (let s = named-stays names issues k c in let q = ap (is_gone names issues) e in cc))
      names (all_contained names)

pub is_gone-newest :
    (names : List Text) (is js : List Issue) (t : Text)
    → newest t none is ≡ newest t none js
    → is_gone names is t ≡ is_gone names js t
unfolding is_gone
is_gone-newest names is js t e =
    ap (λ o. is_open_one o && is_gone_name names (cut_prefix (lit "osv: ") t)) e

pub gone-open :
    (names : List Text) (is : List Issue) (t : Text)
    → is_gone names is t ≡ true
    → is_open_one (newest t none is) ≡ true
unfolding is_gone
gone-open names is t h =
    both (is_open_one (newest t none is)) (is_gone_name names (cut_prefix (lit "osv: ") t)) h
  where
    both : (a b : Bool) → (a && b) ≡ true → a ≡ true
    both a b e = ground (arith, e)

-- The title of an open issue is one of the titles.
pub open-titled :
    (issues : List Issue) (t : Text)
    → is_open_one (newest t none issues) ≡ true
    → contains (titles issues) t ≡ true
unfolding titles
open-titled issues t h = elim (Bool-cases (contains (titles issues) t)) [
  | inl e ↦ e
  | inr e ↦ absurd (
      nowhere (newest t none issues) refl h (
        (All-map (λ u. u ≢ t) (λ (i : Issue). i.title) issues).0
          ((distinct-All (λ u. u ≢ t) [] (map (λ (i : Issue). i.title) issues)).0
            (apart_of_contains t (titles issues) e)).1))
]
  where
    nowhere :
        (o : Option Issue)
        → newest t none issues ≡ o
        → is_open_one o ≡ true
        → All (λ (i : Issue). i.title ≢ t) issues
        → ⊥
    nowhere none e k _ = cc
    nowhere (some i) e k apart =
        newest-All (λ (j : Issue). j.title ≢ t) t i issues e apart (newest-title t i issues e)

pub keep_all-actions :
    (release : Text) (fs : List Finding) (issues : List Issue) (names : List Text)
    → keep_all release fs issues names
      ≡ all_actions (λ n. keep release (of_package n fs) n (newest (title_of n) none issues)) names
unfolding keep_all all_actions
keep_all-actions release fs issues [] = refl
keep_all-actions release fs issues (n ∷ names) =
    ap (λ xs. keep release (of_package n fs) n (newest (title_of n) none issues) ++ xs)
      (keep_all-actions release fs issues names)

pub close_all-actions :
    (release : Text) (issues : List Issue) (ts : List Text)
    → close_all release issues ts ≡ all_actions (λ t. closing release t (newest t none issues)) ts
unfolding close_all all_actions
close_all-actions release issues [] = refl
close_all-actions release issues (t ∷ ts) =
    ap (λ xs. closing release t (newest t none issues) ++ xs) (close_all-actions release issues ts)

-- Where a title is not to be closed, its issue is one that may stay.
pub stays-Justified :
    (names : List Text) (issues : List Issue) (t : Text)
    → is_gone names issues t ≡ false
    → Justified names (newest t none issues) (cut_prefix (lit "osv: ") t)
unfolding is_gone
stays-Justified names issues t h =
    (gone-Justified names (newest t none issues) (cut_prefix (lit "osv: ") t)).0 h
