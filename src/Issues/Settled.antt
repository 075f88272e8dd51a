-- ===== src/Issues/Settled.antt =====
-- When there is nothing to do about the issues (`plan` of hack/osvissues/main.go).
use mathlib.Core.Path.{subst}
use spin_machine.Common.{
  map, Text, lit, ◌≡◌, refl, ◌↔◌, ◌⊎◌, inl, inr, Bool, true, false, ◌&&◌, Bool-cases, List, [], ◌∷◌,
  ◌++◌, Option, none, some, has_byte, text_eq, text_eq_iff, contains, if◌then◌else◌, All, All-map,
  All-append, is_none, arith,
}
use spin_machine.Issues.Findings.{Finding, name}
use spin_machine.Issues.{
  Issue, ids, body, title_of, of_package, packages, newest, unlisted, is_open, reopening, edit,
  keep, keep_all, is_gone, is_gone_name, is_open_one, distinct, add_new, gone, closing, close_all,
  titles, plan,
}
use spin_machine.Issues.Links.{cut_prefix}
use spin_machine.Issues.Sorting.{sort, sort-All}

-- A package that needs nothing: its issue is open and says what it should, or is not open and lists
-- every finding.
abbrev pub Kept : Text → List Finding → Option Issue → Type 0
Kept release fs none = ⊥
Kept release fs (some i) =
    ((is_open i ≡ true) × (i.body ≡ body release fs))
    ⊎ ((is_open i ≡ false) × All (λ (f : Finding). contains (ids i) f.id ≡ true) fs)

append-nothing : {A : Type 0} (xs ys : List A) → (xs ++ ys ≡ []) ↔ ((xs ≡ []) × (ys ≡ []))
append-nothing [] ys = ((λ h. (refl, h)), (λ (_, h). h))
append-nothing (x ∷ xs) ys = ((λ h. cc), (λ (h, _). cc))

pub unlisted-nothing :
    (known : List Text) (fs : List Finding)
    → (unlisted known fs ≡ []) ↔ All (λ (f : Finding). contains known f.id ≡ true) fs
unfolding unlisted
unlisted-nothing known [] = ((λ _. tt), (λ _. refl))
unlisted-nothing known (f ∷ fs) =
    let (to, from) = unlisted-nothing known fs in
    elim (Bool-cases (contains known f.id)) [
      | inl e ↦ rw e ((λ h. (refl, to h)), (λ (_, h). from h))
      | inr e ↦ rw e ((λ h. cc), (λ (h, _). cc))
    ]

reopening-nothing :
    (release want : Text) (i : Issue) (xs : List Text)
    → (reopening release i want xs ≡ []) ↔ (xs ≡ [])
reopening-nothing release want i [] = ((λ _. refl), (λ _. refl))
reopening-nothing release want i (x ∷ xs) = ((λ h. cc), (λ h. cc))

choose-nothing :
    {A : Type 0} (opened same : Bool) (a : A) (rest : List A)
    → ((if opened then (if same then [] else a ∷ []) else rest) ≡ [])
      ↔ (((opened ≡ true) × (same ≡ true)) ⊎ ((opened ≡ false) × (rest ≡ [])))
choose-nothing true true a rest = ((λ _. inl (refl, refl)), (λ _. refl))
choose-nothing true false a rest = ((λ h. cc), (λ h. choose h))
  where
    choose : {X : Type 0} → ((true ≡ true) × (false ≡ true)) ⊎ ((true ≡ false) × (rest ≡ [])) → X
    choose (inl (_, h)) = cc
    choose (inr (h, _)) = cc
choose-nothing false same a rest = ((λ h. inr (refl, h)), (λ h. rested h))
  where
    rested : ((false ≡ true) × (same ≡ true)) ⊎ ((false ≡ false) × (rest ≡ [])) → rest ≡ []
    rested (inl (h, _)) = cc
    rested (inr (_, h)) = h

pub keep-nothing :
    (release : Text) (fs : List Finding) (n : Text) (i : Option Issue)
    → (keep release fs n i ≡ []) ↔ Kept release fs i
keep-nothing release fs n none = ((λ h. cc), (λ h. elim h [ ]))
keep-nothing release fs n (some i) =
    let want = body release fs in
    let (to, from) =
      choose-nothing (is_open i) (text_eq i.body want)
        (record { verb = edit; number = i.number; title = i.title; body = want })
        (reopening release i want (unlisted (ids i) fs)) in
    let (said, same) = text_eq_iff i.body want in
    let (empty, rest) = reopening-nothing release want i (unlisted (ids i) fs) in
    let (all, few) = unlisted-nothing (ids i) fs in
    (
      (λ h. elim (to h) [ inl (o, s) ↦ inl (o, said s) | inr (o, r) ↦ inr (o, all (empty r)) ]),
      (λ h. from (elim h [ inl (o, s) ↦ inl (o, same s) | inr (o, r) ↦ inr (o, rest (few r)) ])),
    )

keep_all-nothing :
    (release : Text) (fs : List Finding) (issues : List Issue) (names : List Text)
    → (keep_all release fs issues names ≡ [])
      ↔ All (λ n. Kept release (of_package n fs) (newest (title_of n) none issues)) names
unfolding keep_all
keep_all-nothing release fs issues [] = ((λ _. tt), (λ _. refl))
keep_all-nothing release fs issues (n ∷ names) =
    let (to, from) = keep_all-nothing release fs issues names in
    let (one, kept) = keep-nothing release (of_package n fs) n (newest (title_of n) none issues) in
    let (split, both) =
      append-nothing (keep release (of_package n fs) n (newest (title_of n) none issues))
        (keep_all release fs issues names) in
    ((λ h. let (a, b) = split h in (one a, to b)), (λ (k, h). both (kept k, from h)))

-- An open issue of a package, which has a finding.
abbrev pub Justified : List Text → Option Issue → Option Text → Type 0
Justified names none n = Unit
Justified names (some i) none = Unit
Justified names (some i) (some n) =
    is_open i ≡ true → has_byte b' ' n ≡ false → contains names n ≡ true

pub gone-Justified :
    (names : List Text) (i : Option Issue) (n : Option Text)
    → ((is_open_one i && is_gone_name names n) ≡ false) ↔ Justified names i n
gone-Justified names none n = ((λ _. tt), (λ _. refl))
gone-Justified names (some i) none = ground arith
gone-Justified names (some i) (some n) = ground arith

closing-nothing :
    (release t : Text) (i : Option Issue) → (closing release t i ≡ []) ↔ (is_none i ≡ true)
closing-nothing release t none = ((λ _. refl), (λ _. refl))
closing-nothing release t (some i) = ((λ h. cc), (λ h. cc))

close_all-nothing :
    (release : Text) (issues : List Issue) (ts : List Text)
    → (close_all release issues ts ≡ []) ↔ All (λ t. is_none (newest t none issues) ≡ true) ts
unfolding close_all
close_all-nothing release issues [] = ((λ _. tt), (λ _. refl))
close_all-nothing release issues (t ∷ ts) =
    let (to, from) = close_all-nothing release issues ts in
    let (one, none') = closing-nothing release t (newest t none issues) in
    let (split, both) =
      append-nothing (closing release t (newest t none issues)) (close_all release issues ts) in
    ((λ h. let (a, b) = split h in (one a, to b)), (λ (k, h). both (none' k, from h)))

gone-open : (i : Option Issue) (b : Bool) → (is_open_one i && b) ≡ true → is_none i ≡ false
gone-open none b h = cc
gone-open (some i) b h = refl

has_one :
    (names : List Text) (issues : List Issue) (t : Text)
    → is_gone names issues t ≡ true
    → is_none (newest t none issues) ≡ false
unfolding is_gone
has_one names issues t h =
    gone-open (newest t none issues) (is_gone_name names (cut_prefix (lit "osv: ") t)) h

gone-nothing :
    (names : List Text) (issues : List Issue) (ts : List Text)
    → All (λ t. is_none (newest t none issues) ≡ true) (gone names issues ts)
      ↔ All (λ t. is_gone names issues t ≡ false) ts
unfolding gone
gone-nothing names issues [] = ((λ _. tt), (λ _. tt))
gone-nothing names issues (t ∷ ts) =
    let (to, from) = gone-nothing names issues ts in
    elim (Bool-cases (is_gone names issues t)) [
      | inl e ↦ rw e ((λ (h, _). let f = has_one names issues t e in cc), (λ (h, _). cc))
      | inr e ↦ rw e ((λ h. (refl, to h)), (λ (_, h). from h))
    ]

pub contains-All :
    (P : Text → Type 0) (seen : List Text) (x : Text) → contains seen x ≡ true → All P seen → P x
unfolding contains
contains-All P [] x e h = cc
contains-All P (y ∷ seen) x e (p, h) = elim (Bool-cases (text_eq y x)) [
  | inl q ↦ subst P ((text_eq_iff y x).0 q) p
  | inr q ↦ contains-All P seen x (ground arith) h
]

pub All-first : (P : Text → Type 0) (xs ys : List Text) → All P (xs ++ ys) → All P xs × All P ys
All-first P [] ys h = (tt, h)
All-first P (x ∷ xs) ys (p, h) = let (a, b) = All-first P xs ys h in ((p, a), b)

add_new-All :
    (P : Text → Type 0) (seen : List Text) (x : Text) → All P (add_new seen x) ↔ (All P seen × P x)
add_new-All P seen x = elim (Bool-cases (contains seen x)) [
  | inl e ↦ rw e ((λ h. (h, contains-All P seen x e h)), (λ (h, _). h))
  | inr e ↦ rw e (
    (λ h. let (a, (p, _)) = All-first P seen (x ∷ []) h in (a, p)),
    (λ (h, p). All-append P seen (x ∷ []) h (p, tt)),
  )
]

pub distinct-All :
    (P : Text → Type 0) (seen xs : List Text) → All P (distinct seen xs) ↔ (All P seen × All P xs)
unfolding distinct
distinct-All P seen [] = ((λ h. (h, tt)), (λ (h, _). h))
distinct-All P seen (x ∷ xs) =
    let (to, from) = distinct-All P (add_new seen x) xs in
    let (old, new) = add_new-All P seen x in
    (
      (λ h. let (a, b) = to h in let (s, p) = old a in (s, (p, b))),
      (λ (s, h). let (p, b) = h in from (new (s, p), b)),
    )

justified :
    (names : List Text) (issues : List Issue) (ts : List Text)
    → All (λ t. is_gone names issues t ≡ false) ts
      ↔ All (λ t. Justified names (newest t none issues) (cut_prefix (lit "osv: ") t)) ts
unfolding is_gone
justified names issues [] = ((λ _. tt), (λ _. tt))
justified names issues (t ∷ ts) =
    let (to, from) = justified names issues ts in
    let (one, gone') = gone-Justified names (newest t none issues) (cut_prefix (lit "osv: ") t) in
    ((λ (h, hs). (one h, to hs)), (λ (h, hs). (gone' h, from hs)))

pub plan_nothing :
    (release : Text) (fs : List Finding) (issues : List Issue)
    → (plan release fs issues ≡ []) ↔ (
        All
          (λ (f : Finding).
            Kept release (of_package (name f) fs) (newest (title_of (name f)) none issues))
          fs
        × All
            (λ (i : Issue).
              Justified
                (packages fs)
                (newest i.title none issues)
                (cut_prefix (lit "osv: ") i.title))
            issues)
unfolding plan packages titles
plan_nothing release fs issues =
    let P : Text → Type 0 = λ n. Kept release (of_package n fs) (newest (title_of n) none issues) in
    let G : Text → Type 0 =
      λ t. Justified (packages fs) (newest t none issues) (cut_prefix (lit "osv: ") t) in
    let N : Text → Type 0 = λ t. is_none (newest t none issues) ≡ true in
    let (split, both) =
      append-nothing (keep_all release fs issues (sort (packages fs)))
        (close_all release issues (sort (gone (packages fs) issues (titles issues)))) in
    let (k, k') = keep_all-nothing release fs issues (sort (packages fs)) in
    let (s, s') = sort-All P (packages fs) in
    let (d, d') = distinct-All P [] (map name fs) in
    let (m, m') = All-map P name fs in
    let (c, c') =
      close_all-nothing release issues (sort (gone (packages fs) issues (titles issues))) in
    let (t, t') = sort-All N (gone (packages fs) issues (titles issues)) in
    let (g, g') = gone-nothing (packages fs) issues (titles issues) in
    let (e, e') = distinct-All G [] (map (λ (i : Issue). i.title) issues) in
    let (j, j') = justified (packages fs) issues (titles issues) in
    let (n, n') = All-map G (λ (i : Issue). i.title) issues in
    (
      (λ h. let (a, b) = split h in (m ((d (s (k a))).1), n ((e (j (g (t (c b))))).1))),
      (λ (a, b). both (k' (s' (d' (tt, m' a))), c' (t' (g' (j' (e' (tt, n' b))))))),
    )
