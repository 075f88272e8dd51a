-- ===== src/Issues.antt =====
-- hack/osvissues/main.go: one issue a package for the findings against a release.
pub mod Findings
pub mod Links
pub mod Sorting
pub mod Settled
pub mod Listing
pub mod Running
pub mod Carried
pub mod Newest
pub mod Github
pub mod Settling
pub mod Apart
pub mod Titled
pub mod Done
use spin_machine.Common.{
  ℕ, suc, Text, lit, ◌<>◌, Bool, true, false, not, ◌&&◌, ◌||◌, leb, List, [], ◌∷◌, ◌++◌, map,
  length, Option, none, some, Result, ok, err, ◌>>=◌, is_empty, has_byte, text_eq, contains, join,
  if◌then◌else◌,
}
use spin_machine.Common.Int.{ℤ, pos, ltb_ℤ, is_zero}
use spin_machine.Common.Numeral.{itoa}
use spin_machine.Common.Split.{split, cut_before}
use spin_machine.Release.Manifest.{scanned, drop_return, max_token, cut_after}
use spin_machine.Issues.Findings.{Finding, name}
use spin_machine.Issues.Links.{listed, cut_prefix}
use spin_machine.Issues.Sorting.{sort}

pub record Issue : Type 0 where
  pub number : ℤ
  pub title : Text
  pub state : Text
  pub body : Text

-- `issue.ids`.
abbrev pub ids : Issue → List Text
ids i = listed i.body

-- `title`.
unfoldable pub title_of : Text → Text
title_of pkg = lit "osv: " <> pkg

-- The texts of a list, each where it is first.
abbrev pub add_new : List Text → Text → List Text
add_new xs x = if contains xs x then xs else xs ++ x ∷ []

unfoldable pub distinct : List Text → List Text → List Text
distinct seen [] = seen
distinct seen (x ∷ xs) = distinct (add_new seen x) xs

-- A line of `body`.
abbrev pub body_line : Finding → Text
body_line f =
    lit "- ["
    <> f.id
    <> lit "](https://osv.dev/vulnerability/"
    <> f.id
    <> lit ")"
    <> (if is_empty f.summary then [] else lit ": " <> f.summary)
    <> lit "\n"

unfoldable pub body_lines : List Finding → Text
body_lines [] = []
body_lines (f ∷ fs) = body_line f <> body_lines fs

-- The head of `body`.
unfoldable pub body_head : Text → List Finding → Text
unfolding distinct
body_head release fs =
    release
    <> lit ", the newest release, has `"
    <> join (lit "`, `") (distinct [] (map (λ (f : Finding). f.pkg) fs))
    <> lit
        "` with what OSV lists below (`task osv`, run daily by osv.yml). A new release built after the distribution ships a fix closes this issue; closing it by hand says the rest does not matter here, and only a finding not listed reopens it."

-- `body`.
unfoldable pub body : Text → List Finding → Text
unfolding body_head body_lines
body release fs = body_head release fs <> lit "\n\n" <> body_lines fs

-- `action`, its verb with what goes with it.
pub data Verb : Type 0 where
  create edit reopen close : Verb

pub record Action : Type 0 where
  pub verb : Verb
  pub number : ℤ
  pub title : Text
  pub body : Text

-- `action.args`.
unfoldable pub args : Action → List Text
args a = elim a.verb [
  | create ↦ lit "issue" ∷ lit "create" ∷ lit "--title" ∷ a.title ∷ lit "--body" ∷ a.body ∷ []
  | edit ↦ lit "issue" ∷ lit "edit" ∷ itoa a.number ∷ lit "--body" ∷ a.body ∷ []
  | reopen ↦ lit "issue" ∷ lit "reopen" ∷ itoa a.number ∷ lit "--comment" ∷ a.body ∷ []
  | close ↦
      lit "issue"
      ∷ lit "close"
      ∷ itoa a.number
      ∷ lit "--reason"
      ∷ lit "completed"
      ∷ lit "--comment"
      ∷ a.body
      ∷ []
]

-- `byPkg[name]`.
unfoldable pub of_package : Text → List Finding → List Finding
of_package n [] = []
of_package n (f ∷ fs) = let rest = of_package n fs in if text_eq (name f) n then f ∷ rest else rest

-- The names of `byPkg`, in the order of the findings.
unfoldable pub packages : List Finding → List Text
unfolding distinct
packages fs = distinct [] (map name fs)

-- `byTitle[t]`, over what it has so far: the newest issue of a title.
abbrev pub newer : Option Issue → Issue → Option Issue
newer none i = some i
newer (some have) i = if ltb_ℤ have.number i.number then some i else some have

unfoldable pub newest : Text → Option Issue → List Issue → Option Issue
newest t have [] = have
newest t have (i ∷ issues) = newest t (if text_eq i.title t then newer have i else have) issues

-- The findings that an issue does not list.
unfoldable pub unlisted : List Text → List Finding → List Text
unlisted known [] = []
unlisted known (f ∷ fs) =
    let rest = unlisted known fs in if contains known f.id then rest else f.id ∷ rest

abbrev pub is_open : Issue → Bool
is_open i = text_eq i.state (lit "OPEN")

-- A closed issue is opened again for what it does not list.
abbrev pub reopening : Text → Issue → Text → List Text → List Action
reopening release i want [] = []
reopening release i want (x ∷ xs) =
    record {
      verb = reopen;
      number = i.number;
      title = i.title;
      body =
          release
          <> lit " has findings this issue did not list: "
          <> join (lit ", ") (x ∷ xs)
          <> lit ".";
    }
    ∷ record { verb = edit; number = i.number; title = i.title; body = want }
    ∷ []

-- What is done for a package, by its issue.
abbrev pub keep : Text → List Finding → Text → Option Issue → List Action
keep release fs n none =
    record { verb = create; number = pos 0; title = title_of n; body = body release fs } ∷ []
keep release fs n (some i) =
    if is_open i
    then (if text_eq i.body (body release fs)
        then []
        else record { verb = edit; number = i.number; title = i.title; body = body release fs }
          ∷ [])
    else reopening release i (body release fs) (unlisted (ids i) fs)

unfoldable pub keep_all : Text → List Finding → List Issue → List Text → List Action
unfolding of_package newest
keep_all release fs issues [] = []
keep_all release fs issues (n ∷ names) =
    keep release (of_package n fs) n (newest (title_of n) none issues)
    ++ keep_all release fs issues names

-- Whether a title is that of a package without a finding, by what follows the prefix.
abbrev pub is_gone_name : List Text → Option Text → Bool
is_gone_name names none = false
is_gone_name names (some n) = not (has_byte b' ' n) && not (contains names n)

abbrev pub is_open_one : Option Issue → Bool
is_open_one none = false
is_open_one (some i) = is_open i

unfoldable pub is_gone : List Text → List Issue → Text → Bool
unfolding newest
is_gone names issues t =
    is_open_one (newest t none issues) && is_gone_name names (cut_prefix (lit "osv: ") t)

unfoldable pub gone : List Text → List Issue → List Text → List Text
unfolding is_gone
gone names issues [] = []
gone names issues (t ∷ ts) =
    let rest = gone names issues ts in if is_gone names issues t then t ∷ rest else rest

-- What is done for such a title.
abbrev pub closing : Text → Text → Option Issue → List Action
closing release t none = []
closing release t (some i) =
    record {
      verb = close;
      number = i.number;
      title = t;
      body = release <> lit " has no finding in this package.";
    }
    ∷ []

unfoldable pub close_all : Text → List Issue → List Text → List Action
unfolding newest
close_all release issues [] = []
close_all release issues (t ∷ ts) =
    closing release t (newest t none issues) ++ close_all release issues ts

-- The titles of `byTitle`.
unfoldable pub titles : List Issue → List Text
unfolding distinct
titles issues = distinct [] (map (λ (i : Issue). i.title) issues)

-- `plan`.
unfoldable pub plan : Text → List Finding → List Issue → List Action
unfolding packages keep_all titles gone close_all
plan release fs issues =
    keep_all release fs issues (sort (packages fs))
    ++ close_all release issues (sort (gone (packages fs) issues (titles issues)))
