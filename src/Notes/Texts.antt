-- ===== src/Notes/Texts.antt =====
-- The functions of `strings` and `path` that hack/releasenotes/main.go uses.
use mathlib.Core.List.{reverse}
use spin_machine.Common.{
  ℕ, Text, lit, Bool, true, false, ◌==◌, List, [], ◌∷◌, ◌++◌, Option, none, some, is_empty,
  if◌then◌else◌,
}
use spin_machine.Issues.Links.{cut_prefix}

-- `strings.Lines`, where `cur` of the first line has been read: each line with its line feed.
unfoldable pub lines_from : Text → Text → List Text
lines_from cur [] = if is_empty cur then [] else cur ∷ []
lines_from cur (c ∷ s) =
    let ended = lines_from [] s in
    let on = lines_from (cur ++ c ∷ []) s in if c == b'\n' then (cur ++ c ∷ []) ∷ ended else on

unfoldable pub lines : Text → List Text
unfolding lines_from
lines s = lines_from [] s

abbrev is_some_text : Option Text → Bool
is_some_text none = false
is_some_text (some _) = true

-- `strings.HasPrefix(s, p)`.
unfoldable pub has_prefix : Text → Text → Bool
unfolding cut_prefix
has_prefix p s = is_some_text (cut_prefix p s)

abbrev reversed : Option Text → Option Text
reversed none = none
reversed (some s) = some (reverse s)

-- `strings.CutSuffix(s, p)`.
unfoldable pub cut_suffix : Text → Text → Option Text
unfolding cut_prefix
cut_suffix p s = reversed (cut_prefix (reverse p) (reverse s))

-- `strings.HasSuffix(s, p)`.
unfoldable pub has_suffix : Text → Text → Bool
unfolding has_prefix
has_suffix p s = has_prefix (reverse p) (reverse s)

-- `strings.TrimPrefix(s, p)`.
abbrev or_whole : Text → Option Text → Text
or_whole s none = s
or_whole s (some t) = t

unfoldable pub trim_prefix : Text → Text → Text
unfolding cut_prefix
trim_prefix p s = or_whole s (cut_prefix p s)

-- The front of a text without some byte.
unfoldable pub past_byte : ℕ → Text → Text
past_byte b [] = []
past_byte b (c ∷ s) = let rest = past_byte b s in if c == b then rest else c ∷ s

-- `strings.TrimRight(s, b)` for one byte.
unfoldable pub trim_right : ℕ → Text → Text
unfolding past_byte
trim_right b s = reverse (past_byte b (reverse s))

-- What follows the last slash.
unfoldable pub base_from : Text → Text → Text
base_from cur [] = cur
base_from cur (c ∷ s) =
    let inside = base_from (cur ++ c ∷ []) s in
    let next = base_from [] s in if c == b'/' then next else inside

-- `path.Base`.
unfoldable pub base : Text → Text
unfolding trim_right base_from
base [] = lit "."
base (c ∷ s) =
    let name = base_from [] (trim_right b'/' (c ∷ s)) in if is_empty name then lit "/" else name
