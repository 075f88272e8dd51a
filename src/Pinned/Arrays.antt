-- ===== src/Pinned/Arrays.antt =====
-- `array` and `Compat` of hack/machinetype/main.go: the compatibility arrays of QEMU's source.
use mathlib.Core.List.{reverse}
use spin_machine.Common.{
  Text, lit, ◌<>◌, Bool, true, false, ◌==◌, [], ◌∷◌, ◌++◌, Option, none, some, Result, ok, err,
  ◌>>=◌, if◌then◌else◌,
}
use spin_machine.Common.Numeral.{decimal}
use spin_machine.Issues.Links.{cut_prefix}
use spin_machine.Pinned.Versions.{Version, is_white, parse}

pub data CompatError : Type 0 where
  not_versioned : Text → CompatError
  no_array : Text → CompatError
  no_end : Text → CompatError

unfoldable pub past_white : Text → Text
past_white [] = []
past_white (c ∷ s) = let rest = past_white s in if is_white c then rest else c ∷ s

-- `\s+` after a text, and what follows it.
abbrev white_then : Option Text → Option Text
white_then none = none
white_then (some []) = none
white_then (some (c ∷ s)) = if is_white c then some (past_white s) else none

abbrev cut_then : Text → Option Text → Option Text
cut_then p none = none
cut_then p (some s) = cut_prefix p s

abbrev skip_white : Option Text → Option Text
skip_white none = none
skip_white (some s) = some (past_white s)

-- What follows `GlobalProperty\s+<name>\[\]\s*=\s*\{` at the front.
unfoldable pub declared : Text → Text → Option Text
unfolding cut_prefix past_white
declared name s = cut_then (lit "{") (
    skip_white (
      cut_then (lit "=") (
        skip_white
          (cut_then (name ++ lit "[]") (white_then (cut_prefix (lit "GlobalProperty") s))))))

abbrev is_declared : Option Text → Bool
is_declared none = false
is_declared (some _) = true

-- The source from the first such place on.
unfoldable pub from_start : Text → Text → Option Text
unfolding declared
from_start name [] = none
from_start name (c ∷ s) =
    let rest = from_start name s in
    if is_declared (declared name (c ∷ s)) then some (c ∷ s) else rest

-- The text up to the first `};`, which it ends with.
abbrev ahead : Text → Option Text → Option Text
ahead p none = none
ahead p (some s) = some (p ++ s)

unfoldable pub up_to_end : Text → Option Text
unfolding cut_prefix
up_to_end [] = none
up_to_end (c ∷ s) =
    let rest = up_to_end s in
    if is_declared (cut_prefix (lit "};") (c ∷ s)) then some (lit "};") else ahead (c ∷ []) rest

abbrev ended : Text → Option Text → Result CompatError Text
ended name none = err (no_end name)
ended name (some s) = ok s

abbrev array_at : Text → Option Text → Result CompatError Text
array_at name none = err (no_array name)
array_at name (some s) = ended name (up_to_end s)

-- `array`.
unfoldable pub array : Text → Text → Result CompatError Text
unfolding from_start up_to_end
array src name = array_at name (from_start name src)

-- The names of the two arrays of a version.
unfoldable pub array_name : Text → Version → Text
array_name prefix v = prefix <> lit "_compat_" <> decimal v.major <> lit "_" <> decimal v.minor

unfoldable pub past_feeds : Text → Text
past_feeds [] = []
past_feeds (c ∷ s) = let rest = past_feeds s in if c == b'\n' then rest else c ∷ s

-- `strings.TrimRight(s, "\n")`.
unfoldable pub trim_feeds : Text → Text
unfolding past_feeds
trim_feeds s = reverse (past_feeds (reverse s))

abbrev compat_of : Text → Text → Option Version → Result CompatError Text
compat_of src pinned none = err (not_versioned pinned)
compat_of src pinned (some v) = do
  hw ← array src (array_name (lit "hw") v)
  pc ← array src (array_name (lit "pc") v)
  ok (trim_feeds (hw ++ (lit "\n" ++ (pc ++ lit "\n"))))

-- `Compat`.
unfoldable pub compat : Text → Text → Result CompatError Text
unfolding array array_name trim_feeds parse
compat src pinned = compat_of src pinned (parse pinned)
