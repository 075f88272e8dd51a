-- ===== src/Pinned/Versions.antt =====
-- `version`, `parse` and `q35` of hack/machinetype/main.go: the names of versioned machine types.
use mathlib.Core.List.{foldl}
use spin_machine.Common.{
  ℕ, ◌+◌, ◌-◌, ◌*◌, ◌^◌, Text, lit, Bool, true, false, ◌&&◌, ◌||◌, ◌==◌, ltb, leb, [], ◌∷◌, Option,
  none, some, is_empty, if◌then◌else◌,
}
use spin_machine.Issues.Links.{cut_prefix}

-- `version`.
pub record Version : Type 0 where
  pub major : ℕ
  pub minor : ℕ

-- `newer`.
unfoldable pub newer : Version → Version → Bool
newer v than = ltb than.major v.major || v.major == than.major && ltb than.minor v.minor

-- Go's `==` on versions.
unfoldable pub version_eq : Version → Version → Bool
version_eq v w = v.major == w.major && v.minor == w.minor

abbrev is_digit : ℕ → Bool
is_digit c = leb b'0' c && leb c b'9'

-- `\s` of RE2.
abbrev pub is_white : ℕ → Bool
is_white c = c == b' ' || c == b'\t' || c == b'\n' || c == 12 || c == b'\r'

-- `\d+`, as far as it goes, and what follows.
unfoldable pub digits : Text → Text
digits [] = []
digits (c ∷ s) = let rest = digits s in if is_digit c then c ∷ rest else []

unfoldable pub past_digits : Text → Text
past_digits [] = []
past_digits (c ∷ s) = let rest = past_digits s in if is_digit c then rest else c ∷ s

-- `strconv.Atoi` of digits, which gives the largest `int` for a number beyond it.
unfoldable pub atoi : Text → ℕ
atoi s = let n = foldl (λ n c. n * 10 + (c - b'0')) 0 s in if ltb n (2 ^ 63) then n else 2 ^ 63 - 1

-- `(\d+)\.(\d+)` at the front: the version, and what follows it.
abbrev minor_of : Text → Option Text → Option (Version × Text)
minor_of x none = none
minor_of x (some s) =
    if is_empty x || is_empty (digits s)
    then none
    else some (record { major = atoi x; minor = atoi (digits s) }, past_digits s)

abbrev version_at : Option Text → Option (Version × Text)
version_at none = none
version_at (some s) = minor_of (digits s) (cut_prefix (lit ".") (past_digits s))

-- `^pc-q35-(\d+)\.(\d+)`.
unfoldable pub versioned : Text → Option (Version × Text)
unfolding cut_prefix digits past_digits atoi
versioned name = version_at (cut_prefix (lit "pc-q35-") name)

abbrev whole : Option (Version × Text) → Option Version
whole none = none
whole (some (v, rest)) = if is_empty rest then some v else none

-- `parse`.
unfoldable pub parse : Text → Option Version
unfolding versioned
parse name = whole (versioned name)

unfoldable pub all_white : Text → Bool
all_white [] = true
all_white (c ∷ s) = is_white c && all_white s

-- Whether `(deprecated)` and white space are all of a text.
abbrev ends_deprecated : Option Text → Bool
ends_deprecated none = false
ends_deprecated (some s) = all_white s

-- `.*?(\(deprecated\))?\s*$`: whether the group is there, at the first place where the rest matches.
unfoldable pub deprecated_from : Text → Option Bool
unfolding cut_prefix all_white
deprecated_from [] = some false
deprecated_from (c ∷ s) =
    let rest = deprecated_from s in
    if ends_deprecated (cut_prefix (lit "(deprecated)") (c ∷ s))
    then some true
    else if all_white (c ∷ s)
    then some false
    else if c == b'\n'
    then none
    else rest

-- A versioned q35 that a QEMU offers, and whether it is deprecated.
pub record Offer : Type 0 where
  pub version : Version
  pub deprecated : Bool

abbrev offer : Version → Option Bool → Option Offer
offer v none = none
offer v (some d) = some (record { version = v; deprecated = d })

abbrev offered_at : Option (Version × Text) → Option Offer
offered_at none = none
offered_at (some (v, [])) = none
offered_at (some (v, c ∷ s)) = if is_white c then offer v (deprecated_from s) else none

-- `q35.FindStringSubmatch`.
unfoldable pub offered : Text → Option Offer
unfolding versioned deprecated_from
offered line = offered_at (versioned line)
