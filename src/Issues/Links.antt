-- ===== src/Issues/Links.antt =====
-- The links to findings in the body of an issue (hack/osvissues/main.go), as its regular expression
-- finds them.
use spin_machine.Common.{
  ℕ, zero, suc, Text, lit, Bool, true, false, not, ◌||◌, ◌==◌, List, [], ◌∷◌, ◌++◌, Option, none,
  some, if◌then◌else◌,
}

-- `strings.CutPrefix(s, p)`.
unfoldable pub cut_prefix : Text → Text → Option Text
cut_prefix [] s = some s
cut_prefix (p ∷ ps) [] = none
cut_prefix (p ∷ ps) (c ∷ s) = let rest = cut_prefix ps s in if p == c then rest else none

-- `[)\s]`: a parenthesis or a white space of RE2.
abbrev pub stops : ℕ → Bool
stops c = c == b')' || c == b' ' || c == b'\t' || c == b'\n' || c == 12 || c == b'\r'

-- What the pattern is before the group.
unfoldable pub link : Text
link = lit "osv.dev/vulnerability/"

abbrev pub starts_group : Option Text → Bool
starts_group none = false
starts_group (some []) = false
starts_group (some (c ∷ _)) = not (stops c)

-- Where a search is: before a match, in the text before its group with so many bytes to pass over,
-- or in the group.
pub data Search : Type 0 where
  seeking : Search
  passing : ℕ → Search
  taking : Text → Search

abbrev pub taken : Bool → Text → List Text
taken true t = t ∷ []
taken false t = []

-- Where a search is after a byte outside a match, and after one in a group.
abbrev pub begin : Bool → Search
begin true = passing 21
begin false = seeking

abbrev pub resume : Bool → Text → ℕ → Search
resume true t c = seeking
resume false t c = taking (t ++ c ∷ [])

unfoldable pub search_from : Search → Text → List Text
unfolding cut_prefix link
search_from seeking [] = []
search_from (passing n) [] = []
search_from (taking t) [] = t ∷ []
search_from seeking (c ∷ s) = search_from (begin (starts_group (cut_prefix link (c ∷ s)))) s
search_from (passing zero) (c ∷ s) = search_from (taking (c ∷ [])) s
search_from (passing (suc n)) (c ∷ s) = search_from (passing n) s
search_from (taking t) (c ∷ s) = taken (stops c) t ++ search_from (resume (stops c) t c) s

-- `listed.FindAllStringSubmatch`: the groups of the matches, from the left.
unfoldable pub listed : Text → List Text
unfolding search_from
listed s = search_from seeking s
