-- ===== src/Common/Split.antt =====
-- `strings.Split`, `strings.Cut` and `strings.ReplaceAll` for a one-byte separator.
use Prim.Native.Nat.{ℕ}
use mathlib.Core.Bool.{true, false}
use mathlib.Core.List.{List, [], ◌∷◌, ◌++◌, append_assoc, append-nil}
use mathlib.Core.Path.{◌≡◌, ◌∙◌, refl}
use spin_machine.Common.Tests.{◌==◌, if◌then◌else◌, ne→==-false, ==_iff}
use spin_machine.Common.Bytes.{Text, Lacks}

module _ (sep : ℕ) where
  pieces : Text → Text → List Text
  pieces [] cur = cur ∷ []
  pieces (c ∷ s) cur = elim (c == sep) [
    | true ↦ cur ∷ pieces s []
    | false ↦ pieces s (cur ++ c ∷ [])
  ]

-- `strings.Split(s, sep)`: every piece between separators, at least one.
unfoldable pub split : Text → ℕ → List Text
unfolding pieces
split s sep = pieces sep s []

-- `before, _, _ := strings.Cut(s, sep)`: all of `s` where it holds no separator.
unfoldable pub cut_before : Text → ℕ → Text
cut_before [] sep = []
cut_before (c ∷ s) sep = let rest = cut_before s sep in if c == sep then [] else c ∷ rest

-- `strings.ReplaceAll(s, b, new)` for a one-byte `b`.
unfoldable pub replace_all : Text → ℕ → Text → Text
replace_all [] b new = []
replace_all (c ∷ s) b new =
    let rest = replace_all s b new in if c == b then new ++ rest else c ∷ rest

-- The pieces of `s`, where `cur` of the first one has been read.
unfoldable pub split_from : ℕ → Text → Text → List Text
unfolding pieces
split_from sep cur s = pieces sep s cur

-- Text without the separator stays in its piece.
pub split_from-Lacks :
    (sep : ℕ) (cur t rest : Text)
    → Lacks sep t
    → split_from sep cur (t ++ rest) ≡ split_from sep (cur ++ t) rest
unfolding split_from
split_from-Lacks sep cur [] rest h = rw append-nil
split_from-Lacks sep cur (c ∷ t) rest (h, hs) =
    rw (ne→==-false c sep h, pieces)
      (split_from-Lacks sep (cur ++ c ∷ []) t rest hs ∙ rw append_assoc)

pub split_from_last :
    (sep : ℕ) (cur t : Text) → Lacks sep t → split_from sep cur t ≡ (cur ++ t) ∷ []
unfolding split_from
split_from_last sep cur [] h = rw append-nil
split_from_last sep cur (c ∷ t) (h, hs) =
    rw (ne→==-false c sep h, pieces) (split_from_last sep (cur ++ c ∷ []) t hs ∙ rw append_assoc)

-- A separator ends its piece.
pub split_from-step :
    (sep : ℕ) (cur s : Text) → split_from sep cur (sep ∷ s) ≡ cur ∷ split_from sep [] s
unfolding split_from
split_from-step sep cur s = rw ((==_iff sep sep).1 refl, pieces)
