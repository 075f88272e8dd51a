-- ===== src/Report/Rows.antt =====
-- The rows of two reports (boot/report.go): which row each is compared with, and what is said of it.
use spin_machine.Common.{
  Text, lit, ◌<>◌, Bool, true, false, not, ◌&&◌, bool_eq, List, [], ◌∷◌, ◌++◌, Option, none, some,
  text_eq, contains, join, if◌then◌else◌,
}
use spin_machine.Common.Int.{pos, ltb_ℤ, eq_ℤ}
use spin_machine.Report.{Entries, Summary, Row}
use spin_machine.Report.Numbers.{Floats}
use spin_machine.Report.Renames.{value_at, renames}

-- `→`, as UTF-8 writes it.
abbrev pub arrow : Text
arrow = b' ' ∷ 0xe2 ∷ 0x86 ∷ 0x92 ∷ b' ' ∷ []

-- `slices.Equal`.
unfoldable pub texts_eq : List Text → List Text → Bool
texts_eq [] [] = true
texts_eq [] (_ ∷ _) = false
texts_eq (_ ∷ _) [] = false
texts_eq (a ∷ s) (b ∷ t) = text_eq a b && texts_eq s t

-- What a row of the new report is to the old one.
pub data Standing (N : Type 0) : Type 0 where
  fresh : Standing N
  stayed : Row N → Standing N
  moved : Row N → Standing N

module _ {N : Type 0} where
  -- `outcome`.
  unfoldable pub outcome : Row N → Text
  outcome r =
      if ltb_ℤ (pos 0) r.boot.boots && eq_ℤ r.boot.failed r.boot.boots
      then lit "none"
      else lit "some"

  -- `before`: the last of the rows with an id.
  unfoldable pub row_of : Text → List (Row N) → Option (Row N)
  row_of id [] = none
  row_of id (r ∷ rs) =
      let first = if text_eq r.id id then some r else none in
      elim (row_of id rs) [ some o ↦ some o | none ↦ first ]

  abbrev pub standing_of : Option (Row N) → Option (Row N) → Standing N
  standing_of (some o) renamed = stayed o
  standing_of none (some o) = moved o
  standing_of none none = fresh

  unfoldable pub standing : List (Row N) → Entries (Row N) → Row N → Standing N
  unfolding row_of value_at
  standing old renamed r = standing_of (row_of r.id old) (value_at r.id renamed)

  -- The ids that a row of the new report marks as seen.
  abbrev pub sees : Text → Standing N → List Text
  sees id fresh = id ∷ []
  sees id (stayed o) = id ∷ []
  sees id (moved o) = id ∷ o.id ∷ []

  unfoldable pub seen : List (Row N) → Entries (Row N) → List (Row N) → List Text
  unfolding standing
  seen old renamed [] = []
  seen old renamed (r ∷ rs) = sees r.id (standing old renamed r) ++ seen old renamed rs

module _ (F : Floats) where
  abbrev pub usable_of : Option (Summary F.Num) → Text
  usable_of none = lit "-"
  usable_of (some s) = F.fixed 1 s.p50 <> lit " / " <> F.fixed 1 s.p95

  -- `usable`.
  unfoldable pub usable : Row F.Num → Text
  unfolding value_at
  usable r = usable_of (value_at (lit "usable") r.boot.phases)

  -- Whether, and how, a median moved by more than the threshold.
  abbrev pub median_change : F.Num → Option (Summary F.Num) → Option (Summary F.Num) → List Text
  median_change threshold none b = []
  median_change threshold (some a) none = []
  median_change threshold (some a) (some b) =
      if F.lt (F.of_int (pos 0)) a.p50 && F.lt threshold (F.div (F.abs (F.sub b.p50 a.p50)) a.p50)
      then (lit "usable p50 "
          <> F.signed 1 (F.div (F.mul (F.of_int (pos 100)) (F.sub b.p50 a.p50)) a.p50)
          <> lit "%")
        ∷ []
      else []

  -- What changed between two rows that stand for each other.
  unfoldable pub changes : F.Num → Row F.Num → Row F.Num → List Text
  unfolding texts_eq outcome value_at
  changes threshold o r =
      (if text_eq o.fingerprint r.fingerprint then [] else lit "fingerprint" ∷ [])
      ++ ((if texts_eq o.args r.args then [] else lit "command line" ∷ [])
          ++ ((if bool_eq (eq_ℤ o.boot.failed o.boot.boots) (eq_ℤ r.boot.failed r.boot.boots)
                then []
                else (lit "boots: " <> outcome o <> arrow <> outcome r) ∷ [])
              ++ median_change threshold (value_at (lit "usable") o.boot.phases)
                  (value_at (lit "usable") r.boot.phases)))

  abbrev pub changed_line : Row F.Num → Row F.Num → List Text → List Text
  changed_line o r [] = []
  changed_line o r (w ∷ ws) =
      (lit "| "
        <> r.id
        <> lit " | "
        <> join (lit ", ") (w ∷ ws)
        <> lit " | "
        <> usable o
        <> arrow
        <> usable r
        <> lit " |")
      ∷ []

  -- The line for a row of the new report, if there is something to say.
  unfoldable pub new_line : F.Num → Row F.Num → Standing F.Num → List Text
  unfolding changes usable
  new_line threshold r fresh =
      (lit "| " <> r.id <> lit " | new row | " <> usable r <> lit " |") ∷ []
  new_line threshold r (stayed o) = changed_line o r (changes threshold o r)
  new_line threshold r (moved o) = changed_line o r ((lit "was " <> o.id) ∷ changes threshold o r)

  unfoldable pub new_lines :
      F.Num → List (Row F.Num) → Entries (Row F.Num) → List (Row F.Num) → List Text
  unfolding new_line standing
  new_lines threshold old renamed [] = []
  new_lines threshold old renamed (r ∷ rs) =
      new_line threshold r (standing old renamed r) ++ new_lines threshold old renamed rs

  -- The lines for rows that only the old report has.
  unfoldable pub gone_lines : Bool → List Text → List (Row F.Num) → List Text
  unfolding usable
  gone_lines partial ids [] = []
  gone_lines partial ids (r ∷ rs) =
      let rest = gone_lines partial ids rs in
      if not (contains ids r.id) && not partial
      then (lit "| " <> r.id <> lit " | row gone | " <> usable r <> lit " |") ∷ rest
      else rest

  -- The lines of a section.
  unfoldable pub section_lines : List (Row F.Num) → List (Row F.Num) → F.Num → Bool → List Text
  unfolding new_lines gone_lines seen renames
  section_lines old new threshold partial =
      new_lines threshold old (renames old new) new
      ++ gone_lines partial (seen old (renames old new) new) old
