-- ===== src/Report/Renames.antt =====
-- `renames` of boot/report.go: which row of the old report stands for a row that only the new one has.
use spin_machine.Common.{
  ℕ, Text, Bool, true, false, not, ◌&&◌, ◌||◌, ◌==◌, ltb, bool_eq, List, [], ◌∷◌, Option, none,
  some, is_empty, text_eq, if◌then◌else◌,
}
use spin_machine.Report.{Entries, Row}
use spin_machine.Report.Distance.{distance}

-- What a map holds for a key.
unfoldable pub value_at {ℓ} : {A : Type ℓ} → Text → Entries A → Option A
value_at k [] = none
value_at k ((key, v) ∷ m) = let rest = value_at k m in if text_eq key k then some v else rest

-- Whether a choice is not contradicted by one for the same axis.
abbrev pub agrees : Text → Option Text → Bool
agrees v none = true
agrees v (some w) = text_eq w v

unfoldable pub all_agree : Entries Text → Entries Text → Bool
unfolding value_at
all_agree [] b = true
all_agree ((k, v) ∷ a) b = agrees v (value_at k b) && all_agree a b

-- `best`, `n` and `tie`, once a row has been found.
pub record Best (N : Type 0) : Type 0 where
  pub row : Row N
  pub away : ℕ
  pub tie : Bool

module _ {N : Type 0} where
  -- `sameAxes`.
  unfoldable pub same_axes : Row N → Row N → Bool
  unfolding all_agree
  same_axes a b =
      bool_eq (is_empty a.features) (is_empty b.features) && all_agree a.features b.features

  -- Whether `nearest` does not pass over a row.
  unfoldable pub stands_for : Row N → Row N → Bool
  unfolding same_axes
  stands_for r c = same_axes r c && not (is_empty r.features && not (distance r.args c.args == 0))

  -- The `switch`.
  abbrev pub better : Option (Best N) → Row N → ℕ → Option (Best N)
  better none c d = some (record { row = c; away = d; tie = false })
  better (some b) c d =
      if ltb d b.away
      then some (record { row = c; away = d; tie = false })
      else if d == b.away
      then some (record b { tie = true })
      else some b

  -- The loop of `nearest`.
  unfoldable pub nearest_from : Option (Best N) → Row N → List (Row N) → Option (Best N)
  unfolding stands_for
  nearest_from b r [] = b
  nearest_from b r (c ∷ cs) =
      nearest_from (if stands_for r c then better b c (distance r.args c.args) else b) r cs

  abbrev pub untied : Option (Best N) → Option (Row N)
  untied none = none
  untied (some b) = if b.tie then none else some b.row

  -- `nearest`.
  unfoldable pub nearest : Row N → List (Row N) → Option (Row N)
  unfolding nearest_from
  nearest r among = untied (nearest_from none r among)

  -- Whether a row has an id: `ids[id]`.
  unfoldable pub has_id : List (Row N) → Text → Bool
  has_id [] id = false
  has_id (r ∷ rs) id = text_eq r.id id || has_id rs id

  -- `olds` and `news`: the rows whose id the other report lacks.
  unfoldable pub lacked_by : List (Row N) → List (Row N) → List (Row N)
  unfolding has_id
  lacked_by other [] = []
  lacked_by other (r ∷ rs) =
      let rest = lacked_by other rs in if has_id other r.id then rest else r ∷ rest

  -- Whether the nearest row of a row is one with this id.
  abbrev pub is_back : Text → Option (Row N) → Bool
  is_back id none = false
  is_back id (some back) = text_eq back.id id

  -- One round of the last loop, which writes to the map.
  abbrev pub pair : List (Row N) → Row N → Option (Row N) → Entries (Row N) → Entries (Row N)
  pair news r none out = out
  pair news r (some o) out = if is_back r.id (nearest o news) then (r.id, o) ∷ out else out

  unfoldable pub pair_all :
      List (Row N) → List (Row N) → List (Row N) → Entries (Row N) → Entries (Row N)
  unfolding nearest
  pair_all olds news [] out = out
  pair_all olds news (r ∷ rs) out = pair_all olds news rs (pair news r (nearest r olds) out)

  -- `renames`.
  unfoldable pub renames : List (Row N) → List (Row N) → Entries (Row N)
  unfolding lacked_by pair_all
  renames old new =
      let olds = lacked_by new old in let news = lacked_by old new in pair_all olds news news []
