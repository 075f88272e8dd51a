-- ===== src/Report/Paired.antt =====
-- The pairs that `renames` of boot/report.go makes.
use mathlib.Core.List.{Memᴰ}
use mathlib.Core.List as List
use mathlib.Core.Option.{some-injective}
use mathlib.Core.Path.{subst}
use spin_machine.Common.{
  ◌≡◌, ◌↔◌, refl, ap, sym, ◌∙◌, true, false, Option, none, some, List, [], ◌∷◌, Text, text_eq_iff,
  arith,
}
use spin_machine.Report.{Row, Entries}
use spin_machine.Boot.{is_some}
use spin_machine.Report.Renames.{
  value_at, nearest, has_id, lacked_by, is_back, pair, pair_all, renames,
}
use spin_machine.Report.Nearest.{IsNearest, nearest_iff}
use spin_machine.Report.Pairs.{lacked_by-mem, some_of_is_back, renames-IsPair}

module _ {N : Type 0} where
  nearest-mem : (r o : Row N) (among : List (Row N)) → IsNearest r among o → Memᴰ o among
  nearest-mem r o among (xs, ys, e, s, fx, fy) =
      subst (Memᴰ o) (sym e) (List.Memᴰ.append_right xs (Memᴰ.head refl))

  -- A row that only the new report has, one that only the old one has, and each the other's nearest.
  abbrev pub IsMutual : List (Row N) → List (Row N) → Text → Row N → Type 0
  IsMutual old new id o =
      (r : Row N) × (back : Row N) × Memᴰ r new
      × (r.id ≡ id)
      × (has_id old id ≡ false)
      × Memᴰ o old
      × (has_id new o.id ≡ false)
      × IsNearest r (lacked_by new old) o
      × IsNearest o (lacked_by old new) back
      × (back.id ≡ id)

  -- A row of the old report that `renames` gives for an id has an id that no new row has, and stands
  -- for a new row of that id, which no old row has. Each is the other's nearest among such rows, up
  -- to the id: a candidate, with every other candidate farther away.
  pub renames-IsMutual :
      (old new : List (Row N)) (id : Text) (o : Row N)
      → value_at id (renames old new) ≡ some o
      → IsMutual old new id o
  renames-IsMutual old new id o h =
      let (r, m, e, near, b) = renames-IsPair old new id o h in
      let (back, near', e') = some_of_is_back id (nearest o (lacked_by old new)) b in
      let close = (nearest_iff r (lacked_by new old) o).0 near in
      let (here, lacks) = (lacked_by-mem old new r).0 m in
      let (there, lacks') =
        (lacked_by-mem new old o).0 (nearest-mem r o (lacked_by new old) close) in
      (
        r,
        back,
        here,
        e,
        ap (has_id old) (sym e) ∙ lacks,
        there,
        lacks',
        close,
        (nearest_iff o (lacked_by old new) back).0 near',
        e',
      )

  -- No row of the old report stands for new rows of two ids.
  pub renames_injective :
      (old new : List (Row N)) (i j : Text) (o : Row N)
      → value_at i (renames old new) ≡ some o
      → value_at j (renames old new) ≡ some o
      → i ≡ j
  renames_injective old new i j o h k =
      let (r, m, e, near, b) = renames-IsPair old new i o h in
      let (r', m', e', near', b') = renames-IsPair old new j o k in
      let (back, found, is) = some_of_is_back i (nearest o (lacked_by old new)) b in
      let (back', found', is') = some_of_is_back j (nearest o (lacked_by old new)) b' in
      sym is ∙ ap (λ (y : Row N). y.id) (some-injective back back' (sym found ∙ found')) ∙ is'

  -- An entry of the map stays, whatever is written later.
  pair-is_some :
      (news : List (Row N)) (id : Text) (r : Row N) (found : Option (Row N)) (out : Entries (Row N))
      → is_some (value_at id out) ≡ true
      → is_some (value_at id (pair news r found out)) ≡ true
  unfolding value_at
  pair-is_some news id r none out h = h
  pair-is_some news id r (some o) out h = ground (arith, h)

  pair_all-is_some :
      (olds news rs : List (Row N)) (id : Text) (out : Entries (Row N))
      → is_some (value_at id out) ≡ true
      → is_some (value_at id (pair_all olds news rs out)) ≡ true
  unfolding pair_all
  pair_all-is_some olds news [] id out h = h
  pair_all-is_some olds news (r ∷ rs) id out h =
      pair_all-is_some olds news rs id _ (pair-is_some news id r (nearest r olds) out h)

  pair_made :
      (news : List (Row N)) (r o : Row N) (found : Option (Row N)) (out : Entries (Row N))
      → found ≡ some o
      → is_back r.id (nearest o news) ≡ true
      → is_some (value_at r.id (pair news r found out)) ≡ true
  unfolding value_at
  pair_made news r o found out e b = rw (e, b, value_at, (text_eq_iff r.id r.id).1 refl) refl

  pair_all_made :
      (olds news rs : List (Row N)) (r o : Row N) (out : Entries (Row N))
      → Memᴰ r rs
      → nearest r olds ≡ some o
      → is_back r.id (nearest o news) ≡ true
      → is_some (value_at r.id (pair_all olds news rs out)) ≡ true
  unfolding pair_all
  pair_all_made olds news [] r o out m e b = elim m [ ]
  pair_all_made olds news (x ∷ rs) r o out (Memᴰ.tail m) e b =
      pair_all_made olds news rs r o _ m e b
  pair_all_made olds news (x ∷ rs) r o out (Memᴰ.head same) e b =
      pair_all-is_some olds news rs r.id _ (
        subst (λ (y : Row N). is_some (value_at r.id (pair news y (nearest y olds) out)) ≡ true)
          same (pair_made news r o (nearest r olds) out e b))

  is_some_value : (found : Option (Row N)) → is_some found ≡ true → (o : Row N) × (found ≡ some o)
  is_some_value none h = absurd (cc h)
  is_some_value (some o) h = (o, refl)

  -- `renames` has a row for an id exactly when a new row of that id, which no old row has, and an old
  -- row, whose id no new row has, are each other's nearest, up to the id.
  pub renames_iff :
      (old new : List (Row N)) (id : Text)
      → (is_some (value_at id (renames old new)) ≡ true) ↔ ((o : Row N) × IsMutual old new id o)
  unfolding renames
  renames_iff old new id = (
    (λ h.
        let (o, e) = is_some_value (value_at id (renames old new)) h in
        (o, renames-IsMutual old new id o e)),
    (λ (o, (r, back, m, e, lacks, there, lacks', near, near', e')).
        let olds = lacked_by new old in
        let news = lacked_by old new in
        subst (λ i. is_some (value_at i (renames old new)) ≡ true) e
          (pair_all_made olds news news r o []
            ((lacked_by-mem old new r).1 (m, ap (has_id old) e ∙ lacks))
            ((nearest_iff r olds o).1 near)
            (ap (is_back r.id) ((nearest_iff o news back).1 near')
              ∙ (text_eq_iff back.id r.id).1 (e' ∙ sym e)))),
  )
