-- ===== src/Report/Pairs.antt =====
-- What the loop of `renames` of boot/report.go keeps: the entries of its map are pairs.
use mathlib.Core.List.{Memᴰ}
use mathlib.Core.Option.{some-injective}
use mathlib.Core.Path.{subst₂}
use spin_machine.Common.{
  ◌≡◌, ◌↔◌, inl, inr, refl, ap, sym, ◌∙◌, true, false, Option, none, some, List, [], ◌∷◌,
  Bool-cases, Text, text_eq, text_eq_iff,
}
use spin_machine.Report.{Row, Entries}
use spin_machine.Report.Renames.{
  value_at, nearest, has_id, lacked_by, is_back, pair, pair_all, renames,
}

module _ {N : Type 0} where
  -- A pair as the loop makes it.
  abbrev pub IsPair : List (Row N) → List (Row N) → Text → Row N → Type 0
  IsPair olds news id o =
      (r : Row N) × Memᴰ r news
      × (r.id ≡ id)
      × (nearest r olds ≡ some o)
      × (is_back id (nearest o news) ≡ true)

  abbrev ArePairs : List (Row N) → List (Row N) → Entries (Row N) → Type 0
  ArePairs olds news out =
      (id : Text) (o : Row N) → value_at id out ≡ some o → IsPair olds news id o

  -- An entry that is a pair may be written to the map.
  entry-ArePairs :
      (olds news : List (Row N)) (r o : Row N) (out : Entries (Row N))
      → IsPair olds news r.id o
      → ArePairs olds news out
      → ArePairs olds news ((r.id, o) ∷ out)
  unfolding value_at
  entry-ArePairs olds news r o out p h id o' e = elim (Bool-cases (text_eq r.id id)) [
    | inr ne ↦ h id o' (rw ne at e)
    | inl eq ↦
        subst₂ (IsPair olds news) ((text_eq_iff r.id id).0 eq) (some-injective o o' (rw eq at e)) p
  ]

  pair-ArePairs :
      (olds news : List (Row N)) (r : Row N) (found : Option (Row N)) (out : Entries (Row N))
      → Memᴰ r news
      → nearest r olds ≡ found
      → ArePairs olds news out
      → ArePairs olds news (pair news r found out)
  pair-ArePairs olds news r none out m e h = h
  pair-ArePairs olds news r (some o) out m e h = elim (Bool-cases (is_back r.id (nearest o news))) [
    | inr b ↦ rw b h
    | inl b ↦ rw b (entry-ArePairs olds news r o out (r, m, refl, e, b) h)
  ]

  pair_all-ArePairs :
      (olds news rs : List (Row N)) (out : Entries (Row N))
      → ((r : Row N) → Memᴰ r rs → Memᴰ r news)
      → ArePairs olds news out
      → ArePairs olds news (pair_all olds news rs out)
  unfolding pair_all
  pair_all-ArePairs olds news [] out m h = h
  pair_all-ArePairs olds news (r ∷ rs) out m h =
      pair_all-ArePairs olds news rs (pair news r (nearest r olds) out) (λ r' k. m r' (Memᴰ.tail k))
        (pair-ArePairs olds news r (nearest r olds) out (m r (Memᴰ.head refl)) refl h)

  -- The rows whose id the other report lacks.
  pub lacked_by-mem :
      (other rs : List (Row N)) (r : Row N)
      → Memᴰ r (lacked_by other rs) ↔ (Memᴰ r rs × (has_id other r.id ≡ false))
  unfolding lacked_by
  lacked_by-mem other [] r = ((λ h. elim h [ ]), (λ (h, _). elim h [ ]))
  lacked_by-mem other (x ∷ rs) r =
      let (to, from) = lacked_by-mem other rs r in
      elim (Bool-cases (has_id other x.id)) [
        | inl e ↦ rw e ((λ m. (Memᴰ.tail (to m).0, (to m).1)), (λ (m, l). from (below e l m, l)))
        | inr e ↦ rw e (
          at_head e to,
          (λ (m, l). elim m [
            | Memᴰ.head same ↦ Memᴰ.head same
            | Memᴰ.tail m' ↦ Memᴰ.tail (from (m', l))
          ]),
        )
      ]
    where
      below : has_id other x.id ≡ true → has_id other r.id ≡ false → Memᴰ r (x ∷ rs) → Memᴰ r rs
      below e l (Memᴰ.head same) =
          absurd (cc (sym e, ap (λ (y : Row N). has_id other y.id) same, l))
      below e l (Memᴰ.tail m) = m

      at_head :
          has_id other x.id ≡ false
          → (Memᴰ r (lacked_by other rs) → Memᴰ r rs × (has_id other r.id ≡ false))
          → Memᴰ r (x ∷ lacked_by other rs)
          → Memᴰ r (x ∷ rs) × (has_id other r.id ≡ false)
      at_head e to (Memᴰ.head same) =
          (Memᴰ.head same, ap (λ (y : Row N). has_id other y.id) same ∙ e)
      at_head e to (Memᴰ.tail m) = (Memᴰ.tail (to m).0, (to m).1)

  pub some_of_is_back :
      (id : Text) (found : Option (Row N))
      → is_back id found ≡ true
      → (back : Row N) × (found ≡ some back) × (back.id ≡ id)
  some_of_is_back id none h = absurd (cc h)
  some_of_is_back id (some back) h = (back, refl, (text_eq_iff back.id id).0 h)

  pub renames-IsPair :
      (old new : List (Row N)) (id : Text) (o : Row N)
      → value_at id (renames old new) ≡ some o
      → IsPair (lacked_by new old) (lacked_by old new) id o
  unfolding renames value_at
  renames-IsPair old new =
      pair_all-ArePairs (lacked_by new old) (lacked_by old new) (lacked_by old new) [] (λ r m. m)
        (λ id o h. absurd (cc h))
