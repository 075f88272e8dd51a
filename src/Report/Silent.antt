-- ===== src/Report/Silent.antt =====
-- When `section` of boot/report.go has nothing to say.
use mathlib.Core.Option.{some-injective}
use mathlib.Core.Path.{subst}
use spin_machine.Common.{
  ◌≡◌, ◌↔◌, refl, ap, sym, ◌∙◌, Text, lit, Bool, true, false, not, ◌&&◌, ◌||◌, bool_eq, List, [],
  ◌∷◌, ◌++◌, Option, none, some, All, All-imp, text_eq, text_eq_iff, contains, if◌then◌else◌, arith,
}
use spin_machine.Common.Int.{pos, eq_ℤ}
use spin_machine.Report.{Row, Summary, Entries}
use spin_machine.Report.Numbers.{Floats}
use spin_machine.Report.Renames.{value_at, has_id, renames}
use spin_machine.Report.Rows.{
  texts_eq, standing_of, standing, row_of, seen, median_change, changes, changed_line, new_line,
  new_lines, gone_lines, section_lines,
}

texts_eq_iff : (a b : List Text) → (texts_eq a b ≡ true) ↔ (a ≡ b)
unfolding texts_eq
texts_eq_iff [] [] = (λ _. refl, λ _. refl)
texts_eq_iff [] (y ∷ b) = (λ h. cc, λ h. cc)
texts_eq_iff (x ∷ a) [] = (λ h. cc, λ h. cc)
texts_eq_iff (x ∷ a) (y ∷ b) = ground (arith, texts_eq_iff a b, text_eq_iff x y)

nil-append_iff {ℓ} : {A : Type ℓ} (xs ys : List A) → (xs ++ ys ≡ []) ↔ ((xs ≡ []) × (ys ≡ []))
nil-append_iff [] ys = ((λ h. (refl, h)), (λ h. h.1))
nil-append_iff (x ∷ xs) ys = ((λ h. cc), (λ h. cc (h.0)))

unless-nil_iff {ℓ} :
    {A : Type ℓ} (b : Bool) (x : A) → ((if b then [] else x ∷ []) ≡ []) ↔ (b ≡ true)
unless-nil_iff true x = ((λ _. refl), (λ _. refl))
unless-nil_iff false x = ((λ h. cc), (λ h. cc))

when-nil_iff {ℓ} : {A : Type ℓ} (b : Bool) (x : A) → ((if b then x ∷ [] else []) ≡ []) ↔ (b ≡ false)
when-nil_iff true x = ((λ h. cc), (λ h. cc))
when-nil_iff false x = ((λ _. refl), (λ _. refl))

module _ (F : Floats) (threshold : F.Num) where
  -- A median that did not move by more than the threshold, or cannot be compared.
  abbrev pub IsSteady : Option (Summary F.Num) → Option (Summary F.Num) → Type 0
  IsSteady none b = Unit
  IsSteady (some a) none = Unit
  IsSteady (some a) (some b) =
      (F.lt (F.of_int (pos 0)) a.p50 && F.lt threshold (F.div (F.abs (F.sub b.p50 a.p50)) a.p50))
      ≡ false

  median_change_iff :
      (a b : Option (Summary F.Num)) → (median_change F threshold a b ≡ []) ↔ IsSteady a b
  median_change_iff none b = ((λ _. tt), (λ _. refl))
  median_change_iff (some a) none = ((λ _. tt), (λ _. refl))
  median_change_iff (some a) (some b) = when-nil_iff _ _

  -- Two rows with the same fingerprint and command line, that both boot or both do not, and whose
  -- median time to a usable machine is steady.
  abbrev pub IsUnchanged : Row F.Num → Row F.Num → Type 0
  IsUnchanged o r =
      (o.fingerprint ≡ r.fingerprint)
      × (o.args ≡ r.args)
      × (bool_eq (eq_ℤ o.boot.failed o.boot.boots) (eq_ℤ r.boot.failed r.boot.boots) ≡ true)
      × IsSteady (value_at (lit "usable") o.boot.phases) (value_at (lit "usable") r.boot.phases)

  changes_iff : (o r : Row F.Num) → (changes F threshold o r ≡ []) ↔ IsUnchanged o r
  unfolding changes
  changes_iff o r = (
    (λ h.
        let (a, h1) = (nil-append_iff _ _).0 h in
        let (b, h2) = (nil-append_iff _ _).0 h1 in
        let (c, d) = (nil-append_iff _ _).0 h2 in
        (
          (text_eq_iff o.fingerprint r.fingerprint).0 ((unless-nil_iff _ _).0 a),
          (texts_eq_iff o.args r.args).0 ((unless-nil_iff _ _).0 b),
          (unless-nil_iff _ _).0 c,
          (median_change_iff _ _).0 d,
        )),
    (λ (a, b, c, d). (nil-append_iff _ _).1 (
      (unless-nil_iff _ _).1 ((text_eq_iff o.fingerprint r.fingerprint).1 a),
      (nil-append_iff _ _).1 (
        (unless-nil_iff _ _).1 ((texts_eq_iff o.args r.args).1 b),
        (nil-append_iff _ _).1 ((unless-nil_iff _ _).1 c, (median_change_iff _ _).1 d),
      ),
    )),
  )

  changed_line_iff :
      (o r : Row F.Num) (what : List Text) → (changed_line F o r what ≡ []) ↔ (what ≡ [])
  changed_line_iff o r [] = ((λ _. refl), (λ _. refl))
  changed_line_iff o r (w ∷ ws) = ((λ h. cc), (λ h. cc))

  -- A row that the old report has under the same id, unchanged.
  abbrev pub IsKept : List (Row F.Num) → Row F.Num → Type 0
  IsKept old r = (o : Row F.Num) × (row_of r.id old ≡ some o) × IsUnchanged o r

  new_line_iff :
      (old : List (Row F.Num)) (r : Row F.Num) (found renamed : Option (Row F.Num))
      → (new_line F threshold r (standing_of found renamed) ≡ [])
        ↔ ((o : Row F.Num) × (found ≡ some o) × IsUnchanged o r)
  unfolding new_line
  new_line_iff old r none none = ((λ h. cc), (λ (o, e, _). cc))
  new_line_iff old r none (some o) = ((λ h. cc), (λ (o, e, _). cc))
  new_line_iff old r (some o) renamed = (
    (λ h. (o, refl, (changes_iff o r).0 ((changed_line_iff o r _).0 h))),
    (λ (o', e, u).
        (changed_line_iff o r _).1
          ((changes_iff o r).1 (subst (λ x. IsUnchanged x r) (sym (some-injective o o' e)) u))),
  )

  new_lines_iff :
      (old : List (Row F.Num)) (renamed : Entries (Row F.Num)) (new : List (Row F.Num))
      → (new_lines F threshold old renamed new ≡ []) ↔ All (IsKept old) new
  unfolding new_lines standing
  new_lines_iff old renamed [] = ((λ _. tt), (λ _. refl))
  new_lines_iff old renamed (r ∷ rs) =
      let one = new_line_iff old r (row_of r.id old) (value_at r.id renamed) in
      let rest = new_lines_iff old renamed rs in
      (
        (λ h. let (a, b) = (nil-append_iff _ _).0 h in (one.0 a, rest.0 b)),
        (λ (a, b). (nil-append_iff _ _).1 (one.1 a, rest.1 b)),
      )

  -- Rows that stay under their id are all that is seen.
  seen-kept :
      (old : List (Row F.Num)) (renamed : Entries (Row F.Num)) (new : List (Row F.Num)) (id : Text)
      → All (IsKept old) new
      → contains (seen old renamed new) id ≡ has_id new id
  unfolding seen standing contains has_id
  seen-kept old renamed [] id _ = refl
  seen-kept old renamed (r ∷ rs) id ((o, e, _), hs) =
      rw (seen, standing, e) (ap (λ b. text_eq r.id id || b) (seen-kept old renamed rs id hs))

  gone_lines_iff :
      (partial : Bool) (ids : List Text) (old : List (Row F.Num))
      → (gone_lines F partial ids old ≡ [])
        ↔ All (λ (o : Row F.Num). (contains ids o.id || partial) ≡ true) old
  unfolding gone_lines
  gone_lines_iff partial ids [] = ((λ _. tt), (λ _. refl))
  gone_lines_iff partial ids (o ∷ old) =
      line (contains ids o.id) partial _ (gone_lines_iff partial ids old)
    where
      line :
          (b p : Bool) (x : Text) {rest : List Text} {P : Type 0}
          → (rest ≡ []) ↔ P
          → ((if not b && not p then x ∷ rest else rest) ≡ []) ↔ (((b || p) ≡ true) × P)
      line true p x h = ((λ e. (refl, h.0 e)), (λ (_, k). h.1 k))
      line false true x h = ((λ e. (refl, h.0 e)), (λ (_, k). h.1 k))
      line false false x h = ((λ e. cc), (λ (e, _). cc))

  -- No row of the old report is missing, where every row was asked for.
  abbrev pub IsComplete : Bool → List (Row F.Num) → List (Row F.Num) → Type 0
  IsComplete partial old new = All (λ (o : Row F.Num). (has_id new o.id || partial) ≡ true) old

  -- A section says that no row changed exactly when each row of the new report is in the old one
  -- under its id with the same fingerprint, command line and outcome and a median that is not beyond
  -- the threshold, and, unless only some rows were asked for, no row of the old one is missing.
  pub section_lines_iff :
      (old new : List (Row F.Num)) (partial : Bool)
      → (section_lines F old new threshold partial ≡ [])
        ↔ (All (IsKept old) new × IsComplete partial old new)
  unfolding section_lines
  section_lines_iff old new partial =
      let renamed = renames old new in
      let rows = new_lines_iff old renamed new in
      let gone = gone_lines_iff partial (seen old renamed new) old in
      let same = λ (k : All (IsKept old) new) (o : Row F.Num).
        ap (λ b. b || partial) (seen-kept old renamed new o.id k) in
      (
        (λ h.
            let (a, b) = (nil-append_iff _ _).0 h in
            let k = rows.0 a in (k, All-imp (λ o e. sym (same k o) ∙ e) old (gone.0 b))),
        (λ (k, c). (nil-append_iff _ _).1 (rows.1 k, gone.1 (All-imp (λ o e. same k o ∙ e) old c))),
      )
