-- ===== src/Report/Same.antt =====
-- `Diff` of boot/report.go for a report against itself.
use spin_machine.Common.{
  ◌≡◌, refl, Text, lit, ◌<>◌, Bool, true, false, List, [], ◌∷◌, Option, none, some, All, All-imp,
  text_eq_self, not, is_empty, bool_eq, arith,
}
use spin_machine.Common.Int.{eq_ℤ, eq_ℤ_iff}
use spin_machine.Release.Manifest.{value_of}
use spin_machine.Report.{Row, Summary, Report, Entries, Host}
use spin_machine.Report.Numbers.{Floats}
use spin_machine.Report.Renames.{value_at, has_id}
use spin_machine.Report.Compared.{name, host_eq, artifact_lines, sorted_keys, table, section, diff}
use spin_machine.Report.Rows.{row_of, section_lines}
use spin_machine.Report.Silent.{IsSteady, IsKept, section_lines_iff}

host_eq_self : (h : Host) → host_eq h h ≡ true
unfolding host_eq
host_eq_self h = rw (text_eq_self h.cpu, text_eq_self h.kernel) ((eq_ℤ_iff h.cpus h.cpus).1 refl)

artifact_lines_self : (m : Entries Text) (ks : List Text) → artifact_lines m m ks ≡ []
unfolding artifact_lines
artifact_lines_self m [] = refl
artifact_lines_self m (k ∷ ks) = rw (text_eq_self (value_of m k)) (artifact_lines_self m ks)

bool_eq_self : (b : Bool) → bool_eq b b ≡ true
bool_eq_self true = refl
bool_eq_self false = refl

module _ {N : Type 0} where
  -- Rows with different ids.
  abbrev pub AreDistinct : List (Row N) → Type 0
  AreDistinct [] = Unit
  AreDistinct (r ∷ rs) = (has_id rs r.id ≡ false) × AreDistinct rs

  row_of-has_id : (id : Text) (rs : List (Row N)) → has_id rs id ≡ false → row_of id rs ≡ none
  unfolding row_of has_id
  row_of-has_id id [] h = refl
  row_of-has_id id (r ∷ rs) h = ground (arith, row_of-has_id id rs)

  -- Whatever stands after it, the last row of an id is found.
  row_of-tail :
      (id : Text) (r o : Row N) (rs : List (Row N))
      → row_of id rs ≡ some o
      → row_of id (r ∷ rs) ≡ some o
  unfolding row_of
  row_of-tail id r o rs h = rw h refl

  row_of_self :
      (rs : List (Row N)) → AreDistinct rs → All (λ (r : Row N). row_of r.id rs ≡ some r) rs
  unfolding row_of
  row_of_self [] _ = tt
  row_of_self (r ∷ rs) (h, hs) = (
    rw (row_of, row_of-has_id r.id rs h, text_eq_self r.id) refl,
    All-imp (λ o e. row_of-tail o.id r o rs e) rs (row_of_self rs hs),
  )

  has_id-tail :
      (id : Text) (r : Row N) (rs : List (Row N)) → has_id rs id ≡ true → has_id (r ∷ rs) id ≡ true
  unfolding has_id
  has_id-tail id r rs h = ground (arith, h)

  has_id_self : (rs : List (Row N)) → All (λ (r : Row N). has_id rs r.id ≡ true) rs
  unfolding has_id
  has_id_self [] = tt
  has_id_self (r ∷ rs) =
      (rw (text_eq_self r.id) refl, All-imp (λ o e. has_id-tail o.id r rs e) rs (has_id_self rs))

module _ (F : Floats) (threshold : F.Num) where
  -- What the floating point must give of a number and itself.
  abbrev pub IsStill : Type 0
  IsStill = (x : F.Num) → F.lt threshold (F.div (F.abs (F.sub x x)) x) ≡ false

  IsSteady-self : IsStill → (s : Option (Summary F.Num)) → IsSteady F threshold s s
  IsSteady-self still none = tt
  IsSteady-self still (some a) = rw (still a.p50) (ground arith)

  IsKept-self : IsStill → (rs : List (Row F.Num)) → AreDistinct rs → All (IsKept F threshold rs) rs
  IsKept-self still rs d =
      All-imp
        (λ r e. (
          r,
          e,
          (
            refl,
            refl,
            bool_eq_self (eq_ℤ r.boot.failed r.boot.boots),
            IsSteady-self still (value_at (lit "usable") r.boot.phases),
          ),
        ))
        rs (row_of_self rs d)

  section_self :
      IsStill
      → (rs : List (Row F.Num)) (partial : Bool) → AreDistinct rs
      → section_lines F rs rs threshold partial ≡ []
  section_self still rs partial d =
      (section_lines_iff F threshold rs rs partial).1
        (IsKept-self still rs d, All-imp (λ o e. rw e refl) rs (has_id_self rs))

  -- A section without a line.
  abbrev pub quiet : Text → Text
  quiet title = lit "\n### " <> title <> lit "\n\n" <> table F threshold []

  -- A report whose rows have different ids, against itself: it says that no row changed, of the
  -- matrix and of the variants, and nothing else. What is asked of the floating point is that no
  -- number is farther from itself than the threshold.
  pub diff_self :
      (r : Report F.Num)
      → IsStill
      → AreDistinct r.specs
      → AreDistinct r.variants
      → diff F r r threshold
        ≡ lit "## "
          <> name r
          <> lit " against "
          <> name r
          <> lit "\n\n"
          <> quiet (lit "Feature matrix")
          <> quiet (lit "Image variants")
  unfolding diff section
  diff_self r still d e =
      let partial = not (is_empty r.only) in
      rw (
        host_eq_self r.host,
        text_eq_self r.login,
        artifact_lines_self r.artifacts (sorted_keys r.artifacts r.artifacts),
        section_self still r.specs partial d,
        section_self still r.variants partial e,
      )
