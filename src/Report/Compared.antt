-- ===== src/Report/Compared.antt =====
-- `Diff` of boot/report.go, with what it writes as a text.
use spin_machine.Common.{
  ℕ, zero, suc, Text, lit, ◌<>◌, Bool, not, ◌&&◌, ltb, List, [], ◌∷◌, ◌++◌, map, length, is_empty,
  text_eq, join, if◌then◌else◌,
}
use spin_machine.Common.Int.{pos, eq_ℤ}
use spin_machine.Common.Numeral.{itoa}
use spin_machine.Boot.{is_some}
use spin_machine.Issues.Sorting.{sort}
use spin_machine.Release.Manifest.{value_of}
use spin_machine.Report.{Entries, Host, Row, Report}
use spin_machine.Report.Numbers.{Floats}
use spin_machine.Report.Rows.{arrow, section_lines}
use spin_machine.Report.Renames.{value_at}

-- Go's `==` on `Host`.
unfoldable pub host_eq : Host → Host → Bool
host_eq a b = text_eq a.cpu b.cpu && text_eq a.kernel b.kernel && eq_ℤ a.cpus b.cpus

-- The first bytes of a text.
unfoldable pub take : ℕ → Text → Text
take zero s = []
take (suc n) [] = []
take (suc n) (c ∷ s) = c ∷ take n s

-- `short`.
unfoldable pub short : Text → Text
unfolding take
short h = if ltb 12 (length h) then take 12 h else h

unfoldable pub keys_lacked_by : Entries Text → Entries Text → List Text
unfolding value_at
keys_lacked_by a [] = []
keys_lacked_by a ((k, _) ∷ b) =
    let rest = keys_lacked_by a b in if is_some (value_at k a) then rest else k ∷ rest

-- `sortedKeys`.
unfoldable pub sorted_keys : Entries Text → Entries Text → List Text
unfolding keys_lacked_by
sorted_keys a b = sort (map (λ (e : Text × Text). e.0) a ++ keys_lacked_by a b)

-- The lines of the artifacts that changed.
unfoldable pub artifact_lines : Entries Text → Entries Text → List Text → Text
unfolding short
artifact_lines old new [] = []
artifact_lines old new (k ∷ ks) =
    let rest = artifact_lines old new ks in
    if text_eq (value_of old k) (value_of new k)
    then rest
    else lit "- `"
      <> k
      <> lit "` changed: `"
      <> short (value_of old k)
      <> lit "`"
      <> arrow
      <> lit "`"
      <> short (value_of new k)
      <> lit "`\n"
      <> rest

module _ {N : Type 0} where
  -- `name`.
  unfoldable pub name : Report N → Text
  name r =
      let n = if is_empty r.release then lit "an unreleased tree" else r.release in
      if is_empty r.flags then n else n <> lit " with " <> join (lit " ") r.flags

module _ (F : Floats) where
  unfoldable pub written_lines : List Text → Text
  written_lines [] = []
  written_lines (l ∷ ls) = l <> lit "\n" <> written_lines ls

  abbrev pub table : F.Num → List Text → Text
  table threshold [] =
      lit "No row changed beyond " <> F.fixed 0 (F.mul (F.of_int (pos 100)) threshold) <> lit "%.\n"
  table threshold (l ∷ ls) =
      lit "| row | what changed | usable p50 / p95 (ms) |\n|---|---|---|\n"
      <> written_lines (l ∷ ls)

  -- `section`.
  unfoldable pub section : Text → List (Row F.Num) → List (Row F.Num) → F.Num → Bool → Text
  unfolding section_lines written_lines
  section title old new threshold partial =
      lit "\n### "
      <> title
      <> lit "\n\n"
      <> table threshold (section_lines F old new threshold partial)

  -- The two notes at the head.
  abbrev pub host_note : Host → Host → Text
  host_note old new =
      if host_eq old new
      then []
      else lit "Measured on different hosts ("
        <> old.cpu
        <> lit ", "
        <> itoa old.cpus
        <> lit " CPUs; "
        <> new.cpu
        <> lit ", "
        <> itoa new.cpus
        <> lit " CPUs): the times below compare two machines, not two releases.\n\n"

  abbrev pub login_note : Text → Text → Text
  login_note old new =
      if text_eq old new
      then []
      else lit "The login prompt was reached differently ("
        <> old
        <> lit ", "
        <> new
        <> lit "): the usable column moves by agetty's second for that reason alone.\n\n"

  -- `Diff`.
  unfoldable pub diff : Report F.Num → Report F.Num → F.Num → Text
  unfolding name host_eq sorted_keys artifact_lines section
  diff old new threshold =
      let partial = not (is_empty new.only) in
      lit "## "
      <> name new
      <> lit " against "
      <> name old
      <> lit "\n\n"
      <> host_note old.host new.host
      <> login_note old.login new.login
      <> artifact_lines old.artifacts new.artifacts (sorted_keys old.artifacts new.artifacts)
      <> section (lit "Feature matrix") old.specs new.specs threshold partial
      <> section (lit "Image variants") old.variants new.variants threshold partial
