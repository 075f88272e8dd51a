-- ===== src/Packages/Locked.antt =====
-- The lock of hack/apklock/main.go holds exactly the packages of a database.
use spin_machine.Common.{
  ◌≡◌, ◌≢◌, Text, lit, false, List, [], ◌∷◌, ◌++◌, map, All, All-append, All-map, All-imp, Lacks,
  is_empty, arith,
}
use spin_machine.Common.Split.{cut_before}
use spin_machine.Packages.{Package, pin}
use spin_machine.Packages.Blocks.{written, IsLine, IsEntry}

-- An installed package: its name and version, and the other lines of its entry.
pub record Installed : Type 0 where
  pub before : List Text
  pub known : Package
  pub after : List Text

abbrev pub lines_of : Installed → List Text
lines_of i = i.before ++ (b'P' ∷ b':' ∷ i.known.name) ∷ (b'V' ∷ b':' ∷ i.known.version) ∷ i.after

-- A line that gives neither a name nor a version.
abbrev pub IsOther : Text → Type 0
IsOther line = IsLine line × (cut_before line b':' ≢ lit "P") × (cut_before line b':' ≢ lit "V")

pub record IsInstalled (i : Installed) : Type 0 where
  pub others_before : All IsOther i.before
  pub others_after : All IsOther i.after
  pub named : is_empty i.known.name ≡ false
  pub versioned : is_empty i.known.version ≡ false
  pub whole_name : Lacks b'\n' i.known.name
  pub whole_version : Lacks b'\n' i.known.version

IsEntry-append : (xs ys : List Text) → All IsOther xs → IsEntry ys → IsEntry (xs ++ ys)
IsEntry-append [] ys _ h = h
IsEntry-append (x ∷ xs) [] _ h = absurd h
IsEntry-append (x ∷ xs) (y ∷ ys) ((l, _, _), hs) (k, ks) =
    (l, All-append IsLine xs (y ∷ ys) (All-imp (λ t o. o.0) xs hs) (k, ks))

lines_of-IsEntry : (i : Installed) → IsInstalled i → IsEntry (lines_of i)
lines_of-IsEntry i h = IsEntry-append i.before _ h.others_before (
  (omega arith, (omega arith, h.whole_name)),
  ((omega arith, (omega arith, h.whole_version)), All-imp (λ t o. o.0) i.after h.others_after),
)

-- A database of packages.
abbrev pub database : List Installed → Text
database is = written (map lines_of is)

abbrev pub pin_of : Installed → Text
pin_of i = pin i.known

entries : (is : List Installed) → All IsInstalled is → All IsEntry (map lines_of is)
entries is h = (All-map IsEntry lines_of is).1 (All-imp lines_of-IsEntry is h)
