-- ===== src/Packages.antt =====
-- hack/apklock/main.go: the packages of an apk database, as lines of name and version.
pub mod Blocks
pub mod Locked
use spin_machine.Common.{
  ℕ, Text, lit, Bool, true, false, List, [], ◌∷◌, ◌++◌, Option, none, some, Result, ok, err, ◌>>=◌,
  is_empty, text_eq, join, if◌then◌else◌,
}
use spin_machine.Common.Split.{split, cut_before}
use spin_machine.Issues.Sorting.{sort}
use spin_machine.Release.Manifest.{cut_after}
use Blocks.{blocks}

-- `name` and `version`.
pub record Package : Type 0 where
  pub name : Text
  pub version : Text

pub data LockError : Type 0 where
  half : Text → Text → LockError
  nothing_installed : LockError

-- The `switch` on the key of a line.
unfoldable pub read_line : Package → Text → Package
read_line p line =
    let v = cut_after line b':' in
    if text_eq (cut_before line b':') (lit "P")
    then record p { name = v }
    else if text_eq (cut_before line b':') (lit "V")
    then record p { version = v }
    else p

unfoldable pub read_lines : Package → List Text → Package
unfolding read_line
read_lines p [] = p
read_lines p (line ∷ lines) = read_lines (read_line p line) lines

-- The package of a block.
unfoldable pub package_of : Text → Package
unfolding read_lines
package_of block = read_lines (record { name = []; version = [] }) (split block b'\n')

unfoldable pub pin : Package → Text
pin p = p.name ++ b'=' ∷ p.version

-- The `switch` on a package.
abbrev pub add_pin : Bool → Bool → Package → List Text → Result LockError (List Text)
add_pin true true p pins = ok pins
add_pin true false p pins = err (half p.name p.version)
add_pin false true p pins = err (half p.name p.version)
add_pin false false p pins = ok (pins ++ pin p ∷ [])

-- The loop over the blocks.
unfoldable pub pins_from : List Text → List Text → Result LockError (List Text)
unfolding package_of pin
pins_from pins [] = ok pins
pins_from pins (b ∷ bs) = do
  let p = package_of b
  next ← add_pin (is_empty p.name) (is_empty p.version) p pins
  pins_from next bs

-- `Lock`.
unfoldable pub lock : Text → Result LockError Text
unfolding blocks pins_from sort
lock db = do
  pins ← pins_from [] (blocks db)
  if is_empty pins then err nothing_installed else ok (join (lit "\n") (sort pins) ++ lit "\n")

-- `Listed`, of `strings.Fields`.
module _ (words : Text → List Text) where
  unfoldable pub names_of : List Text → List Text
  names_of [] = []
  names_of (line ∷ lines) = words (cut_before line b'#') ++ names_of lines

  unfoldable pub names_listed : Text → List Text
  unfolding names_of
  names_listed list = names_of (split list b'\n')

-- What `run` writes to the error output.
pub data Complaint : Type 0 where
  usage : Complaint
  not_read : Text → Complaint
  not_locked : LockError → Complaint

-- The exit status, what is written to the output, and the complaint.
pub record Exit : Type 0 where
  pub status : ℕ
  pub written : Text
  pub complaint : Option Complaint

abbrev locked : Result LockError Text → Exit
locked (err e) = record { status = 2; written = []; complaint = some (not_locked e) }
locked (ok text) = record { status = 0; written = text; complaint = none }

abbrev read_db : Result Text Text → Exit
read_db (err e) = record { status = 2; written = []; complaint = some (not_read e) }
read_db (ok db) = locked (lock db)

-- `run`, of the reading of a file.
unfoldable pub run : (Text → Result Text Text) → List Text → Exit
unfolding lock
run read (file ∷ []) = read_db (read file)
run read _ = record { status = 2; written = []; complaint = some usage }
