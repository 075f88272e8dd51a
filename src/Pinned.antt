-- ===== src/Pinned.antt =====
-- hack/machinetype/main.go: the machine type that the machine is pinned to, against a QEMU.
pub mod Versions
pub mod Arrays
pub mod Order
pub mod Offered
use spin_machine.Common.{
  ℕ, Text, lit, ◌<>◌, Bool, true, false, List, [], ◌∷◌, Option, none, some, Result, ok, err, ◌>>=◌,
  is_empty, text_eq, join, if◌then◌else◌,
}
use spin_machine.Common.Numeral.{decimal}
use spin_machine.Common.Split.{split}
use spin_machine.Release.Trim.{trim_space}
use spin_machine.Machine.Shape.{machine_type}
use Versions.{Version, newer, version_eq, parse, Offer, offered}
use Arrays.{CompatError, compat}

pub data CheckError : Type 0 where
  not_versioned : Text → CheckError
  deprecates : Text → CheckError
  not_offered : Text → CheckError

-- The loop over the lines, with the newest version so far and whether the pinned one was found.
abbrev pub newer_of : Version → Version → Version
newer_of v newest = if newer v newest then v else newest

unfoldable pub check_lines :
    Text → Version → Version → Bool → List Text → Result CheckError (Version × Bool)
check_lines pinned want newest found [] = ok (newest, found)
check_lines pinned want newest found (line ∷ lines) = elim (offered (trim_space line)) [
  | none ↦ check_lines pinned want newest found lines
  | some o ↦ elim (version_eq o.version want) [
    | true ↦ elim o.deprecated [
      | true ↦ err (deprecates pinned)
      | false ↦ check_lines pinned want (newer_of o.version newest) true lines
    ]
    | false ↦ check_lines pinned want (newer_of o.version newest) found lines
  ]
]

-- What is said of a newer version.
unfoldable pub notice : Version → Text → Text
notice newest pinned =
    lit "QEMU offers pc-q35-"
    <> decimal newest.major
    <> lit "."
    <> decimal newest.minor
    <> lit "; this machine stays on "
    <> pinned
    <> lit
        " (machine.MachineType), and moving it is a new machine: task qemu:compat says what would change."

-- What follows the loop.
abbrev pub concluded : Text → Version → Version × Bool → Result CheckError Text
concluded pinned want (newest, false) = err (not_offered pinned)
concluded pinned want (newest, true) = ok (if newer newest want then notice newest pinned else [])

abbrev pub check_for : Text → Text → Option Version → Result CheckError Text
check_for help pinned none = err (not_versioned pinned)
check_for help pinned (some want) = do
  end ← check_lines pinned want (record { major = 0; minor = 0 }) false (split help b'\n')
  concluded pinned want end

-- `Check`.
unfoldable pub check : Text → Text → Result CheckError Text
unfolding check_lines notice
check help pinned = check_for help pinned (parse pinned)

-- What `run` writes to the error output.
pub data Complaint : Type 0 where
  usage : Text → Complaint
  not_helped : Text → Complaint
  not_read : Text → Complaint
  not_checked : CheckError → Complaint
  not_compared : CompatError → Complaint
  no_command : Text → Complaint

-- The exit status, the lines printed, and the complaint.
pub record Exit : Type 0 where
  pub status : ℕ
  pub printed : List Text
  pub complaint : Option Complaint

abbrev fails : ℕ → Complaint → Exit
fails n c = record { status = n; printed = []; complaint = some c }

abbrev says : List Text → Exit
says lines = record { status = 0; printed = lines; complaint = none }

module _ (help : Text → Result Text Text) (read : Text → Result Text Text) where
  abbrev checked : Result CheckError Text → Exit
  checked (err e) = fails 1 (not_checked e)
  checked (ok n) = says (if is_empty n then [] else n ∷ [])

  abbrev helped : Result Text Text → Exit
  helped (err e) = fails 1 (not_helped e)
  helped (ok text) = checked (check text machine_type)

  abbrev run_check : List Text → Exit
  run_check (flag ∷ qemu ∷ []) =
      if text_eq flag (lit "-qemu")
      then helped (help qemu)
      else fails 2 (usage (lit "check -qemu <binary>"))
  run_check _ = fails 2 (usage (lit "check -qemu <binary>"))

  abbrev compared : Result CompatError Text → Exit
  compared (err (CompatError.no_array name)) = says (
      (lit "machinetype: "
        <> machine_type
        <> lit " is the newest type in this QEMU: nothing newer to differ from it")
      ∷ [])
  compared (err e) = fails 1 (not_compared e)
  compared (ok out) = says (out ∷ [])

  abbrev sources : Result Text (List Text) → Exit
  sources (err e) = fails 1 (not_read e)
  sources (ok srcs) = compared (compat (join (lit "\n") srcs) machine_type)

  abbrev run_compat : List Text → Exit
  run_compat (a ∷ b ∷ []) = sources (do x ← read a; y ← read b; ok (x ∷ y ∷ []))
  run_compat _ = fails 2 (usage (lit "compat <machine.c> <pc.c>"))

  -- `run`, of a QEMU's `-machine help` and of the reading of a file.
  unfoldable pub run : List Text → Exit
  unfolding check compat
  run [] = fails 2 (usage (lit "check -qemu <binary> | compat <machine.c> <pc.c>"))
  run (command ∷ args) =
      if text_eq command (lit "check")
      then run_check args
      else if text_eq command (lit "compat")
      then run_compat args
      else fails 2 (no_command command)
