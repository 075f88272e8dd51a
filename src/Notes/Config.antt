-- ===== src/Notes/Config.antt =====
-- `writeVersions`, `writeKernelConfig` and their readers of hack/releasenotes/main.go.
use spin_machine.Common.{
  Text, lit, ◌<>◌, true, false, not, List, [], ◌∷◌, ◌++◌, map, Option, none, some, Result, ok, err,
  ◌>>=◌, is_empty, has_byte, text_eq, join, if◌then◌else◌,
}
use spin_machine.Common.Split.{cut_before}
use spin_machine.Issues.{distinct}
use spin_machine.Issues.Links.{cut_prefix}
use spin_machine.Issues.Sorting.{sort}
use spin_machine.Release.Manifest.{Env, value_of, cut_after}
use spin_machine.Release.Trim.{trim_space}
use spin_machine.Report.{Entries}
use spin_machine.Report.Compared.{take}
use spin_machine.Report.Rows.{arrow}
use spin_machine.Report.Renames.{value_at}
use spin_machine.Notes.Texts.{lines, has_prefix, cut_suffix, trim_prefix, base}

-- A run of git, by its arguments: its output or its error.
abbrev pub Git : Type 0
Git = List Text → Result Text Text

-- What is used of an entry of versions.yaml.
pub record Pin : Type 0 where
  pub name : Text
  pub version : Text
  pub pin : Text

abbrev pub VersionParser : Type 0
VersionParser = Text → Result Text (List Pin)

-- `section`.
abbrev pub section : Text → List Text → Text
section title [] = []
section title (l ∷ ls) = lit "### " <> title <> lit "\n\n" <> join (lit "\n") (l ∷ ls) <> lit "\n\n"

-- The keys of two maps, sorted.
unfoldable pub sorted_keys {ℓ} : {A : Type ℓ} → Entries A → Entries A → List Text
unfolding distinct sort
sorted_keys {A} a b =
    let keys : Entries A → List Text = map (λ (e : Text × A). e.0) in
    sort (distinct [] (keys a ++ keys b))

-- The map of the entries by name: the last one of a name counts.
unfoldable pub by_name : Entries Pin → List Pin → Entries Pin
by_name out [] = out
by_name out (e ∷ es) = by_name ((e.name, e) ∷ out) es

abbrev parsed : Text → Result Text (List Pin) → Result Text (Entries Pin)
parsed ref (err e) = err (lit "versions.yaml at " <> ref <> lit ": " <> e)
parsed ref (ok es) = ok (by_name [] es)

abbrev shown_versions : VersionParser → Text → Result Text Text → Result Text (Entries Pin)
shown_versions parse ref (err _) = ok []
shown_versions parse ref (ok body) = parsed ref (parse body)

-- `git.versions`.
unfoldable pub versions : Git → VersionParser → Text → Result Text (Entries Pin)
unfolding by_name
versions git parse ref =
    shown_versions parse ref (git (lit "show" ∷ (ref <> lit ":versions.yaml") ∷ []))

-- `short`.
unfoldable pub short_pin : Text → Text
unfolding trim_prefix
short_pin pin = take 12 (trim_prefix (lit "sha256:") pin)

-- What is said of a name.
abbrev pub pin_line : Text → Option Pin → Option Pin → List Text
pin_line name none none = (lit "- `" <> name <> lit "` added at ``") ∷ []
pin_line name none (some n) = (lit "- `" <> name <> lit "` added at `" <> n.version <> lit "`") ∷ []
pin_line name (some o) none =
    (lit "- `" <> name <> lit "` removed (was `" <> o.version <> lit "`)") ∷ []
pin_line name (some o) (some n) =
    if not (text_eq o.version n.version)
    then (lit "- `"
        <> name
        <> lit "` `"
        <> o.version
        <> lit "`"
        <> arrow
        <> lit "`"
        <> n.version
        <> lit "`")
      ∷ []
    else if not (text_eq o.pin n.pin)
    then (lit "- `"
        <> name
        <> lit "` `"
        <> n.version
        <> lit "` pin `"
        <> short_pin o.pin
        <> lit "`"
        <> arrow
        <> lit "`"
        <> short_pin n.pin
        <> lit "`")
      ∷ []
    else []

unfoldable pub pin_lines : Entries Pin → Entries Pin → List Text → List Text
unfolding short_pin value_at
pin_lines old cur [] = []
pin_lines old cur (name ∷ names) =
    pin_line name (value_at name old) (value_at name cur) ++ pin_lines old cur names

-- `writeVersions`.
unfoldable pub write_versions : Git → VersionParser → Text → Text → Result Text Text
unfolding versions pin_lines sorted_keys
write_versions git parse from to = do
  old ← versions git parse from
  cur ← versions git parse to
  ok (section (lit "Pins (versions.yaml)") (pin_lines old cur (sorted_keys old cur)))

-- The configuration's file: the last one with its prefix.
unfoldable pub config_file : Text → List Text → Text
unfolding has_prefix base
config_file file [] = file
config_file file (n ∷ ns) =
    config_file (if has_prefix (lit "config-") (base (trim_space n)) then trim_space n else file) ns

-- A line of the configuration, trimmed.
abbrev unset : Env → Option Text → Env
unset out none = out
unset out (some o) = (o, lit "n") ∷ out

abbrev assigned : Env → Option Text → Env
assigned out none = out
assigned out (some opt) =
    if has_byte b'=' opt then (cut_before opt b'=', cut_after opt b'=') ∷ out else out

abbrev config_entry : Env → Text → Option Text → Env
config_entry out line (some opt) = unset out (cut_suffix (lit " is not set") opt)
config_entry out line none = assigned out (cut_prefix (lit "CONFIG_") line)

unfoldable pub config_lines : Env → List Text → Env
unfolding cut_prefix cut_suffix
config_lines out [] = out
config_lines out (l ∷ ls) =
    config_lines (config_entry out (trim_space l) (cut_prefix (lit "# CONFIG_") (trim_space l))) ls

abbrev shown_config : Git → Text → Text → Result Text Env
shown_config git ref file = elim (is_empty file) [
  | true ↦ ok []
  | false ↦ do
    body ← git (lit "show" ∷ (ref <> lit ":" <> file) ∷ [])
    ok (config_lines [] (lines body))
]

-- `git.kernelConfig`.
unfoldable pub kernel_config : Git → Text → Result Text Env
unfolding config_file config_lines lines
kernel_config git ref = do
  names ← git (lit "ls-tree" ∷ lit "--name-only" ∷ ref ∷ lit "kernel/" ∷ [])
  shown_config git ref (config_file [] (lines names))

-- `cmp.Or(m[opt], "n")`.
unfoldable pub setting : Env → Text → Text
setting m opt = if is_empty (value_of m opt) then lit "n" else value_of m opt

unfoldable pub option_lines : Env → Env → List Text → List Text
unfolding setting
option_lines old cur [] = []
option_lines old cur (opt ∷ opts) =
    let rest = option_lines old cur opts in
    if text_eq (setting old opt) (setting cur opt)
    then rest
    else (lit "- `CONFIG_" <> opt <> lit "` " <> setting old opt <> arrow <> setting cur opt) ∷ rest

-- `writeKernelConfig`.
unfoldable pub write_kernel_config : Git → Text → Text → Result Text Text
unfolding kernel_config option_lines sorted_keys
write_kernel_config git from to = do
  old ← kernel_config git from
  cur ← kernel_config git to
  ok (section (lit "Kernel configuration") (option_lines old cur (sorted_keys old cur)))
