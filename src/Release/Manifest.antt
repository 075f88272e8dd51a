-- ===== src/Release/Manifest.antt =====
-- `readEnv` of machine/release.go.
use mathlib.Core.List.{reverse}
use spin_machine.Common.{
  ℕ, suc, Text, lit, Bool, true, false, ◌||◌, not, ◌==◌, leb, List, [], ◌∷◌, length, Option, none,
  some, Result, ok, err, ◌>>=◌, is_empty, has_byte, text_eq, if◌then◌else◌,
}
use spin_machine.Common.Split.{split, cut_before}
use spin_machine.Release.Trim.{trim_space}

-- What opening and reading a file gives: its bytes, and the error that ended them early, if any.
pub data File : Type 0 where
  missing : File
  refused : Text → File
  opened : Text → Option Text → File

-- A map of the manifest, the newest entry first.
abbrev pub Env : Type 0
Env = List (Text × Text)

unfoldable pub value_of : Env → Text → Text
value_of [] key = []
value_of ((k, v) ∷ env) key = let rest = value_of env key in if text_eq k key then v else rest

pub data ManifestError : Type 0 where
  not_opened : Text → ManifestError
  not_a_pair : ℕ → Text → ManifestError
  not_read : Text → ManifestError

-- `bufio.Scanner` with `ScanLines`: the lines, without a carriage return at the end, and nothing
-- for what follows the last line feed if that is empty.
unfoldable pub behind_return : Text → Text
behind_return [] = []
behind_return (c ∷ r) = if c == 13 then r else c ∷ r

unfoldable pub drop_return : Text → Text
unfolding behind_return
drop_return s = reverse (behind_return (reverse s))

unfoldable pub scanned : List Text → List Text
scanned [] = []
scanned (line ∷ []) = if is_empty line then [] else line ∷ []
scanned (line ∷ next ∷ lines) = line ∷ scanned (next ∷ lines)

-- The size of the scanner's buffer, which a line and its line feed must fit.
abbrev pub max_token : ℕ
max_token = 65536

abbrev pub starts_with : Text → ℕ → Bool
starts_with [] b = false
starts_with (c ∷ s) b = c == b

-- What follows the first separator.
unfoldable pub cut_after : Text → ℕ → Text
cut_after [] sep = []
cut_after (c ∷ s) sep = let rest = cut_after s sep in if c == sep then s else rest

-- One round of the loop, for a trimmed line.
unfoldable pub read_line : Env → ℕ → Text → Result ManifestError Env
read_line env n line =
    if is_empty line || starts_with line b'#'
    then ok env
    else if not (has_byte b'=' line) || is_empty (trim_space (cut_before line b'='))
    then err (not_a_pair n line)
    else ok ((trim_space (cut_before line b'='), trim_space (cut_after line b'=')) ∷ env)

-- The loop, from line `n` on. A line that does not fit ends it, as does the end of what was read.
unfoldable pub read_lines : Env → ℕ → Option Text → List Text → Result ManifestError Env
unfolding read_line drop_return
read_lines env n none [] = ok env
read_lines env n (some e) [] = err (not_read e)
read_lines env n end (line ∷ lines) = elim (leb max_token (length line)) [
  | true ↦ err (not_read (lit "bufio.Scanner: token too long"))
  | false ↦ do
    env' ← read_line env n (trim_space (drop_return line))
    read_lines env' (suc n) end lines
]

-- `readEnv`.
unfoldable pub read_env : File → Result ManifestError Env
unfolding read_lines scanned
read_env missing = ok []
read_env (refused e) = err (not_opened e)
read_env (opened bytes end) = read_lines [] 1 end (scanned (split bytes b'\n'))
