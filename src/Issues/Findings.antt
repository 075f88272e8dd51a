-- ===== src/Issues/Findings.antt =====
-- `finding` and `readFindings` of hack/osvissues/main.go.
use spin_machine.Common.{
  ℕ, suc, Text, lit, Bool, true, false, not, ◌||◌, leb, List, [], ◌∷◌, ◌++◌, length, Option, none,
  some, Result, ok, err, ◌>>=◌, is_empty, has_byte, if◌then◌else◌,
}
use spin_machine.Common.Split.{split, cut_before}
use spin_machine.Release.Manifest.{scanned, drop_return, max_token, cut_after}

pub record Finding : Type 0 where
  pub id : Text
  pub pkg : Text
  pub summary : Text

-- `finding.name`.
abbrev pub name : Finding → Text
name f = cut_before f.pkg b'@'

pub data FindingsError : Type 0 where
  malformed : ℕ → Text → FindingsError
  unread : Text → FindingsError

-- The columns of a line after the first tab, and those of one that has another.
unfoldable pub read_finding : ℕ → Text → Result FindingsError Finding
read_finding n line =
    let id = cut_before line b'\t' in
    let rest = cut_after line b'\t' in
    if not (has_byte b'\t' line) || is_empty id || not (has_byte b'@' (cut_before rest b'\t'))
    then err (malformed n line)
    else ok (record { id = id; pkg = cut_before rest b'\t'; summary = cut_after rest b'\t' })

-- One round of the loop of `readFindings`: an empty line is passed over.
abbrev pub add_finding : Bool → ℕ → Text → List Finding → Result FindingsError (List Finding)
add_finding true n line fs = ok fs
add_finding false n line fs = do f ← read_finding n line; ok (fs ++ f ∷ [])

-- The loop, from line `n` on, to the end of what was read.
unfoldable pub read_lines :
    List Finding → ℕ → Option Text → List Text → Result FindingsError (List Finding)
unfolding read_finding drop_return
read_lines fs n none [] = ok fs
read_lines fs n (some e) [] = err (unread e)
read_lines fs n end (line ∷ lines) = elim (leb max_token (length line)) [
  | true ↦ err (unread (lit "bufio.Scanner: token too long"))
  | false ↦ do
    fs' ← add_finding (is_empty (drop_return line)) n (drop_return line) fs
    read_lines fs' (suc n) end lines
]

-- `readFindings`, of the bytes read and the error that ended them early, if any.
unfoldable pub read_findings : Text → Option Text → Result FindingsError (List Finding)
unfolding read_lines scanned
read_findings bytes end = read_lines [] 1 end (scanned (split bytes b'\n'))
