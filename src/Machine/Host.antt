-- ===== src/Machine/Host.antt =====
-- `hostCPUModel` of machine/machine.go, of what reading /proc/cpuinfo gives.
use spin_machine.Common.{
  ◌≡◌, refl, Text, lit, true, false, leb, List, [], ◌∷◌, ◌++◌, length, Option, none, some, Result,
  ok, err, has_byte, All, ◌<◌, arith, if◌then◌else◌,
}
use spin_machine.Common.Split.{split}
use spin_machine.Issues.Links.{cut_prefix}
use spin_machine.Release.Manifest.{
  File, missing, refused, opened, scanned, drop_return, max_token, cut_after,
}
use spin_machine.Release.Trim.{trim_space}

pub data HostError : Type 0 where
  not_opened : HostError
  refused_with : Text → HostError
  not_read : Text → HostError
  no_model_name : HostError

-- What a line gives: the value behind the colon of a model name.
abbrev model_of : Option Text → Option Text
model_of none = none
model_of (some name) = if has_byte b':' name then some (trim_space (cut_after name b':')) else none

unfoldable pub model_line : Text → Option Text
unfolding cut_prefix drop_return
model_line line = model_of (cut_prefix (lit "model name") (drop_return line))

-- The loop, to the end of what was read. A line that does not fit the scanner ends it.
unfoldable pub model_from : Option Text → List Text → Result HostError Text
unfolding model_line
model_from none [] = err no_model_name
model_from (some e) [] = err (not_read e)
model_from end (line ∷ lines) = elim (leb max_token (length line)) [
  | true ↦ err (not_read (lit "bufio.Scanner: token too long"))
  | false ↦ elim (model_line line) [ some value ↦ ok value | none ↦ model_from end lines ]
]

-- `hostCPUModel`.
unfoldable pub host_cpu_model : File → Result HostError Text
unfolding model_from scanned
host_cpu_model missing = err not_opened
host_cpu_model (refused e) = err (refused_with e)
host_cpu_model (opened bytes end) = model_from end (scanned (split bytes b'\n'))

-- A line that is passed over: one that fits, and gives no model.
abbrev pub IsPassed : Text → Type 0
IsPassed line = (length line < max_token) × (model_line line ≡ none)

fits : (line : Text) → length line < max_token → leb max_token (length line) ≡ false
fits line h = ground arith

-- The model is that of the first processor: whatever lines are behind it, and however the reading
-- ends, the first line that gives one decides.
pub model_from_first :
    (end : Option Text) (before after : List Text) (line value : Text)
    → All IsPassed before
    → length line < max_token
    → model_line line ≡ some value
    → model_from end (before ++ line ∷ after) ≡ ok value
unfolding model_from
model_from_first none [] after line value _ l h = rw (model_from, fits line l, h) refl
model_from_first (some e) [] after line value _ l h = rw (model_from, fits line l, h) refl
model_from_first none (b ∷ before) after line value ((k, p), hs) l h =
    rw (model_from, fits b k, p) (model_from_first none before after line value hs l h)
model_from_first (some e) (b ∷ before) after line value ((k, p), hs) l h =
    rw (model_from, fits b k, p) (model_from_first (some e) before after line value hs l h)
