-- ===== src/Machine/Fingerprint.antt =====
-- `Spec.Fingerprint` of machine/machine.go. The BIOS file's size, the host's CPU and the hash are
-- parameters: they are the file system's, the host's and the hash function's.
pub mod Stream
pub mod Machine
pub mod Same
use mathlib.Core.List.{flat_map}
use spin_machine.Common.{
  ℕ, Text, lit, ◌<>◌, Bool, true, false, List, [], ◌∷◌, ◌++◌, map, Result, ok, err, ◌>>=◌, wrap,
  length,
}
use spin_machine.Common.Numeral.{decimal}
use spin_machine.Common.Split.{cut_before}
use spin_machine.Cmdline.{when}
use spin_machine.Machine.Types.{Spec}
use spin_machine.Machine.Shape.{shape, derived_from_host}
use spin_machine.Machine.Command.{bios}
use spin_machine.Machine.Contract.{contract}

abbrev pub Entry : Type 0
Entry = Text × Text

-- `write`: a key, the value's length, the value.
unfoldable pub write : Entry → Text
write (key, value) = key <> lit "=" <> decimal (length value) <> lit ":" <> value <> lit "\n"

-- What the hash has been given after some calls of `write`.
unfoldable pub stream : List Entry → Text
unfolding write flat_map
stream es = flat_map write es

-- Whether the host's CPU is part of the machine: `shape.CPU` up to its first comma.
unfoldable pub shows_host : Spec → Bool
shows_host s = derived_from_host (cut_before (shape s).cpu b',')

-- `for _, c := range s.Contract()`.
abbrev pub contract_entries : List Text → List Entry
contract_entries [] = []
contract_entries (c ∷ cs) = (lit "contract", c) ∷ contract_entries cs

-- The entry of the host's CPU, where there is one.
abbrev pub host_entries : Bool → Text → List Entry
host_entries true host = (lit "host-cpu", host) ∷ []
host_entries false host = []

-- The entries before the host's CPU.
unfoldable pub machine_entries : Spec → ℕ → List Entry
machine_entries s size =
    (lit "bios-size", decimal size)
    ∷ (lit "machine", (shape s).machine)
    ∷ (lit "accel", (shape s).accel)
    ∷ (lit "cpu", (shape s).cpu)
    ∷ (lit "smp", (shape s).smp)
    ∷ (lit "memory", (shape s).memory)
    ∷ contract_entries (contract s)

-- All the entries, where the host's CPU is known.
unfoldable pub entries : Spec → ℕ → Text → List Entry
unfolding machine_entries
entries s size host = machine_entries s size ++ host_entries (shows_host s) host

pub data FingerprintError : Type 0 where
  no_bios no_host_cpu : Text → FingerprintError

-- The rest of `fingerprint`, where the BIOS's size is known: the host's CPU is asked for only where
-- it is shown.
abbrev pub digest :
    Bool → (Text → List Entry) → (Text → Text) → Result Text Text → Result FingerprintError Text
digest true es hash host_cpu = do cpu ← wrap no_host_cpu host_cpu; ok (hash (stream (es cpu)))
digest false es hash host_cpu = ok (hash (stream (es [])))

-- `Spec.fingerprint`, with the host's CPU passed in.
unfoldable pub fingerprint :
    (Text → Text → Result Text ℕ)
    → (Text → Text)
    → Spec
    → Result Text Text
    → Result FingerprintError Text
fingerprint file_size hash s host_cpu = do
  size ← wrap no_bios (file_size s.firmware (bios s))
  digest (shows_host s) (entries s size) hash host_cpu
