-- ===== src/Tool/Commands.antt =====
-- `boot` and `fingerprint` of cmd/spin-machine/main.go: what becomes of the process, and what is
-- printed. `exec.LookPath`, the call that replaces the process and `filepath.Join` are parameters.
use spin_machine.Common.{Text, Bool, List, ◌∷◌, Option, none, some, Result, ok, err, ◌>>=◌, wrap}
use spin_machine.Machine.Contract
use spin_machine.Machine.Command
use spin_machine.Machine.Shape
use spin_machine.Machine.Types.{Spec}
use spin_machine.Machine.Types as Types
use spin_machine.Machine.Validate.{SpecError}
use spin_machine.Tool.{qemu_args}

pub data BootError : Type 0 where
  bad_spec : SpecError → BootError
  no_qemu : Text → BootError
  not_executed : Text → Text → BootError

-- The call that replaces the process returns only an error.
abbrev replaced : Text → List Text → Option Text → Result BootError (Text × List Text)
replaced qemu args none = ok (qemu, args)
replaced qemu args (some e) = err (not_executed qemu e)

-- `boot`: the binary and the arguments that the process becomes, or an error.
unfoldable pub boot :
    (Text → Result Text Text)
    → (Text → List Text → Option Text)
    → Spec
    → Bool
    → Result BootError (Text × List Text)
unfolding qemu_args
boot look_path exec s scratch = do
  args ← wrap bad_spec (qemu_args s scratch)
  qemu ← wrap no_qemu (look_path s.qemu)
  replaced qemu (qemu ∷ args) (exec qemu (qemu ∷ args))

-- What `fingerprint` encodes as JSON.
pub record Identity : Type 0 where
  pub fingerprint : Text
  pub shape : Types.Shape
  pub contract : List Text
  pub bios : Text

unfoldable pub identity :
    {E : Type 0} → (Text → Text → Text) → Result E Text → Spec → Result E Identity
identity join found s = do
  fp ← found
  ok (record {
    fingerprint = fp;
    shape = Shape.shape s;
    contract = Contract.contract s;
    bios = join s.firmware (Command.bios s);
  })
