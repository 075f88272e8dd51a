-- ===== src/Qmp/Wire.antt =====
-- What passes between the commands of cmd/spin-machine/main.go and QEMU, and the state of a
-- connection. JSON is what its decoder makes of it.
use spin_machine.Common.{
  ℕ, Text, lit, Bool, List, [], ◌∷◌, Option, none, some, Result, ok, err, text_eq, if◌then◌else◌,
  ltb, ◌^◌,
}
use spin_machine.Common.Int.{ℤ}
use spin_machine.Machine.Args.{DeviceAdd}

-- The commands that are sent, each with its arguments.
pub data Command : Type 0 where
  qmp_capabilities query_migrate query_status cont quit : Command
  blockdev_add : Text → Text → Bool → Text → Command
  blockdev_del device_del migrate migrate_incoming : Text → Command
  device_add : DeviceAdd → Command
  qom_set : Text → Text → ℕ → Command
  qom_get : Text → Text → Command

-- The `execute` of a command.
abbrev pub name : Command → Text
name qmp_capabilities = lit "qmp_capabilities"
name query_migrate = lit "query-migrate"
name query_status = lit "query-status"
name cont = lit "cont"
name quit = lit "quit"
name (blockdev_add _ _ _ _) = lit "blockdev-add"
name (blockdev_del _) = lit "blockdev-del"
name (device_del _) = lit "device_del"
name (migrate _) = lit "migrate"
name (migrate_incoming _) = lit "migrate-incoming"
name (device_add _) = lit "device_add"
name (qom_set _ _ _) = lit "qom-set"
name (qom_get _ _) = lit "qom-get"

-- A returned value: a number, an object by its text members, or something else.
pub data Value : Type 0 where
  null other : Value
  number : ℕ → Value
  object : List (Text × Text) → Value

-- `qmpError`.
pub record Refusal : Type 0 where
  pub class : Text
  pub desc : Text

-- `qmpMessage`: an absent text is empty.
pub record Message : Type 0 where
  pub event : Text
  pub device : Text
  pub return : Option Value
  pub error : Option Refusal

-- What a read of the socket gives; `late` is the error of a deadline that has passed.
pub data Incoming : Type 0 where
  message : Message → Incoming
  broken : Text → Incoming
  late : Incoming

-- What a command says of its work.
pub data Report : Type 0 where
  attached : Text → ℤ → Report
  detached : ℤ → ℤ → Report
  plugged : ℕ → ℤ → Report
  fell_short : ℕ → ℤ → ℤ → Report
  saved restored : Text → Report

-- What has happened on a connection; `lost` is a command that could not be written.
pub data Event : Type 0 where
  wrote lost : Command → Event
  got : Message → Event
  told : Report → Event

-- `qmpConn`, with what its socket will still give and a log of its past, the newest event first.
pub record Conn : Type 0 where
  pub reads : List Incoming
  pub deleted : List Text
  pub log : List Event
  pub deadline : Option ℤ
  pub closed : Bool
  pub calls : ℕ

-- The socket's errors and the clock, by the number of calls before.
pub record Peer : Type 0 where
  pub write_error : ℕ → Option Text
  pub deadline_error : ℕ → Option Text
  pub clock : ℕ → ℤ

-- The decoded `Return` of a message. A message without one is no JSON.
pub data Status : Type 0 where
  status : Text → Text → Status

unfoldable pub member : Text → List (Text × Text) → Text
member key [] = []
member key ((k, v) ∷ fs) = let rest = member key fs in if text_eq k key then v else rest

-- `json.Unmarshal` into a `uint64`. A null leaves what was there, which is zero.
unfoldable pub decode_size : Option Value → Result Text ℕ
decode_size none = err (lit "unexpected end of JSON input")
decode_size (some null) = ok 0
decode_size (some (number n)) =
    if ltb n (2 ^ 64) then ok n else err (lit "cannot unmarshal number into uint64")
decode_size (some (object _)) = err (lit "cannot unmarshal object into uint64")
decode_size (some other) = err (lit "cannot unmarshal into uint64")

-- `json.Unmarshal` into a structure of `status` and `error-desc`.
unfoldable pub decode_status : Option Value → Result Text Status
unfolding member
decode_status none = err (lit "unexpected end of JSON input")
decode_status (some null) = ok (status [] [])
decode_status (some (object fs)) =
    ok (status (member (lit "status") fs) (member (lit "error-desc") fs))
decode_status (some (number _)) = err (lit "cannot unmarshal number into struct")
decode_status (some other) = err (lit "cannot unmarshal into struct")

-- Where no value is wanted, what is returned is not looked at.
abbrev pub decode_nothing : Option Value → Result Text (Unit {0})
decode_nothing _ = ok tt
