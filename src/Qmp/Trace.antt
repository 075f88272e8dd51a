-- ===== src/Qmp/Trace.antt =====
-- What the log of a connection (cmd/spin-machine/main.go) says: what was sent, what was reported, and
-- what QEMU has, where it does what it answers without an error.
use spin_machine.Common.{
  is_none, All, contains, ◌≡◌, Bool-cases, inl, inr, true, Text, Bool, false, ◌&&◌, ◌||◌, List, [],
  ◌∷◌, is_empty, text_eq, if◌then◌else◌,
}
use spin_machine.Qmp.Wire.{
  Command, blockdev_add, blockdev_del, device_add, Message, Event, wrote, lost, got, told, Conn,
}
use spin_machine.Qmp.Session.{Outcome, returned, blocked, spent, is_deleted}

-- The connection that an outcome leaves.
abbrev pub conn_of : {A : Type 0} → Outcome A → Conn
conn_of (returned r c) = c
conn_of (blocked c) = c
conn_of (spent c) = c

-- The commands that were written, the newest first.
unfoldable pub sent : List Event → List Command
sent [] = []
sent (wrote cmd ∷ log) = cmd ∷ sent log
sent (lost _ ∷ log) = sent log
sent (got _ ∷ log) = sent log
sent (told _ ∷ log) = sent log

-- Whether QEMU has reported a device deleted.
unfoldable pub reported : Text → List Event → Bool
reported id [] = false
reported id (got m ∷ log) = is_deleted m && text_eq m.device id || reported id log
reported id (wrote _ ∷ log) = reported id log
reported id (lost _ ∷ log) = reported id log
reported id (told _ ∷ log) = reported id log

-- Where QEMU stands with the newest command.
pub data Doing : Type 0 where
  idle : Doing
  waiting denied unheard : Command → Doing

-- What QEMU has: its block nodes and its devices.
pub record Vm : Type 0 where
  pub nodes : List Text
  pub devices : List Text
  pub doing : Doing

unfoldable pub remove : Text → List Text → List Text
remove x [] = []
remove x (y ∷ ys) = let rest = remove x ys in if text_eq y x then rest else y ∷ rest

-- Devices of which each is one of those before.
abbrev pub IsWithin : List Text → List Text → Type 0
IsWithin old ds = All (λ d. contains old d ≡ true) ds

pub remove-IsWithin :
    (old : List Text) (x : Text) (ds : List Text) → IsWithin old ds → IsWithin old (remove x ds)
unfolding remove
remove-IsWithin old x [] h = tt
remove-IsWithin old x (d ∷ ds) (p, h) = elim (Bool-cases (text_eq d x)) [
  | inl e ↦ rw e (remove-IsWithin old x ds h)
  | inr e ↦ rw e (p, remove-IsWithin old x ds h)
]

-- The block nodes after a command that is answered without an error.
unfoldable pub nodes_after : Command → List Text → List Text
unfolding remove
nodes_after (blockdev_add node _ _ _) nodes = node ∷ nodes
nodes_after (blockdev_del node) nodes = remove node nodes
nodes_after cmd nodes = nodes

-- The devices after it. `device_del` only asks: the device goes with its event.
unfoldable pub devices_after : Command → List Text → List Text
devices_after (device_add dev) devices = dev.id ∷ devices
devices_after cmd devices = devices

-- The answer to the newest command.
unfoldable pub answered : Bool → Doing → Vm → Vm
unfolding nodes_after devices_after
answered good (waiting cmd) vm =
    if good
    then record {
      nodes = nodes_after cmd vm.nodes;
      devices = devices_after cmd vm.devices;
      doing = idle;
    }
    else record vm { doing = denied cmd }
answered good idle vm = vm
answered good (denied _) vm = vm
answered good (unheard _) vm = vm

-- A message: an event, of which one takes a device away, or an answer.
unfoldable pub told_by : Message → Vm → Vm
unfolding answered
told_by m vm =
    if is_deleted m
    then record vm { devices = remove m.device vm.devices }
    else if is_empty m.event
    then answered (is_none m.error) vm.doing vm
    else vm

-- QEMU after a log, from what it was.
unfoldable pub replay : Vm → List Event → Vm
unfolding told_by
replay vm [] = vm
replay vm (wrote cmd ∷ log) = record (replay vm log) { doing = waiting cmd }
replay vm (lost cmd ∷ log) = record (replay vm log) { doing = unheard cmd }
replay vm (got m ∷ log) = told_by m (replay vm log)
replay vm (told _ ∷ log) = replay vm log
