-- ===== src/Qmp/Protocol.antt =====
-- The orders that the commands of cmd/spin-machine/main.go keep: what is sent and said only after what.
use spin_machine.Common.{
  ℕ, ap, sym, arith, ==_iff, ◌/◌, ◌^◌, ◌==◌, Text, lit, ◌≡◌, ◌≢◌, refl, true, false, List, [], ◌∷◌,
  text_eq,
}
use spin_machine.Common.Int.{ℤ}
use spin_machine.Qmp.Wire.{
  Command, qmp_capabilities, query_migrate, query_status, cont, quit, blockdev_del, device_del,
  migrate, migrate_incoming, qom_set, qom_get, Event, wrote, lost, got, told, Conn, detached,
  plugged, fell_short, saved, restored, status, decode_size, decode_status,
}
use spin_machine.Qmp.Session.{Outcome, Host}
use spin_machine.Qmp.Commands.{
  Task, attaching, detaching, resizing, saving, restoring, perform, DetachFlags, detach,
  MemoryFlags, memory, RestoreFlags, restore, hotplug_disk_id, hotplug_drive_id, mem_path,
  wanted_bytes,
}
use spin_machine.Qmp.Trace.{sent, reported}
use spin_machine.Qmp.Logic.{Ends, Ends-imp, Does}
use spin_machine.Qmp.Rules.{Answered, AllReported}
use spin_machine.Qmp.Steady.{Completed}
use spin_machine.Qmp.Watched.{Guarded, Watched, Sent}
use spin_machine.Qmp.Detaching.{detach-Sent}
use spin_machine.Qmp.Migrating.{Resumed, save-Watched, restore-Watched}
use spin_machine.Qmp.Changing.{memory-Watched, attach-Watched}

-- No restriction.
abbrev pub Anything : Event → List Event → Type 0
Anything e log = Unit

Guarded-Anything : (log : List Event) → Guarded Anything log
unfolding Guarded
Guarded-Anything [] = tt
Guarded-Anything (wrote _ ∷ log) = (tt, Guarded-Anything log)
Guarded-Anything (lost _ ∷ log) = Guarded-Anything log
Guarded-Anything (got _ ∷ log) = Guarded-Anything log
Guarded-Anything (told _ ∷ log) = (tt, Guarded-Anything log)

perform-Watched :
    (host : Host) (task : Task) (cmds : List Command)
    → Does
        (Sent Anything cmds)
        (perform host task)
        (λ _. Watched Anything)
        (Watched Anything)
        (Watched Anything)
unfolding perform
perform-Watched host (attaching o) cmds =
    attach-Watched Anything (λ _. tt) o (λ _ _. tt) (λ _. tt) (λ _. tt) (λ _ _. tt) host cmds
perform-Watched host (detaching o) cmds = λ c h.
    Ends-imp {A = Unit {0}}
      (λ _. Sent Anything (
        blockdev_del (hotplug_drive_id o.target)
        ∷ device_del (hotplug_disk_id o.target)
        ∷ qmp_capabilities
        ∷ cmds))
      (λ _. Watched Anything) (Watched Anything) (Watched Anything) (detach host o c)
      (λ _ log ids (h, _). h) (λ log ids h. h)
      (detach-Sent Anything o (λ _. tt) (λ _ _. tt) (λ _ _. tt) host cmds (λ _. tt) c h)
perform-Watched host (resizing o) cmds =
    memory-Watched Anything (λ _. tt) o (λ _. tt) (λ _. tt) (λ _ _ _ _ _. tt) (λ _ _ _ _ _. tt) host
      cmds
perform-Watched host (saving o) cmds =
    save-Watched Anything (λ _. tt) (λ _. tt) (λ _ _. tt) (λ _ _ _. tt) (λ _ _ _. tt) host o cmds
perform-Watched host (restoring o) cmds =
    restore-Watched Anything (λ _. tt) (λ _. tt) (λ _ _. tt) (λ _. tt) (λ _ _ _ _ _. tt)
      (λ _ _ _. tt) host o cmds

-- Whatever the host, the clock and QEMU do, a command ends with a value, an error or a wait for a
-- read: its loops do not run out of the rounds they are given. A device is kept as deleted only when
-- QEMU reported it so, and each command keeps that.
pub perform-AllReported :
    (host : Host) (task : Task)
    → Does AllReported (perform host task) (λ _. AllReported) AllReported AllReported
perform-AllReported host task c h =
    Ends-imp {A = Unit {0}} (λ _. Watched Anything) (λ _. AllReported) (Watched Anything)
      AllReported (perform host task c) (λ _ log ids (h, _). h) (λ log ids (h, _). h)
      (perform-Watched host task (sent c.log) c ((h, Guarded-Anything c.log), refl))

-- What `detach` may send and say: the drive is closed when its device was reported gone.
abbrev pub Removal : ℤ → Event → List Event → Type 0
Removal target (wrote qmp_capabilities) log = Unit
Removal target (wrote (device_del id)) log = id ≡ hotplug_disk_id target
Removal target (wrote (blockdev_del node)) log =
    (node ≡ hotplug_drive_id target) × (reported (hotplug_disk_id target) log ≡ true)
Removal target (told (detached t _)) log = t ≡ target
Removal target e log = ⊥

-- A `detach` sends no command but the handshake, `device_del` of the target's device and, only after
-- QEMU has reported that device deleted, `blockdev-del` of its drive. This holds however it ends, from
-- a log where it holds, and where it ends well it has sent the three, each once and in this order.
pub detach-Removal :
    (host : Host) (o : DetachFlags) (c : Conn)
    → AllReported c.log c.deleted
    → Guarded (Removal o.target) c.log
    → Ends
        (λ _ log ids.
          Guarded (Removal o.target) log
          × (sent log
              ≡ blockdev_del (hotplug_drive_id o.target)
                ∷ device_del (hotplug_disk_id o.target)
                ∷ qmp_capabilities
                ∷ sent c.log))
        (λ log ids. Guarded (Removal o.target) log)
        (λ log ids. Guarded (Removal o.target) log)
        (detach host o c)
detach-Removal host o c h g =
    let R = Removal o.target in
    let cmds =
      blockdev_del (hotplug_drive_id o.target)
      ∷ device_del (hotplug_disk_id o.target)
      ∷ qmp_capabilities
      ∷ sent c.log in
    Ends-imp {A = Unit {0}} (λ _. Sent R cmds) (λ _ log ids. Guarded R log × (sent log ≡ cmds))
      (Watched R) (λ log ids. Guarded R log) (detach host o c) (λ _ log ids ((_, g), s). (g, s))
      (λ log ids (_, g). g)
      (detach-Sent R o (λ _. refl) (λ _ r. (refl, r)) (λ _ _. refl) host (sent c.log) (λ _. tt) c
        ((h, g), refl))

-- What `save` may send and say: it says so when QEMU's answer was that the migration is complete,
-- and quits right after.
abbrev pub Saving : Event → List Event → Type 0
Saving (wrote qmp_capabilities) log = Unit
Saving (wrote query_migrate) log = Unit
Saving (wrote (migrate _)) log = Unit
Saving (told (saved _)) log = Completed log
Saving (wrote quit) log =
    (to : Text) × (rest : List Event) × (log ≡ told (saved to) ∷ rest) × Completed rest
Saving e log = ⊥

-- What is allowed stays so in what a command of which only this is asked comes to.
allowed-Ends :
    (G : Event → List Event → Type 0) (o : Outcome (Unit {0}))
    → Ends (λ _. Watched G) (Watched G) (Watched G) o
    → Ends (λ _ log ids. Guarded G log) (λ log ids. Guarded G log) (λ log ids. Guarded G log) o
allowed-Ends G o =
    Ends-imp {A = Unit {0}} (λ _. Watched G) (λ _ log ids. Guarded G log) (Watched G)
      (λ log ids. Guarded G log) o (λ _ log ids (_, g). g) (λ log ids (_, g). g)

-- What `restore` may send and say: it starts a machine whose status is not that it runs, and says
-- that one is restored when it runs or the start was answered.
abbrev pub Restoring : Event → List Event → Type 0
Restoring (wrote qmp_capabilities) log = Unit
Restoring (wrote query_migrate) log = Unit
Restoring (wrote query_status) log = Unit
Restoring (wrote (migrate_incoming _)) log = Unit
Restoring (wrote cont) log =
    (s : Text) × (desc : Text) × (text_eq s (lit "running") ≡ false)
    × Answered decode_status (status s desc) log
Restoring (told (restored _)) log = Resumed log
Restoring e log = ⊥

-- A `restore` sends `cont` only where QEMU's newest answer is a status other than `running`, and says
-- that the machine is restored only where that answer is `running` or it is the answer to `cont`. This
-- holds however it ends, from a log where it holds.
pub restore-Restoring :
    (host : Host) (o : RestoreFlags) (c : Conn)
    → AllReported c.log c.deleted
    → Guarded Restoring c.log
    → Ends
        (λ _ log ids. Guarded Restoring log)
        (λ log ids. Guarded Restoring log)
        (λ log ids. Guarded Restoring log)
        (restore host o c)
restore-Restoring host o c h g = allowed-Ends Restoring (restore host o c) (
    restore-Watched Restoring (λ _. tt) (λ _. tt) (λ _ _. tt) (λ _. tt)
      (λ s desc log e a. (s, desc, e, a)) (λ _ _ r. r) host o (sent c.log) c ((h, g), refl))

==-false→ne : (a b : ℕ) → (a == b) ≡ false → a ≢ b
==-false→ne a b e = ground arith

-- What `memory` may send and say.
abbrev pub Resizing : ℤ → Event → List Event → Type 0
Resizing size_mb (wrote qmp_capabilities) log = Unit
Resizing size_mb (wrote (qom_set path key n)) log =
    (path ≡ mem_path) × (key ≡ lit "requested-size") × (n ≡ wanted_bytes size_mb)
Resizing size_mb (wrote (qom_get path key)) log = (path ≡ mem_path) × (key ≡ lit "size")
Resizing size_mb (told (plugged n _)) log =
    (n ≡ wanted_bytes size_mb / 2 ^ 20) × Answered decode_size (wanted_bytes size_mb) log
Resizing size_mb (told (fell_short n _ asked)) log =
    (asked ≡ size_mb)
    × (size : ℕ) × (n ≡ size / 2 ^ 20)
    × (size ≢ wanted_bytes size_mb)
    × Answered decode_size size log
Resizing size_mb e log = ⊥

-- A `memory` asks for the bytes of its size, says that they are plugged only where QEMU's newest
-- answer is that size exactly, and that the guest fell short only where it is another, of which it
-- says the MiB. This holds however it ends, from a log where it holds.
pub memory-Resizing :
    (host : Host) (o : MemoryFlags) (c : Conn)
    → AllReported c.log c.deleted
    → Guarded (Resizing o.size_mb) c.log
    → Ends
        (λ _ log ids. Guarded (Resizing o.size_mb) log)
        (λ log ids. Guarded (Resizing o.size_mb) log)
        (λ log ids. Guarded (Resizing o.size_mb) log)
        (memory host o c)
memory-Resizing host o c h g =
    let R = Resizing o.size_mb in
    allowed-Ends R (memory host o c) (
      memory-Watched R (λ _. tt) o (λ _. (refl, refl, refl)) (λ _. (refl, refl))
        (λ size took log e a.
          let q : size ≡ wanted_bytes o.size_mb = (==_iff size (wanted_bytes o.size_mb)).0 e in
          (ap (λ n. n / 2 ^ 20) q, rw (sym q) a))
        (λ size took log e a. (refl, size, refl, ==-false→ne size (wanted_bytes o.size_mb) e, a))
        host (sent c.log) c ((h, g), refl))
