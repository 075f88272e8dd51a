-- ===== src/Qmp/Commands.antt =====
-- The commands of cmd/spin-machine/main.go that act on a running machine.
use spin_machine.Common.{
  ℕ, zero, suc, ◌*◌, ◌/◌, ◌%◌, ◌^◌, Text, lit, ◌<>◌, Bool, true, false, not, ◌||◌, ◌==◌, is_empty,
  text_eq, length, if◌then◌else◌,
}
use spin_machine.Common.Int.{ℤ, pos, ◌+ℤ◌, ◌-ℤ◌, ltb_ℤ, pos_part}
use spin_machine.Common.Numeral.{itoa}
use spin_machine.Machine.Types.{max_hotplug_disks}
use spin_machine.Machine.Command.{virtio_mem_id}
use spin_machine.Machine.Args.{hotplug_disk}
use spin_machine.Qmp.Wire.{
  blockdev_add, blockdev_del, device_add, device_del, qom_set, qom_get, migrate, migrate_incoming,
  query_status, cont, quit, Peer, Status, status, decode_size, decode_status, attached, detached,
  plugged, fell_short, saved, restored,
}
use spin_machine.Qmp.Session.{
  missing_flags, bad_target, unresolved, not_reached, about, spent, Qmp, pure, fail, ◌>>=◌, ◌>>◌,
  recover, explain, ignore, require, lift, tell, now, run, run_, finally_close, Host, dial_qmp,
}
use spin_machine.Qmp.Wait.{wait_deleted, wait_migration}

unfoldable pub hotplug_disk_id : ℤ → Text
hotplug_disk_id target = lit "hd" <> itoa target

unfoldable pub hotplug_drive_id : ℤ → Text
hotplug_drive_id target = lit "hd" <> itoa target <> lit "-drive"

-- `checkTarget`.
unfoldable pub check_target : ℤ → Qmp (Unit {0})
check_target target =
    require (ltb_ℤ target (pos 0) || not (ltb_ℤ target (pos max_hotplug_disks))) (bad_target target)

pub record AttachFlags : Type 0 where
  pub qmp : Text
  pub target : ℤ
  pub disk : Text
  pub format : Text
  pub readonly : Bool
  pub serial : Text

-- The conversation of `attach`.
unfoldable pub attach_disk : Peer → AttachFlags → Text → Qmp (Unit {0})
attach_disk peer o path = do
  explain (lit "opening " <> path)
      (run_ peer (blockdev_add (hotplug_drive_id o.target) o.format o.readonly path))
  recover
      (run_ peer (
        device_add
          (hotplug_disk o.target (hotplug_disk_id o.target) (hotplug_drive_id o.target) o.serial)))
      (λ e. do
        ignore (run_ peer (blockdev_del (hotplug_drive_id o.target)))
        fail (about (lit "adding " <> path <> lit " at target " <> itoa o.target) e))
  tell (attached path o.target)

-- `attach`.
unfoldable pub attach : Host → AttachFlags → Qmp (Unit {0})
unfolding check_target attach_disk
attach host o = do
  require (is_empty o.qmp || is_empty o.disk) missing_flags
  explain (lit "attach") (check_target o.target)
  path ← lift (unresolved o.disk) (host.abs o.disk)
  dial_qmp host o.qmp
  finally_close (attach_disk host.peer o path)

pub record DetachFlags : Type 0 where
  pub qmp : Text
  pub target : ℤ
  pub timeout : ℤ

-- The conversation of `detach`.
unfoldable pub detach_disk : Peer → DetachFlags → Qmp (Unit {0})
detach_disk peer o = do
  start ← now peer
  explain (lit "removing the disk at target " <> itoa o.target)
      (run_ peer (device_del (hotplug_disk_id o.target)))
  explain (lit "QEMU did not report the disk at target " <> itoa o.target <> lit " gone")
      (wait_deleted peer (hotplug_disk_id o.target) o.timeout)
  end ← now peer
  explain (lit "closing the disk at target " <> itoa o.target)
      (run_ peer (blockdev_del (hotplug_drive_id o.target)))
  tell (detached o.target (end -ℤ start))

-- `detach`.
unfoldable pub detach : Host → DetachFlags → Qmp (Unit {0})
unfolding check_target detach_disk
detach host o = do
  require (is_empty o.qmp) missing_flags
  explain (lit "detach") (check_target o.target)
  dial_qmp host o.qmp
  finally_close (detach_disk host.peer o)

pub record MemoryFlags : Type 0 where
  pub qmp : Text
  pub size_mb : ℤ
  pub timeout : ℤ

-- `"/machine/peripheral/" + machine.VirtioMemID`.
unfoldable pub mem_path : Text
mem_path = lit "/machine/peripheral/" <> virtio_mem_id

-- `uint64(o.sizeMB) << 20`, for a size that is not negative.
unfoldable pub wanted_bytes : ℤ → ℕ
wanted_bytes size_mb = (pos_part size_mb * 2 ^ 20) % 2 ^ 64

-- The rest of a round that read `size` at `t`, by whether it is too late for another.
abbrev pub unless_short : MemoryFlags → ℤ → ℕ → ℤ → Bool → Qmp (Unit {0}) → Qmp (Unit {0})
unless_short o start size t true more = do
  tell (fell_short (size / 2 ^ 20) (t -ℤ start) o.size_mb)
  fail (not_reached (size / 2 ^ 20) o.size_mb)
unless_short o start size t false more = more

-- The rest of a round, by whether `size` is what was asked for.
abbrev pub unless_plugged :
    Peer → MemoryFlags → ℤ → ℤ → ℕ → ℤ → Bool → Qmp (Unit {0}) → Qmp (Unit {0})
unless_plugged peer o start deadline size t true more = tell (plugged (size / 2 ^ 20) (t -ℤ start))
unless_plugged peer o start deadline size t false more = do
  later ← now peer
  unless_short o start size t (ltb_ℤ deadline later) more

-- The loop of `memory`, with the rounds that it may still take.
unfoldable pub poll_size : Peer → MemoryFlags → ℤ → ℤ → ℕ → Qmp (Unit {0})
unfolding wanted_bytes mem_path
poll_size peer o start deadline zero c = spent c
poll_size peer o start deadline (suc rounds) c =
    (do
      size ←
          explain (lit "reading the plugged size")
            (run peer (qom_get mem_path (lit "size")) decode_size)
      t ← now peer
      unless_plugged peer o start deadline size t (size == wanted_bytes o.size_mb)
          (poll_size peer o start deadline rounds))
      c

-- The conversation of `memory`.
unfoldable pub resize_memory : Peer → MemoryFlags → Qmp (Unit {0})
unfolding poll_size
resize_memory peer o = do
  start ← now peer
  explain (lit "asking for " <> itoa o.size_mb <> lit " MiB")
      (run_ peer (qom_set mem_path (lit "requested-size") (wanted_bytes o.size_mb)))
  λ c. poll_size peer o start (start +ℤ o.timeout) (suc (length c.reads)) c

-- `memory`.
unfoldable pub memory : Host → MemoryFlags → Qmp (Unit {0})
unfolding resize_memory
memory host o = do
  require (is_empty o.qmp || ltb_ℤ o.size_mb (pos 0)) missing_flags
  dial_qmp host o.qmp
  finally_close (resize_memory host.peer o)

pub record SaveFlags : Type 0 where
  pub qmp : Text
  pub to : Text
  pub timeout : ℤ

-- The conversation of `save`.
unfoldable pub save_state : Peer → SaveFlags → Text → Qmp (Unit {0})
save_state peer o to = do
  explain (lit "starting the save") (run_ peer (migrate (lit "file:" <> to)))
  explain (lit "the save") (wait_migration peer o.timeout)
  tell (saved to)
  ignore (run_ peer quit)

-- `save`.
unfoldable pub save : Host → SaveFlags → Qmp (Unit {0})
unfolding save_state
save host o = do
  require (is_empty o.qmp || is_empty o.to) missing_flags
  to ← lift (unresolved o.to) (host.abs o.to)
  dial_qmp host o.qmp
  finally_close (save_state host.peer o to)

pub record RestoreFlags : Type 0 where
  pub qmp : Text
  pub from : Text
  pub timeout : ℤ

-- A machine that does not run is started.
unfoldable pub start_restored : Peer → Status → Qmp (Unit {0})
start_restored peer (status s _) =
    if text_eq s (lit "running")
    then pure tt
    else explain (lit "starting the restored VM (it was " <> s <> lit ")") (run_ peer cont)

-- The conversation of `restore`.
unfoldable pub restore_state : Peer → RestoreFlags → Text → Qmp (Unit {0})
unfolding start_restored
restore_state peer o from = do
  explain (lit "loading " <> from) (run_ peer (migrate_incoming (lit "file:" <> from)))
  explain (lit "loading " <> from) (wait_migration peer o.timeout)
  s ← run peer query_status decode_status
  start_restored peer s
  tell (restored from)

-- `restore`.
unfoldable pub restore : Host → RestoreFlags → Qmp (Unit {0})
unfolding restore_state
restore host o = do
  require (is_empty o.qmp || is_empty o.from) missing_flags
  from ← lift (unresolved o.from) (host.abs o.from)
  dial_qmp host o.qmp
  finally_close (restore_state host.peer o from)

-- The commands that hold a conversation, with their flags.
pub data Task : Type 0 where
  attaching : AttachFlags → Task
  detaching : DetachFlags → Task
  resizing : MemoryFlags → Task
  saving : SaveFlags → Task
  restoring : RestoreFlags → Task

-- What `run` calls for each.
unfoldable pub perform : Host → Task → Qmp (Unit {0})
unfolding attach detach memory save restore
perform host (attaching o) = attach host o
perform host (detaching o) = detach host o
perform host (resizing o) = memory host o
perform host (saving o) = save host o
perform host (restoring o) = restore host o
