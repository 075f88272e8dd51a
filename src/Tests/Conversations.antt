-- ===== src/Tests/Conversations.antt =====
-- Conversations of the commands of cmd/spin-machine/main.go, and the theorems at them.
use spin_machine.Common.{
  contains, text_eq, lit, ◌<>◌, ◌≡◌, refl, [], ◌∷◌, true, false, none, some, ok, List, Text, inl,
  inr, ◌<◌, ◌*◌, ◌/◌, ◌^◌, ◌+◌,
}
use spin_machine.Common.Int.{pos}
use spin_machine.Common.Numeral.{itoa}
use spin_machine.Qmp.Wire.{
  Value, null, object, number, Message, Incoming, message, Conn, Peer, blockdev_del, device_del,
  qmp_capabilities,
}
use spin_machine.Qmp.Session.{Host}
use spin_machine.Qmp.Commands.{
  AttachFlags, DetachFlags, MemoryFlags, SaveFlags, RestoreFlags, attach_disk, detach, memory,
  restore, perform, attaching, detaching, wanted_bytes, hotplug_disk_id, hotplug_drive_id,
}
use spin_machine.Qmp.Trace.{Vm, idle, replay, sent}
use spin_machine.Qmp.Run.{is_done}
use spin_machine.Qmp.Logic.{Ends}
use spin_machine.Qmp.Rules.{AllReported}
use spin_machine.Qmp.Watched.{Guarded}
use spin_machine.Qmp.Protocol.{
  perform-AllReported, Removal, detach-Removal, Restoring, restore-Restoring, Resizing,
  memory-Resizing,
}
use spin_machine.Qmp.Attaching.{Attached, Refused, Underway, attach_disk-Attached}
use spin_machine.Qmp.Closing.{IsClosed, perform-IsClosed}
use spin_machine.Qmp.Detached.{detach-Answers}
use spin_machine.Qmp.Sizes.{wanted_bytes-wraps}

abbrev answer : Value → Incoming
answer v = message (record { event = []; device = []; return = some v; error = none })

abbrev refusal : Incoming
refusal = message (record {
  event = [];
  device = [];
  return = none;
  error = some (record { class = lit "GenericError"; desc = lit "no such bus" });
})

abbrev event : Text → Text → Incoming
event e id = message (record { event = e; device = id; return = none; error = none })

abbrev greets : Message
greets = record { event = []; device = []; return = none; error = none }

-- A peer that takes everything, with a clock that counts the calls.
abbrev peer : Peer
peer = record { write_error = λ _. none; deadline_error = λ _. none; clock = λ n. pos n }

abbrev host : List Incoming → Host
host reads = record {
  abs = λ p. ok (lit "/" <> p);
  dial = λ _. ok (message greets ∷ reads);
  peer = peer;
}

abbrev fresh : Conn
fresh = record { reads = []; deleted = []; log = []; deadline = none; closed = true; calls = 0 }

abbrev talking : List Incoming → Conn
talking reads = record fresh { reads = reads; closed = false }

abbrev target : DetachFlags
target = record { qmp = lit "qmp.sock"; target = pos 3; timeout = pos 100 }

abbrev after_closing : List Incoming
after_closing = []

abbrev after_gone : List Incoming
after_gone = answer null ∷ after_closing

abbrev after_asking : List Incoming
after_asking =
    event (lit "RTC_CHANGE") []
    ∷ event (lit "DEVICE_DELETED") (hotplug_disk_id (pos 3))
    ∷ after_gone

abbrev after_opening : List Incoming
after_opening = event (lit "RTC_CHANGE") [] ∷ answer null ∷ after_asking

abbrev removal : List Incoming
removal = answer null ∷ after_opening

abbrev disk : AttachFlags
disk = record {
  qmp = lit "qmp.sock";
  target = pos 3;
  disk = lit "data.qcow2";
  format = lit "qcow2";
  readonly = false;
  serial = lit "data";
}

abbrev saves : SaveFlags
saves = record { qmp = lit "qmp.sock"; to = lit "vm.state"; timeout = pos 100 }

abbrev restores : RestoreFlags
restores = record { qmp = lit "qmp.sock"; from = lit "vm.state"; timeout = pos 100 }

abbrev grows : MemoryFlags
grows = record { qmp = lit "qmp.sock"; size_mb = pos 512; timeout = pos 100 }

abbrev complete : Incoming
complete = answer (object ((lit "status", lit "completed") ∷ []))

abbrev underway : Incoming
underway = answer (object ((lit "status", lit "active") ∷ []))

perform-AllReported_example :
    Ends {A = Unit {0}}
      (λ _. AllReported)
      AllReported
      AllReported
      (perform (host removal) (detaching target) fresh)
perform-AllReported_example = perform-AllReported (host removal) (detaching target) fresh tt

perform-IsClosed_example :
    IsClosed (perform (host (answer null ∷ refusal ∷ [])) (attaching disk) fresh)
perform-IsClosed_example =
    perform-IsClosed (host (answer null ∷ refusal ∷ [])) (attaching disk) fresh refl

detach-Removal_example :
    Ends {A = Unit {0}}
      (λ _ log ids.
        Guarded (Removal (pos 3)) log
        × (sent log
            ≡ blockdev_del (hotplug_drive_id (pos 3))
              ∷ device_del (hotplug_disk_id (pos 3))
              ∷ qmp_capabilities
              ∷ []))
      (λ log ids. Guarded (Removal (pos 3)) log)
      (λ log ids. Guarded (Removal (pos 3)) log)
      (detach (host removal) target fresh)
unfolding Guarded sent
detach-Removal_example = detach-Removal (host removal) target fresh tt tt

detach-Answers_example : is_done (detach (host removal) target fresh) ≡ true
unfolding hotplug_disk_id lit text_eq itoa
detach-Answers_example =
    detach-Answers (host removal) target fresh greets removal after_opening after_asking after_gone
      after_closing ((λ _. refl), (λ _. refl)) refl refl refl refl (inr (refl, refl, refl))
      (inl (refl, inr (refl, refl, refl))) (refl, inr (refl, (refl, inl (refl, refl))))
      (inr (refl, refl, refl))

restore-Restoring_example :
    Ends {A = Unit {0}}
      (λ _ log ids. Guarded Restoring log)
      (λ log ids. Guarded Restoring log)
      (λ log ids. Guarded Restoring log)
      (restore
        (host (
          answer null
          ∷ answer null
          ∷ complete
          ∷ answer (object ((lit "status", lit "paused") ∷ []))
          ∷ answer null
          ∷ []))
        restores
        fresh)
unfolding Guarded
restore-Restoring_example =
    restore-Restoring
      (host (
        answer null
        ∷ answer null
        ∷ complete
        ∷ answer (object ((lit "status", lit "paused") ∷ []))
        ∷ answer null
        ∷ []))
      restores fresh tt tt

memory-Resizing_example :
    Ends {A = Unit {0}}
      (λ _ log ids. Guarded (Resizing (pos 512)) log)
      (λ log ids. Guarded (Resizing (pos 512)) log)
      (λ log ids. Guarded (Resizing (pos 512)) log)
      (memory
        (host (answer null ∷ answer null ∷ answer (number 0) ∷ answer (number 536_870_912) ∷ []))
        grows
        fresh)
unfolding Guarded
memory-Resizing_example =
    memory-Resizing
      (host (answer null ∷ answer null ∷ answer (number 0) ∷ answer (number 536_870_912) ∷ []))
      grows fresh tt tt

-- QEMU with the root disk.
abbrev running : Vm
running = record { nodes = lit "root" ∷ []; devices = lit "root0" ∷ []; doing = idle }

attach_disk-Attached_example :
    Ends {A = Unit {0}}
      (λ _. Attached running (lit "root0" ∷ []) disk (lit "root" ∷ []))
      (Refused running (lit "root0" ∷ []) disk (lit "root" ∷ []))
      (Underway running (lit "root0" ∷ []) disk (lit "root" ∷ []))
      (attach_disk peer disk
        (lit "/data.qcow2")
        (talking (answer null ∷ refusal ∷ answer null ∷ [])))
unfolding replay hotplug_drive_id contains lit
attach_disk-Attached_example =
    attach_disk-Attached running peer disk (lit "/data.qcow2")
      (talking (answer null ∷ refusal ∷ answer null ∷ [])) refl

wanted_bytes-wraps_example :
    (512 < 2 ^ 44
      → (wanted_bytes (pos 512) ≡ 512 * 2 ^ 20) × (wanted_bytes (pos 512) / 2 ^ 20 ≡ 512))
    × (wanted_bytes (pos (512 + 2 ^ 44)) ≡ wanted_bytes (pos 512))
wanted_bytes-wraps_example = wanted_bytes-wraps 512
