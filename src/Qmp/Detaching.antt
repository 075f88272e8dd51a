-- ===== src/Qmp/Detaching.antt =====
-- `detach` of cmd/spin-machine/main.go under the watch.
use spin_machine.Common.{suc, Text, lit, ◌<>◌, ◌≡◌, true, List, ◌∷◌}
use spin_machine.Common.Int.{ℤ, ◌-ℤ◌}
use spin_machine.Common.Numeral.{itoa}
use spin_machine.Qmp.Wire.{
  Command, qmp_capabilities, device_del, blockdev_del, Event, wrote, told, Peer, detached,
  decode_nothing,
}
use spin_machine.Qmp.Session.{
  missing_flags, Qmp, run_, dial_qmp, finally_close, Host, explain, now, tell, ◌>>=◌, ◌>>◌,
}
use spin_machine.Qmp.Wait.{wait_deleted}
use spin_machine.Qmp.Commands.{
  DetachFlags, detach_disk, detach, hotplug_disk_id, hotplug_drive_id, check_target,
}
use spin_machine.Qmp.Trace.{reported}
use spin_machine.Qmp.Logic.{Pred, Ends-imp, Does, explain-Does}
use spin_machine.Qmp.Rules.{wait_deleted-Does}
use spin_machine.Qmp.Watched.{
  Watched, Sent, Sent_Answered, Sent-Hears, run_-Sent, tell-Sent, then-Watched,
}
use spin_machine.Qmp.Dialled.{require-Sent, explained_require-Sent, dialled-Sent}

module _ (G : Event → List Event → Type 0) where
  module _ (o : DetachFlags)
      (asks : (log : List Event) → G (wrote (device_del (hotplug_disk_id o.target))) log)
      (closes : (log : List Event)
        → reported (hotplug_disk_id o.target) log ≡ true
        → G (wrote (blockdev_del (hotplug_drive_id o.target))) log)
      (tells : (seconds : ℤ) (log : List Event) → G (told (detached o.target seconds)) log) where
    module _ (cmds : List Command) where
      -- What was sent when the device is asked to go, and when its node is closed.
      abbrev pub asked : List Command
      asked = device_del (hotplug_disk_id o.target) ∷ cmds

      abbrev pub closed_after : List Command
      closed_after = blockdev_del (hotplug_drive_id o.target) ∷ asked

      abbrev pub Gone : Pred
      Gone log ids = Sent G asked log ids × (reported (hotplug_disk_id o.target) log ≡ true)

      wait-Gone :
          (peer : Peer)
          → Does
              (Sent_Answered decode_nothing G asked tt)
              (wait_deleted peer (hotplug_disk_id o.target) o.timeout)
              (λ _. Gone)
              (Watched G)
              (Watched G)
      wait-Gone peer c (h, _) =
          Ends-imp {A = Unit {0}} (λ _. Gone) (λ _. Gone) (Sent G asked) (Watched G)
            (wait_deleted peer (hotplug_disk_id o.target) o.timeout c) (λ _ log ids h. h)
            (λ log ids (h, _). h)
            (wait_deleted-Does (Sent G asked) (Sent-Hears G asked) (hotplug_disk_id o.target) peer
              o.timeout (λ log ids ((h, _), _). h) c h)

      close-Sent :
          (peer : Peer) (what : Text) (seconds : ℤ)
          → Does Gone
              (explain what (run_ peer (blockdev_del (hotplug_drive_id o.target)))
                >> tell (detached o.target seconds))
              (λ _. Sent G closed_after)
              (Watched G)
              (Watched G)
      close-Sent peer what seconds =
          then-Watched G Gone (Sent_Answered decode_nothing G closed_after)
            (λ _. Sent G closed_after)
            (explain what (run_ peer (blockdev_del (hotplug_drive_id o.target))))
            (λ _. tell (detached o.target seconds))
            (run_-Sent G asked Gone peer what (blockdev_del (hotplug_drive_id o.target))
              (λ log ids (h, _). h) (λ log ids (_, r). closes log r))
            (λ _.
              tell-Sent G closed_after (Sent_Answered decode_nothing G closed_after tt)
                (detached o.target seconds) (λ log ids (h, _). h) (λ log ids _. tells seconds log))

      -- The conversation of `detach`.
      pub detach_disk-Sent :
          (peer : Peer)
          → Does
              (Sent G cmds)
              (detach_disk peer o)
              (λ _. Sent G closed_after)
              (Watched G)
              (Watched G)
      unfolding detach_disk
      detach_disk-Sent peer c h =
          let wait =
            explain (lit "QEMU did not report the disk at target " <> itoa o.target <> lit " gone")
              (wait_deleted peer (hotplug_disk_id o.target) o.timeout) in
          let what = lit "closing the disk at target " <> itoa o.target in
          let close : ℤ → Qmp (Unit {0}) = λ end.
            explain what (run_ peer (blockdev_del (hotplug_drive_id o.target)))
            >> tell (detached o.target (end -ℤ peer.clock c.calls)) in
          let ask = lit "removing the disk at target " <> itoa o.target in
          then-Watched G (Sent G cmds) (Sent_Answered decode_nothing G asked)
            (λ _. Sent G closed_after)
            (explain ask (run_ peer (device_del (hotplug_disk_id o.target))))
            (λ _. wait >> (now peer >>= close))
            (run_-Sent G cmds (Sent G cmds) peer ask (device_del (hotplug_disk_id o.target))
              (λ log ids h. h) (λ log ids _. asks log))
            (λ _.
              then-Watched G (Sent_Answered decode_nothing G asked tt) (λ _. Gone)
                (λ _. Sent G closed_after) wait (λ _. now peer >>= close)
                (explain-Does (λ _. Gone) (Watched G) (Watched G)
                  (Sent_Answered decode_nothing G asked tt)
                  (lit "QEMU did not report the disk at target " <> itoa o.target <> lit " gone")
                  (wait_deleted peer (hotplug_disk_id o.target) o.timeout) (wait-Gone peer))
                (λ _ c h. close-Sent peer what _ (record c { calls = suc c.calls }) h))
            (record c { calls = suc c.calls }) h

    -- `detach`, with its connection.
    pub detach-Sent :
        (host : Host) (cmds : List Command)
        → ((log : List Event) → G (wrote qmp_capabilities) log)
        → Does
            (Sent G cmds)
            (detach host o)
            (λ _. Sent G (
              blockdev_del (hotplug_drive_id o.target)
              ∷ device_del (hotplug_disk_id o.target)
              ∷ qmp_capabilities
              ∷ cmds))
            (Watched G)
            (Watched G)
    unfolding detach check_target
    detach-Sent host cmds opens =
        let opened = dial_qmp host o.qmp >> finally_close (detach_disk host.peer o) in
        let all = closed_after (qmp_capabilities ∷ cmds) in
        require-Sent G cmds (Sent G all) _ missing_flags
          (explain (lit "detach") (check_target o.target) >> opened)
          (explained_require-Sent G cmds (Sent G all) (lit "detach") _ _ opened (
            dialled-Sent G cmds (Sent G all) host o.qmp (detach_disk host.peer o) opens
              (detach_disk-Sent (qmp_capabilities ∷ cmds) host.peer)))
