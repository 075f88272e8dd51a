-- ===== src/Qmp/Changing.antt =====
-- `memory` and `attach` of cmd/spin-machine/main.go under the watch.
use spin_machine.Common.{
  ℕ, zero, suc, ◌<◌, ◌/◌, ◌^◌, ◌==◌, Text, lit, ◌<>◌, ◌≡◌, refl, true, false, Bool, List, length,
  arith,
}
use spin_machine.Common.Int.{ℤ, ◌+ℤ◌, ◌-ℤ◌, ltb_ℤ}
use spin_machine.Common.Numeral.{itoa}
use spin_machine.Machine.Args.{hotplug_disk}
use spin_machine.Qmp.Wire.{
  Command, qmp_capabilities, qom_get, qom_set, blockdev_add, blockdev_del, device_add, Event, wrote,
  told, Conn, Peer, plugged, fell_short, attached, decode_nothing, decode_size,
}
use spin_machine.Qmp.Session.{
  QmpError, missing_flags, unresolved, about, Qmp, run_, dial_qmp, finally_close, Host, explain,
  recover, lift, tell, fail, now, ignore, ◌>>=◌, ◌>>◌,
}
use spin_machine.Qmp.Commands.{
  MemoryFlags, mem_path, wanted_bytes, unless_short, unless_plugged, poll_size, resize_memory,
  memory, AttachFlags, hotplug_disk_id, hotplug_drive_id, check_target, attach_disk, attach,
}
use spin_machine.Qmp.Logic.{Ends, Ends-imp, Does, recover-Does, ignore-Does}
use spin_machine.Qmp.Rules.{Answered}
use spin_machine.Qmp.Steady.{explained_run-Round}
use spin_machine.Qmp.Watched.{Watched, Sent, then-Watched}
use spin_machine.Qmp.Dialled.{
  Watched_Answered, run-Watched, run_-Watched, tell-Watched, require-Sent, explained_require-Sent,
  lift-Sent, dialled-Sent,
}

module _ (G : Event → List Event → Type 0)
    (opens : (log : List Event) → G (wrote qmp_capabilities) log) where
  module _ (o : MemoryFlags)
      (sets : (log : List Event)
        → G (wrote (qom_set mem_path (lit "requested-size") (wanted_bytes o.size_mb))) log)
      (asks : (log : List Event) → G (wrote (qom_get mem_path (lit "size"))) log)
      (tells : (size : ℕ) (took : ℤ) (log : List Event)
        → (size == wanted_bytes o.size_mb) ≡ true
        → Answered decode_size size log
        → G (told (plugged (size / 2 ^ 20) took)) log)
      (regrets : (size : ℕ) (took : ℤ) (log : List Event)
        → (size == wanted_bytes o.size_mb) ≡ false
        → Answered decode_size size log
        → G (told (fell_short (size / 2 ^ 20) took o.size_mb)) log) where
    -- The rest of a round, where what is left to do ends well.
    round-Watched :
        (peer : Peer) (start deadline : ℤ) (size : ℕ) (t : ℤ) (b : Bool) (more : Qmp (Unit {0}))
        (c : Conn)
        → (size == wanted_bytes o.size_mb) ≡ b
        → Watched_Answered decode_size G size c.log c.deleted
        → Ends (λ _. Watched G) (Watched G) (Watched G) (more (record c { calls = suc c.calls }))
        → Ends
            (λ _. Watched G)
            (Watched G)
            (Watched G)
            (unless_plugged peer o start deadline size t b more c)
    round-Watched peer start deadline size t true more c e h k =
        tell-Watched G (Watched_Answered decode_size G size) (λ log ids (h, _). h)
          (plugged (size / 2 ^ 20) (t -ℤ start)) (λ log ids (_, a). tells size (t -ℤ start) log e a)
          c h
    round-Watched peer start deadline size t false more c e h k =
        short (ltb_ℤ deadline (peer.clock c.calls))
      where
        short :
            (b : Bool)
            → Ends {A = Unit {0}}
                (λ _. Watched G)
                (Watched G)
                (Watched G)
                (unless_short o start size t b more (record c { calls = suc c.calls }))
        short true =
            tell-Watched G (Watched_Answered decode_size G size) (λ log ids (h, _). h)
              (fell_short (size / 2 ^ 20) (t -ℤ start) o.size_mb)
              (λ log ids (_, a). regrets size (t -ℤ start) log e a) c h
        short false = k

    -- A round for every message is enough.
    poll_size-Watched :
        (peer : Peer) (start deadline : ℤ) (rounds : ℕ) (c : Conn)
        → length c.reads < rounds
        → Watched G c.log c.deleted
        → Ends (λ _. Watched G) (Watched G) (Watched G) (poll_size peer o start deadline rounds c)
    unfolding poll_size
    poll_size-Watched peer start deadline zero c l h = omega arith
    poll_size-Watched peer start deadline (suc rounds) c l h =
        let more = poll_size peer o start deadline rounds in
        explained_run-Round (Watched G) (Watched_Answered decode_size G) (λ _. Watched G) peer
          (lit "reading the plugged size") (qom_get mem_path (lit "size")) decode_size rounds
          (λ size. now peer >>= λ t.
            unless_plugged peer o start deadline size t (size == wanted_bytes o.size_mb) more)
          c l
          (run-Watched G (Watched G) (λ log ids h. h) peer (qom_get mem_path (lit "size"))
            decode_size (λ log ids _. asks log) c h)
          (λ size c l h.
            round-Watched peer start deadline size (peer.clock c.calls)
              (size == wanted_bytes o.size_mb) more (record c { calls = suc c.calls }) refl h
              (poll_size-Watched peer start deadline rounds (record c { calls = suc (suc c.calls) })
                l (h.0)))

    resize_memory-Watched :
        (peer : Peer)
        → Does (Watched G) (resize_memory peer o) (λ _. Watched G) (Watched G) (Watched G)
    unfolding resize_memory
    resize_memory-Watched peer c h =
        let what = lit "asking for " <> itoa o.size_mb <> lit " MiB" in
        let set = qom_set mem_path (lit "requested-size") (wanted_bytes o.size_mb) in
        then-Watched G (Watched G) (Watched_Answered decode_nothing G) (λ _. Watched G)
          (explain what (run_ peer set))
          (λ _ d.
            poll_size peer o (peer.clock c.calls) (peer.clock c.calls +ℤ o.timeout)
              (suc (length d.reads)) d)
          (run_-Watched G (Watched G) (λ log ids h. h) peer what set (λ log ids _. sets log))
          (λ _ d (h, _).
            poll_size-Watched peer (peer.clock c.calls) (peer.clock c.calls +ℤ o.timeout)
              (suc (length d.reads)) d (omega arith) h)
          (record c { calls = suc c.calls }) h

    pub memory-Watched :
        (host : Host) (cmds : List Command)
        → Does (Sent G cmds) (memory host o) (λ _. Watched G) (Watched G) (Watched G)
    unfolding memory
    memory-Watched host cmds =
        require-Sent G cmds (Watched G) _ missing_flags
          (dial_qmp host o.qmp >> finally_close (resize_memory host.peer o))
          (dialled-Sent G cmds (Watched G) host o.qmp (resize_memory host.peer o) opens
            (λ c (h, _). resize_memory-Watched host.peer c h))

  module _ (o : AttachFlags)
      (adds : (path : Text) (log : List Event)
        → G (wrote (blockdev_add (hotplug_drive_id o.target) o.format o.readonly path)) log)
      (plugs : (log : List Event)
        → G
            (wrote (
              device_add (
                hotplug_disk o.target
                  (hotplug_disk_id o.target)
                  (hotplug_drive_id o.target)
                  o.serial)))
            log)
      (undoes : (log : List Event) → G (wrote (blockdev_del (hotplug_drive_id o.target))) log)
      (tells : (path : Text) (log : List Event) → G (told (attached path o.target)) log) where
    undone :
        (peer : Peer)
        → Does
            (Watched G)
            (ignore (run_ peer (blockdev_del (hotplug_drive_id o.target))))
            (λ _. Watched G)
            (Watched G)
            (Watched G)
    undone peer =
        let del = blockdev_del (hotplug_drive_id o.target) in
        ignore-Does (Watched G) (Watched G) (Watched G) (run_ peer del) (λ c h.
          Ends-imp {A = Unit {0}} (Watched_Answered decode_nothing G) (λ _. Watched G) (Watched G)
            (Watched G) (run_ peer del c) (λ _ log ids (h, _). h) (λ log ids h. h)
            (run-Watched G (Watched G) (λ log ids h. h) peer del decode_nothing
              (λ log ids _. undoes log) c h))

    attach_disk-Watched :
        (peer : Peer) (path : Text)
        → Does (Watched G) (attach_disk peer o path) (λ _. Watched G) (Watched G) (Watched G)
    unfolding attach_disk
    attach_disk-Watched peer path =
        let W = Watched G in
        let R = Watched_Answered decode_nothing G in
        let del = blockdev_del (hotplug_drive_id o.target) in
        let dev =
          device_add (
            hotplug_disk o.target (hotplug_disk_id o.target) (hotplug_drive_id o.target)
              o.serial) in
        let add = blockdev_add (hotplug_drive_id o.target) o.format o.readonly path in
        let undo : QmpError → Qmp (Unit {0}) = λ e.
          ignore (run_ peer del)
          >> fail (about (lit "adding " <> path <> lit " at target " <> itoa o.target) e) in
        let plug = recover (run_ peer dev) undo in
        then-Watched G W R (λ _. W) (explain (lit "opening " <> path) (run_ peer add))
          (λ _. plug >> tell (attached path o.target))
          (run_-Watched G W (λ log ids h. h) peer (lit "opening " <> path) add
            (λ log ids _. adds path log))
          (λ _ c (h, _).
            then-Watched G W R (λ _. W) plug (λ _. tell (attached path o.target))
              (recover-Does R W W W W (run_ peer dev) undo
                (run-Watched G W (λ log ids h. h) peer dev decode_nothing (λ log ids _. plugs log))
                (λ e.
                  then-Watched G W (λ _. W) R (ignore (run_ peer del))
                    (λ _.
                      fail (about (lit "adding " <> path <> lit " at target " <> itoa o.target) e))
                    (undone peer) (λ _ c h. h)))
              (λ _.
                tell-Watched G (R tt) (λ log ids (h, _). h) (attached path o.target)
                  (λ log ids _. tells path log))
              c h)

    pub attach-Watched :
        (host : Host) (cmds : List Command)
        → Does (Sent G cmds) (attach host o) (λ _. Watched G) (Watched G) (Watched G)
    unfolding attach check_target
    attach-Watched host cmds =
        let W = Watched G in
        let talk : Text → Qmp (Unit {0}) =
          λ path. dial_qmp host o.qmp >> finally_close (attach_disk host.peer o path) in
        let resolve = lift (unresolved o.disk) (host.abs o.disk) >>= talk in
        require-Sent G cmds W _ missing_flags
          (explain (lit "attach") (check_target o.target) >> resolve)
          (explained_require-Sent G cmds W (lit "attach") _ _ resolve (
            lift-Sent G cmds W (unresolved o.disk) (host.abs o.disk) talk (λ path.
              dialled-Sent G cmds W host o.qmp (attach_disk host.peer o path) opens
                (λ c (h, _). attach_disk-Watched host.peer path c h))))
