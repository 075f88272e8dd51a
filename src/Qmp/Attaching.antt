-- ===== src/Qmp/Attaching.antt =====
-- `attach` of cmd/spin-machine/main.go refines a step that QEMU takes wholly or not at all.
use spin_machine.Common.{
  Text, lit, ◌<>◌, ◌≡◌, refl, ◌∙◌, sym, false, List, [], ◌∷◌, ok, err, text_eq_iff, contains,
  all_contained, inl, inr, ◌⊎◌, arith,
}
use mathlib.Core.Path.{subst}
use spin_machine.Common.Numeral.{itoa}
use spin_machine.Machine.Args.{hotplug_disk}
use spin_machine.Qmp.Wire.{
  Command, blockdev_add, blockdev_del, device_add, Event, Conn, Peer, decode_nothing, attached,
}
use spin_machine.Qmp.Session.{
  QmpError, about, Outcome, returned, blocked, spent, Qmp, run, run_, explain, recover, ignore,
  tell, fail, ◌>>◌,
}
use spin_machine.Qmp.Commands.{AttachFlags, attach_disk, hotplug_disk_id, hotplug_drive_id}
use spin_machine.Qmp.Trace.{Vm, nodes_after, devices_after, remove, replay, IsWithin}
use spin_machine.Qmp.Run.{ran}
use spin_machine.Qmp.Served.{Failed, Served, run_-Served}
use spin_machine.Qmp.Logic.{Pred, Ends, Does, bind-Does, recover-Does, explain-Does, ignore-Does}

-- A node that is not there is added and removed to the same nodes.
remove-fresh : (x : Text) (ys : List Text) → contains ys x ≡ false → remove x ys ≡ ys
unfolding remove contains
remove-fresh x [] h = refl
remove-fresh x (y ∷ ys) h = ground (arith, remove-fresh x ys)

remove-added : (x : Text) (ys : List Text) → contains ys x ≡ false → remove x (x ∷ ys) ≡ ys
unfolding remove
remove-added x ys h = rw ((text_eq_iff x x).1 refl) (remove-fresh x ys h)

-- A list is within itself.
self-IsWithin : (ds : List Text) → IsWithin ds ds
self-IsWithin ds = all_contained ds

module _ (vm : Vm) (old : List Text) where
  -- QEMU has these block nodes, and no device but old ones.
  abbrev pub Has : List Text → Pred
  Has nodes log ids = ((replay vm log).nodes ≡ nodes) × IsWithin old (replay vm log).devices

  abbrev pub Did : Command → List Text → Pred
  Did cmd nodes log ids =
      ((replay vm log).nodes ≡ nodes_after cmd nodes)
      × (devices : List Text) × IsWithin old devices
      × ((replay vm log).devices ≡ devices_after cmd devices)

  -- It has them after a command that failed.
  abbrev pub HasFailed : Command → List Text → Pred
  HasFailed cmd nodes log ids = Has nodes log ids × Failed cmd (replay vm log).doing

  Served-Ends :
      (nodes : List Text) (cmd : Command) (Q E W : Pred) (o : Outcome (Unit {0}))
      → ((log : List Event) (ids : List Text) → Did cmd nodes log ids → Q log ids)
      → ((log : List Event) (ids : List Text) → HasFailed cmd nodes log ids → E log ids)
      → ((log : List Event) (ids : List Text) → Has nodes log ids → W log ids)
      → Served vm old nodes cmd o
      → Ends (λ _. Q) E W o
  Served-Ends nodes cmd Q E W (returned (ok a) c) f g k (n, (ds, w, d), _) =
      f c.log c.deleted (n, ds, w, d)
  Served-Ends nodes cmd Q E W (returned (err e) c) f g k h = g c.log c.deleted h
  Served-Ends nodes cmd Q E W (blocked c) f g k h = k c.log c.deleted h
  Served-Ends nodes cmd Q E W (spent c) f g k h = elim h [ ]

  -- A command without a value, from the nodes that QEMU has.
  run_-Does :
      (peer : Peer) (cmd : Command) (nodes : List Text) (Q E W : Pred)
      → ((log : List Event) (ids : List Text) → Did cmd nodes log ids → Q log ids)
      → ((log : List Event) (ids : List Text) → HasFailed cmd nodes log ids → E log ids)
      → ((log : List Event) (ids : List Text) → Has nodes log ids → W log ids)
      → Does (Has nodes) (run_ peer cmd) (λ _. Q) E W
  unfolding run
  run_-Does peer cmd nodes Q E W f g k c (h, w) =
      Served-Ends nodes cmd Q E W (run_ peer cmd c) f g k (
        subst (λ ns. Served vm old ns cmd (ran cmd decode_nothing (peer.write_error c.calls) c)) h
          (run_-Served vm old cmd (peer.write_error c.calls) c w))

  module _ (o : AttachFlags) (nodes : List Text) where
    abbrev pub added : List Text
    added = hotplug_drive_id o.target ∷ nodes

    -- The disk is there: its node and its device, beside no device but old ones.
    abbrev pub Attached : Pred
    Attached log ids =
        ((replay vm log).nodes ≡ added)
        × (devices : List Text) × IsWithin old devices
        × ((replay vm log).devices ≡ hotplug_disk_id o.target ∷ devices)

    -- The disk is not there: no device is new, and its node is left only by a `blockdev-del` that
    -- failed.
    abbrev pub Refused : Pred
    Refused log ids =
        Has nodes log ids ⊎ HasFailed (blockdev_del (hotplug_drive_id o.target)) added log ids

    abbrev pub Underway : Pred
    Underway log ids = Has nodes log ids ⊎ Has added log ids

    module _ (fresh : contains nodes (hotplug_drive_id o.target) ≡ false) where
      undo-Refused :
          (peer : Peer) (e : QmpError)
          → Does
              (Has added)
              (ignore (run_ peer (blockdev_del (hotplug_drive_id o.target)))
                >> fail {A = Unit {0}} e)
              (λ _. Attached)
              Refused
              Underway
      unfolding nodes_after devices_after
      undo-Refused peer e =
          let del = blockdev_del (hotplug_drive_id o.target) in
          bind-Does {A = Unit {0}} {B = Unit {0}} (λ _. Attached) Refused Underway (Has added)
            (λ _. Refused) (ignore (run_ peer del)) (λ _. fail e)
            (ignore-Does (Has added) Refused Underway (run_ peer del) (
              run_-Does peer del added Refused Refused Underway
                (λ log ids (n, ds, w, d). inl (
                  n ∙ remove-added (hotplug_drive_id o.target) nodes fresh,
                  subst (IsWithin old) (sym d) w,
                ))
                (λ log ids h. inr h) (λ log ids h. inr h)))
            (λ _ c h. h)

      attach_disk-Underway :
          (peer : Peer) (path : Text)
          → Does (Has nodes) (attach_disk peer o path) (λ _. Attached) Refused Underway
      unfolding attach_disk nodes_after devices_after hotplug_disk replay
      attach_disk-Underway peer path =
          let dev = device_add (
            hotplug_disk o.target (hotplug_disk_id o.target) (hotplug_drive_id o.target)
              o.serial) in
          let add = blockdev_add (hotplug_drive_id o.target) o.format o.readonly path in
          let undo : QmpError → Qmp (Unit {0}) = λ e.
            ignore (run_ peer (blockdev_del (hotplug_drive_id o.target)))
            >> fail (about (lit "adding " <> path <> lit " at target " <> itoa o.target) e) in
          let plug = recover (run_ peer dev) undo in
          bind-Does {A = Unit {0}} {B = Unit {0}} (λ _. Attached) Refused Underway (Has nodes)
            (λ _. Has added) (explain (lit "opening " <> path) (run_ peer add))
            (λ _. plug >> tell (attached path o.target))
            (explain-Does (λ _. Has added) Refused Underway (Has nodes) (lit "opening " <> path)
              (run_ peer add)
              (run_-Does peer add nodes (Has added) Refused Underway
                (λ log ids (n, ds, w, d). (n, subst (IsWithin old) (sym d) w))
                (λ log ids (h, _). inl h) (λ log ids n. inl n)))
            (λ _.
              bind-Does {A = Unit {0}} {B = Unit {0}} (λ _. Attached) Refused Underway (Has added)
                (λ _. Attached) plug (λ _. tell (attached path o.target))
                (recover-Does (λ _. Attached) Refused Underway (Has added) (Has added)
                  (run_ peer dev) undo
                  (run_-Does peer dev added Attached (Has added) Underway (λ log ids h. h)
                    (λ log ids (n, _). n) (λ log ids n. inr n))
                  (λ e.
                    undo-Refused peer
                      (about (lit "adding " <> path <> lit " at target " <> itoa o.target) e)))
                (λ _ c h. h))

-- Where QEMU does what it answers without an error, and has no block node of the disk's name, an
-- attach that ends well has added the node and the device. One that ends with an error has added
-- neither: QEMU has no device that it did not have before, and the disk's node is left only where
-- QEMU did not answer the `blockdev-del` that takes it back, or refused it. One that waits has added
-- no device yet, and the node or not. No other node or device is added in any case, and no other
-- node is taken away.
pub attach_disk-Attached :
    (vm : Vm) (peer : Peer) (o : AttachFlags) (path : Text) (c : Conn)
    → contains (replay vm c.log).nodes (hotplug_drive_id o.target) ≡ false
    → Ends
        (λ _. Attached vm (replay vm c.log).devices o (replay vm c.log).nodes)
        (Refused vm (replay vm c.log).devices o (replay vm c.log).nodes)
        (Underway vm (replay vm c.log).devices o (replay vm c.log).nodes)
        (attach_disk peer o path c)
attach_disk-Attached vm peer o path c h =
    attach_disk-Underway vm (replay vm c.log).devices o (replay vm c.log).nodes h peer path c
      (refl, self-IsWithin (replay vm c.log).devices)
