-- ===== src/Qmp/Served.antt =====
-- What a command of a conversation (cmd/spin-machine/main.go) does to QEMU, where QEMU does what it
-- answers without an error.
use spin_machine.Common.{
  is_none, Text, ◌≡◌, refl, ap, ◌∙◌, Bool, true, false, List, [], ◌∷◌, Option, none, some, ok, err,
  is_empty, arith, ◌⊎◌, inl, inr, Bool-cases, if◌then◌else◌,
}
use spin_machine.Qmp.Wire.{
  Command, Value, Refusal, Message, Incoming, message, broken, late, Conn, decode_nothing,
}
use spin_machine.Qmp.Session.{
  Outcome, returned, blocked, spent, is_deleted, heard, reply, await_reply,
}
use spin_machine.Qmp.Run.{is_deleted-event, ran}
use spin_machine.Qmp.Trace.{
  Vm, Doing, idle, waiting, denied, unheard, nodes_after, devices_after, answered, told_by, replay,
  IsWithin, remove-IsWithin,
}

-- A command that failed: it was not sent, not answered, or refused.
abbrev pub Failed : Command → Doing → Type 0
Failed cmd d = (d ≡ waiting cmd) ⊎ (d ≡ denied cmd) ⊎ (d ≡ unheard cmd)

-- What a command without a value does to a QEMU that was `vm` before the log, had `nodes`, and had no
-- device but `old` ones. An event may have taken devices away meanwhile.
abbrev pub Served : Vm → List Text → List Text → Command → Outcome (Unit {0}) → Type 0
Served vm old nodes cmd (returned (ok _) c) =
    ((replay vm c.log).nodes ≡ nodes_after cmd nodes)
    × ((devices : List Text) × IsWithin old devices
        × ((replay vm c.log).devices ≡ devices_after cmd devices))
    × ((replay vm c.log).doing ≡ idle)
Served vm old nodes cmd (returned (err _) c) =
    (((replay vm c.log).nodes ≡ nodes) × IsWithin old (replay vm c.log).devices)
    × Failed cmd (replay vm c.log).doing
Served vm old nodes cmd (blocked c) =
    ((replay vm c.log).nodes ≡ nodes) × IsWithin old (replay vm c.log).devices
Served vm old nodes cmd (spent c) = ⊥

module _ (vm : Vm) (old : List Text) (cmd : Command) where
  answered_lem :
      (good : Bool) (d : Doing) (v : Vm)
      → d ≡ waiting cmd
      → answered good d v ≡ (
          if good
          then record {
            nodes = nodes_after cmd v.nodes;
            devices = devices_after cmd v.devices;
            doing = idle;
          }
          else record v { doing = denied cmd })
  unfolding answered
  answered_lem good d v e = ap (λ d. answered good d v) e

  -- A message that is no event answers the command.
  reply-Served :
      (m : Message) (v : Vm)
      → is_empty m.event ≡ true
      → v.doing ≡ waiting cmd
      → told_by m v ≡ (
          if is_none m.error
          then record {
            nodes = nodes_after cmd v.nodes;
            devices = devices_after cmd v.devices;
            doing = idle;
          }
          else record v { doing = denied cmd })
  unfolding told_by
  reply-Served m v e d = elim (Bool-cases (is_deleted m)) [
    | inl f ↦ cc (is_deleted-event m.event f)
    | inr f ↦ rw (f, e) (answered_lem (is_none m.error) v.doing v d)
  ]

  answer-Served :
      (nodes : List Text) (error : Option Refusal) (value : Option Value) (v : Vm) (c : Conn)
      → replay vm c.log ≡ (
          if is_none error
          then record {
            nodes = nodes_after cmd v.nodes;
            devices = devices_after cmd v.devices;
            doing = idle;
          }
          else record v { doing = denied cmd })
      → v.nodes ≡ nodes
      → IsWithin old v.devices
      → Served vm old nodes cmd (returned (reply cmd decode_nothing error value) c)
  unfolding reply
  answer-Served nodes none value v c same h k = (rw (same, h), (v.devices, k, rw same), rw same)
  answer-Served nodes (some r) value v c same h k =
      ((rw (same, h), rw same k), rw same (inr (inl refl)))

  event-Served :
      (m : Message) (v : Vm)
      → is_empty m.event ≡ false
      → ((told_by m v).nodes ≡ v.nodes) × ((told_by m v).doing ≡ v.doing)
  unfolding told_by
  event-Served m v e = ground arith

  event-IsWithin :
      (m : Message) (v : Vm)
      → is_empty m.event ≡ false
      → IsWithin old v.devices
      → IsWithin old (told_by m v).devices
  unfolding told_by
  event-IsWithin m v e h = elim (Bool-cases (is_deleted m)) [
    | inl f ↦ rw f (remove-IsWithin old m.device v.devices h)
    | inr f ↦ rw (f, e) h
  ]

  await_reply-Served :
      (nodes : List Text) (c : Conn) (reads : List Incoming)
      → (replay vm c.log).nodes ≡ nodes
      → IsWithin old (replay vm c.log).devices
      → (replay vm c.log).doing ≡ waiting cmd
      → Served vm old nodes cmd (await_reply cmd decode_nothing c reads)
  unfolding await_reply heard reply replay
  await_reply-Served nodes c [] h k d = (h, k)
  await_reply-Served nodes c (broken e ∷ rest) h k d = ((h, k), inl d)
  await_reply-Served nodes c (late ∷ rest) h k d = ((h, k), inl d)
  await_reply-Served nodes c (message m ∷ rest) h k d = elim (Bool-cases (is_empty m.event)) [
    | inl e ↦ rw e (
        answer-Served nodes m.error m.return (replay vm c.log) (heard m c rest)
          (reply-Served m (replay vm c.log) e d) h k)
    | inr e ↦
        let (n, s) = event-Served m (replay vm c.log) e in
        rw e (
          await_reply-Served nodes (heard m c rest) rest (n ∙ h)
            (event-IsWithin m (replay vm c.log) e k) (s ∙ d))
  ]

  -- The whole of `run`.
  pub run_-Served :
      (w : Option Text) (c : Conn)
      → IsWithin old (replay vm c.log).devices
      → Served vm old (replay vm c.log).nodes cmd (ran cmd decode_nothing w c)
  unfolding replay
  run_-Served none c k = await_reply-Served (replay vm c.log).nodes _ c.reads refl k refl
  run_-Served (some e) c k = ((refl, k), inr (inr refl))
