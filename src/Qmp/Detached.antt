-- ===== src/Qmp/Detached.antt =====
-- A conversation of `detach` (cmd/spin-machine/main.go) with a QEMU that answers.
use spin_machine.Common.{
  ℕ, suc, Text, lit, ◌<>◌, ◌≡◌, refl, sym, ◌∙◌, Bool, true, false, List, [], ◌∷◌, Option, none,
  some, ok, err, is_empty, contains, ◌⊎◌, inl, inr,
}
use mathlib.Core.Path.{subst}
use spin_machine.Common.Int.{ℤ, pos, ltb_ℤ, ◌+ℤ◌, ◌-ℤ◌}
use spin_machine.Common.Numeral.{itoa}
use spin_machine.Machine.Types.{max_hotplug_disks}
use spin_machine.Qmp.Wire.{
  Command, qmp_capabilities, device_del, blockdev_del, Message, Incoming, message, Conn, Peer,
  decode_nothing, detached,
}
use spin_machine.Qmp.Session.{
  QmpError, deadline_unset, wait_unset, deadline_kept, Outcome, returned, blocked, spent, Qmp,
  and_then, explain, run, run_, written, await_reply, greeting, greeted, handshake,
  handshake_timeout, new_qmp, dial_qmp, set_deadline, deadline_set, Host, ◌>>◌, ◌>>=◌, tell, now,
  finally_close,
}
use spin_machine.Qmp.Wait.{await_deleted, cleared, cleared_by, wait_unless, wait_deleted}
use spin_machine.Qmp.Commands.{
  DetachFlags, detach_disk, detach, check_target, hotplug_disk_id, hotplug_drive_id,
}
use spin_machine.Qmp.Run.{is_done}
use spin_machine.Qmp.Live.{
  Answers, Reports, Yields, and_then-Yields, or_else-Yields, Yields-imp, closing-Yields,
  done-and_then, Reports-Answers, await_reply-Answers, await_deleted-Reports,
}

-- A socket that takes every write and every deadline.
abbrev pub Reliable : Peer → Type 0
Reliable peer = ((n : ℕ) → peer.write_error n ≡ none) × ((n : ℕ) → peer.deadline_error n ≡ none)

module _ (peer : Peer) (reliable : Reliable peer) where
  run_-Answers :
      (cmd : Command) (c : Conn) (rest : List Incoming)
      → Answers c.reads rest
      → Yields (λ r. r ≡ rest) (run_ peer cmd c)
  unfolding run
  run_-Answers cmd c rest h = sends (peer.write_error c.calls) (reliable.0 c.calls)
    where
      sends :
          (w : Option Text)
          → w ≡ none
          → Yields
              (λ r. r ≡ rest)
              (and_then (written w cmd c) (λ _ c. await_reply cmd decode_nothing c c.reads))
      sends none e = await_reply-Answers cmd _ c.reads rest h
      sends (some x) e = cc

  set_deadline-Yields :
      (f : Text → QmpError) (d : Option ℤ) (c : Conn)
      → Yields (λ r. r ≡ c.reads) (set_deadline peer f d c)
  set_deadline-Yields f d c = sets (peer.deadline_error c.calls) (reliable.1 c.calls)
    where
      sets : (w : Option Text) → w ≡ none → Yields (λ r. r ≡ c.reads) (deadline_set w f d c)
      sets none e = refl
      sets (some x) e = cc

  cleared-Yields :
      (Q : List Incoming → Type 0) (o : Outcome (Unit {0})) → Yields Q o → Yields Q (cleared peer o)
  cleared-Yields Q (returned (ok a) c) h = clears (peer.deadline_error c.calls)
    where
      clears : (w : Option Text) → Q (cleared_by w c).reads
      clears none = h
      clears (some x) = h
  cleared-Yields Q (returned (err e) c) h = elim h [ ]
  cleared-Yields Q (blocked c) h = elim h [ ]
  cleared-Yields Q (spent c) h = elim h [ ]

  -- A wait reads up to the report, or nothing where the report is known.
  wait_unless-Reports :
      (gone : Bool) (id : Text) (timeout : ℤ) (c : Conn) (rest : List Incoming)
      → Reports id c.reads rest
      → Yields (λ r. (r ≡ c.reads) ⊎ (r ≡ rest)) (wait_unless gone peer id timeout c)
  unfolding wait_unless
  wait_unless-Reports true id timeout c rest h = inl refl
  wait_unless-Reports false id timeout c rest h =
      and_then-Yields {A = Unit {0}} {B = Unit {0}} (λ r. r ≡ c.reads)
        (λ r. (r ≡ c.reads) ⊎ (r ≡ rest))
        (set_deadline peer wait_unset (some (peer.clock c.calls +ℤ timeout))
          (record c { calls = suc c.calls }))
        (λ _ c. cleared peer (await_deleted id c c.reads))
        (set_deadline-Yields wait_unset (some (peer.clock c.calls +ℤ timeout))
          (record c { calls = suc c.calls }))
        (λ _ d e.
          cleared-Yields (λ r. (r ≡ c.reads) ⊎ (r ≡ rest)) (await_deleted id d d.reads)
            (Yields-imp {A = Unit {0}} (λ r. r ≡ rest) (λ r. (r ≡ c.reads) ⊎ (r ≡ rest))
              (await_deleted id d d.reads) (λ r s. inr s)
              (await_deleted-Reports id d d.reads rest (subst (λ r. Reports id r rest) (sym e) h))))

  greeted-message :
      (c : Conn) (all : List Incoming) (m : Message) (reads : List Incoming)
      → all ≡ message m ∷ reads
      → Yields (λ r. r ≡ reads) (greeted all c)
  greeted-message c all m reads e =
      subst (λ all. Yields {A = Unit {0}} (λ r. r ≡ reads) (greeted all c)) (sym e) refl

  -- `newQMP`, with a greeting and an answer.
  handshake-Answers :
      (timeout : ℤ) (c : Conn) (m : Message) (reads rest : List Incoming)
      → c.reads ≡ message m ∷ reads
      → Answers reads rest
      → Yields (λ r. r ≡ rest) (handshake peer timeout c)
  unfolding handshake greeting
  handshake-Answers timeout c m reads rest e h =
      let last = set_deadline peer deadline_kept none in
      let opened = run_ peer qmp_capabilities >> last in
      let Q : List Incoming → Type 0 = λ r. r ≡ rest in
      and_then-Yields {A = Unit {0}} {B = Unit {0}} (λ r. r ≡ message m ∷ reads) Q
        (set_deadline peer deadline_unset (some (peer.clock c.calls +ℤ timeout))
          (record c { calls = suc c.calls }))
        (λ _. greeting >> opened)
        (Yields-imp {A = Unit {0}} (λ r. r ≡ c.reads) (λ r. r ≡ message m ∷ reads)
          (set_deadline peer deadline_unset (some (peer.clock c.calls +ℤ timeout))
            (record c { calls = suc c.calls }))
          (λ r s. s ∙ e)
          (set_deadline-Yields deadline_unset (some (peer.clock c.calls +ℤ timeout))
            (record c { calls = suc c.calls })))
        (λ _ d s.
          and_then-Yields {A = Unit {0}} {B = Unit {0}} (λ r. r ≡ reads) Q (greeting d)
            (λ _. opened) (greeted-message d d.reads m reads s)
            (λ _ d s.
              and_then-Yields {A = Unit {0}} {B = Unit {0}} Q Q (run_ peer qmp_capabilities d)
                (λ _. last)
                (run_-Answers qmp_capabilities d rest (subst (λ r. Answers r rest) (sym s) h))
                (λ _ d s.
                  Yields-imp {A = Unit {0}} (λ r. r ≡ d.reads) Q (last d) (λ r q. q ∙ s)
                    (set_deadline-Yields deadline_kept none d))))

  -- The conversation of `detach`, after the handshake.
  detach_disk-Answers :
      (o : DetachFlags) (c : Conn) (r1 r2 r3 : List Incoming)
      → Answers c.reads r1
      → Reports (hotplug_disk_id o.target) r1 r2
      → Answers r2 r3
      → Yields (λ r. r ≡ r3) (detach_disk peer o c)
  unfolding detach_disk wait_deleted
  detach_disk-Answers o c r1 r2 r3 asked gone closed =
      let id = hotplug_disk_id o.target in
      let ask =
        explain (lit "removing the disk at target " <> itoa o.target) (run_ peer (device_del id)) in
      let waiting = lit "QEMU did not report the disk at target " <> itoa o.target <> lit " gone" in
      let wait = explain waiting (wait_deleted peer id o.timeout) in
      let closing = lit "closing the disk at target " <> itoa o.target in
      let close = explain closing (run_ peer (blockdev_del (hotplug_drive_id o.target))) in
      let rest : Qmp (Unit {0}) =
        now peer >>= λ end. close >> tell (detached o.target (end -ℤ peer.clock c.calls)) in
      let Q : List Incoming → Type 0 = λ r. r ≡ r3 in
      and_then-Yields {A = Unit {0}} {B = Unit {0}} (λ r. r ≡ r1) Q
        (ask (record c { calls = suc c.calls })) (λ _. wait >> rest)
        (or_else-Yields {A = Unit {0}} (λ r. r ≡ r1)
          (run_ peer (device_del id) (record c { calls = suc c.calls })) _
          (run_-Answers (device_del id) (record c { calls = suc c.calls }) r1 asked))
        (λ _ d s.
          and_then-Yields {A = Unit {0}} {B = Unit {0}} (λ r. (r ≡ d.reads) ⊎ (r ≡ r2)) Q (wait d)
            (λ _. rest)
            (or_else-Yields {A = Unit {0}} (λ r. (r ≡ d.reads) ⊎ (r ≡ r2))
              (wait_deleted peer id o.timeout d) _
              (wait_unless-Reports (contains d.deleted id) id o.timeout d r2
                (subst (λ r. Reports id r r2) (sym s) gone)))
            (λ _ e w.
              and_then-Yields {A = Unit {0}} {B = Unit {0}} Q Q
                (close (record e { calls = suc e.calls }))
                (λ _. tell (detached o.target (peer.clock e.calls -ℤ peer.clock c.calls)))
                (or_else-Yields {A = Unit {0}} Q
                  (run_ peer (blockdev_del (hotplug_drive_id o.target))
                    (record e { calls = suc e.calls }))
                  _
                  (run_-Answers (blockdev_del (hotplug_drive_id o.target))
                    (record e { calls = suc e.calls }) r3 (after-Answers d.reads s e.reads w)))
                (λ _ c s. s)))
    where
      after-Answers :
          (rd : List Incoming) (s : rd ≡ r1) (re : List Incoming)
          → (re ≡ rd) ⊎ (re ≡ r2)
          → Answers re r3
      after-Answers rd s re (inl q) =
          subst (λ r. Answers r r3) (sym (q ∙ s))
            (Reports-Answers (hotplug_disk_id o.target) r1 r2 r3 gone closed)
      after-Answers rd s re (inr q) = subst (λ r. Answers r r3) (sym q) closed

-- A `detach` of a target that a machine can have ends well on a socket that takes every write, where
-- QEMU greets, answers the handshake and the two commands without an error, with any events before
-- each answer, and after the answer to `device_del` reports the device deleted, with any events before.
pub detach-Answers :
    (host : Host) (o : DetachFlags) (c : Conn) (m : Message) (r0 r1 r2 r3 r4 : List Incoming)
    → Reliable host.peer
    → is_empty o.qmp ≡ false
    → ltb_ℤ o.target (pos 0) ≡ false
    → ltb_ℤ o.target (pos max_hotplug_disks) ≡ true
    → host.dial o.qmp ≡ ok (message m ∷ r0)
    → Answers r0 r1
    → Answers r1 r2
    → Reports (hotplug_disk_id o.target) r2 r3
    → Answers r3 r4
    → is_done (detach host o c) ≡ true
unfolding detach check_target dial_qmp new_qmp
detach-Answers host o c m r0 r1 r2 r3 r4 reliable given low high dials opened asked gone closed =
    let start : Conn = record c {
      reads = message m ∷ r0;
      deleted = [];
      deadline = none;
      closed = false;
    } in
    let Q : List Incoming → Type 0 = λ r. r ≡ r1 in
    rw (given, low, high, dials)
      (done-and_then {A = Unit {0}} {B = Unit {0}} Q
        (explain o.qmp (new_qmp host.peer handshake_timeout) start)
        (λ _. finally_close (detach_disk host.peer o))
        (or_else-Yields {A = Unit {0}} Q (new_qmp host.peer handshake_timeout start) _ (
          or_else-Yields {A = Unit {0}} Q (handshake host.peer handshake_timeout start) _
            (handshake-Answers host.peer reliable handshake_timeout start m r0 r1 refl opened)))
        (λ _ d s.
          closing-Yields {A = Unit {0}} (λ r. r ≡ r4) (detach_disk host.peer o d)
            (detach_disk-Answers host.peer reliable o d r2 r3 r4
              (subst (λ r. Answers r r2) (sym s) asked) gone closed)))
