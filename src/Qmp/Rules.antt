-- ===== src/Qmp/Rules.antt =====
-- The rules of `qmpConn.run` and `qmpConn.waitDeleted` (cmd/spin-machine/main.go) in the logic of
-- conversations.
use spin_machine.Common.{
  Text, suc, sym, ◌≡◌, Bool, true, false, ◌&&◌, List, [], ◌∷◌, ◌++◌, Option, none, some, Result, ok,
  err, is_empty, text_eq, text_eq_iff, contains, Bool-cases, inl, inr, All, All-imp, arith, refl,
  if◌then◌else◌,
}
use spin_machine.Common.Int.{ℤ, ◌+ℤ◌}
use spin_machine.Qmp.Wire.{
  Command, Value, Refusal, Message, Incoming, message, broken, late, Event, wrote, lost, got, told,
  Conn, Peer,
}
use spin_machine.Qmp.Session.{
  wait_unset, Outcome, returned, blocked, spent, written, is_deleted, heard, reply, decoded,
  await_reply, run, set_deadline, and_then,
}
use spin_machine.Qmp.Wait.{await_deleted, cleared, cleared_by, wait_unless, wait_deleted}
use spin_machine.Qmp.Trace.{reported}
use spin_machine.Qmp.Logic.{Pred, Ends, Ends-imp, Does, bind-Does, set_deadline-Does}

-- A predicate that no message breaks, whether `run` or a wait reads it.
abbrev pub Hears : Pred → Type 0
Hears I =
    (m : Message) (log : List Event) (ids : List Text)
    → I log ids
    → I (got m ∷ log) ids × I (got m ∷ log) (if is_deleted m then ids ++ m.device ∷ [] else ids)

-- The newest event is the answer that `a` is decoded of.
unfoldable pub Answered : {A : Type 0} → (Option Value → Result Text A) → A → List Event → Type 0
Answered decode a [] = ⊥
Answered decode a (got m ∷ log) =
    (is_empty m.event ≡ true) × (m.error ≡ none) × (decode m.return ≡ ok a)
Answered decode a (wrote _ ∷ log) = ⊥
Answered decode a (lost _ ∷ log) = ⊥
Answered decode a (told _ ∷ log) = ⊥

module _ {A : Type 0} (cmd : Command) (decode : Option Value → Result Text A) (I : Pred)
    (hears : Hears I) where
  decoded-Ends :
      (r : Result Text A) (c : Conn)
      → I c.log c.deleted
      → ((a : A) → r ≡ ok a → Answered decode a c.log)
      → Ends (λ a log ids. I log ids × Answered decode a log) I I (returned (decoded cmd r) c)
  decoded-Ends (ok a) c h k = (h, k a refl)
  decoded-Ends (err e) c h k = h

  reply-Ends :
      (x : Option Refusal) (v : Option Value) (c : Conn)
      → I c.log c.deleted
      → ((a : A) → x ≡ none → decode v ≡ ok a → Answered decode a c.log)
      → Ends
          (λ a log ids. I log ids × Answered decode a log)
          I
          I
          (returned (reply cmd decode x v) c)
  unfolding reply
  reply-Ends (some x) v c h k = h
  reply-Ends none v c h k = decoded-Ends (decode v) c h (λ a. k a refl)

  await_reply-Ends :
      (c : Conn) (reads : List Incoming)
      → I c.log c.deleted
      → Ends (λ a log ids. I log ids × Answered decode a log) I I (await_reply cmd decode c reads)
  unfolding await_reply heard Answered
  await_reply-Ends c [] h = h
  await_reply-Ends c (broken e ∷ rest) h = h
  await_reply-Ends c (late ∷ rest) h = h
  await_reply-Ends c (message m ∷ rest) h = elim (Bool-cases (is_empty m.event)) [
    | inl e ↦ rw e (
        reply-Ends m.error m.return (heard m c rest) ((hears m c.log c.deleted h).1)
          (λ a p q. (e, p, q)))
    | inr e ↦ rw e (await_reply-Ends (heard m c rest) rest ((hears m c.log c.deleted h).1))
  ]

  written-Ends :
      (P E : Pred) (w : Option Text)
      → ((log : List Event) (ids : List Text) → P log ids → I (wrote cmd ∷ log) ids)
      → ((log : List Event) (ids : List Text) → P log ids → E (lost cmd ∷ log) ids)
      → ((log : List Event) (ids : List Text) → I log ids → E log ids)
      → Does P
          (λ c. and_then (written w cmd c) (λ _ c. await_reply cmd decode c c.reads))
          (λ a log ids. I log ids × Answered decode a log)
          E
          E
  written-Ends P E none f g k c h =
      let next : Conn = record c { log = wrote cmd ∷ c.log; calls = suc c.calls } in
      Ends-imp {A = A} (λ a log ids. I log ids × Answered decode a log)
        (λ a log ids. I log ids × Answered decode a log) I E (await_reply cmd decode next c.reads)
        (λ a log ids p. p) k (await_reply-Ends next c.reads (f c.log c.deleted h))
  written-Ends P E (some e) f g k c h = g c.log c.deleted h

  -- `run`: the command is written or lost, and what follows is heard.
  pub run-Does :
      (P E : Pred) (peer : Peer)
      → ((log : List Event) (ids : List Text) → P log ids → I (wrote cmd ∷ log) ids)
      → ((log : List Event) (ids : List Text) → P log ids → E (lost cmd ∷ log) ids)
      → ((log : List Event) (ids : List Text) → I log ids → E log ids)
      → Does P (run peer cmd decode) (λ a log ids. I log ids × Answered decode a log) E E
  unfolding run
  run-Does P E peer f g k c h = written-Ends P E (peer.write_error c.calls) f g k c h

-- Every device that is kept as deleted was reported so.
abbrev pub AllReported : Pred
AllReported log ids = All (λ id. reported id log ≡ true) ids

-- What was reported stays reported.
pub reported-All :
    (e : Event) (log : List Event) (ids : List Text)
    → All (λ id. reported id log ≡ true) ids
    → All (λ id. reported id (e ∷ log) ≡ true) ids
unfolding reported
reported-All (wrote _) log ids h = h
reported-All (lost _) log ids h = h
reported-All (told _) log ids h = h
reported-All (got m) log ids h = All-imp (λ id p. ground arith) ids h

pub reported-got :
    (m : Message) (log : List Event) → is_deleted m ≡ true → reported m.device (got m ∷ log) ≡ true
unfolding reported
reported-got m log e = rw (e, (text_eq_iff m.device m.device).1 refl)

-- A device that is kept as deleted was reported so.
pub AllReported-contains :
    (id : Text) (log : List Event) (ids : List Text)
    → AllReported log ids
    → contains ids id ≡ true
    → reported id log ≡ true
unfolding contains
AllReported-contains id log [] h e = cc
AllReported-contains id log (x ∷ ids) (p, h) e = elim (Bool-cases (text_eq x id)) [
  | inl q ↦ rw (sym ((text_eq_iff x id).0 q)) p
  | inr q ↦ AllReported-contains id log ids h (ground arith)
]

module _ (I : Pred) (hears : Hears I) (id : Text) where
  -- The loop of `waitDeleted` ends well with the event only.
  await_deleted-Ends :
      (c : Conn) (reads : List Incoming)
      → I c.log c.deleted
      → Ends (λ _ log ids. I log ids × (reported id log ≡ true)) I I (await_deleted id c reads)
  unfolding await_deleted reported
  await_deleted-Ends c [] h = h
  await_deleted-Ends c (broken e ∷ rest) h = h
  await_deleted-Ends c (late ∷ rest) h = h
  await_deleted-Ends c (message m ∷ rest) h =
      elim (Bool-cases (is_deleted m && text_eq m.device id)) [
        | inl e ↦ rw e ((hears m c.log c.deleted h).0, rw e refl)
        | inr e ↦ rw e (await_deleted-Ends _ rest ((hears m c.log c.deleted h).0))
      ]

  cleared-Ends :
      (peer : Peer) (o : Outcome (Unit {0})) (Q : Pred)
      → Ends (λ _. Q) I I o
      → Ends (λ _. Q) I I (cleared peer o)
  cleared-Ends peer (returned (ok a) c) Q h = clear (peer.deadline_error c.calls)
    where
      clear :
          (w : Option Text) → Ends {A = Unit {0}} (λ _. Q) I I (returned (ok a) (cleared_by w c))
      clear none = h
      clear (some e) = h
  cleared-Ends peer (returned (err x) c) Q h = clear (peer.deadline_error c.calls)
    where
      clear :
          (w : Option Text) → Ends {A = Unit {0}} (λ _. Q) I I (returned (err x) (cleared_by w c))
      clear none = h
      clear (some e) = h
  cleared-Ends peer (blocked c) Q h = h
  cleared-Ends peer (spent c) Q h = h

  wait_unless-Does :
      (peer : Peer) (timeout : ℤ) (gone : Bool) (c : Conn)
      → (gone ≡ true → reported id c.log ≡ true)
      → I c.log c.deleted
      → Ends
          (λ _ log ids. I log ids × (reported id log ≡ true))
          I
          I
          (wait_unless gone peer id timeout c)
  unfolding wait_unless
  wait_unless-Does peer timeout true c k h = (h, k refl)
  wait_unless-Does peer timeout false c k h =
      bind-Does {A = Unit {0}} {B = Unit {0}} (λ _ log ids. I log ids × (reported id log ≡ true)) I
        I I (λ _. I) (set_deadline peer wait_unset (some (peer.clock c.calls +ℤ timeout)))
        (λ _ c. cleared peer (await_deleted id c c.reads))
        (set_deadline-Does I I I peer wait_unset (some (peer.clock c.calls +ℤ timeout))
          (λ log ids h. h))
        (λ _ c h.
          cleared-Ends peer (await_deleted id c c.reads)
            (λ log ids. I log ids × (reported id log ≡ true)) (await_deleted-Ends c c.reads h))
        (record c { calls = suc c.calls }) h

  -- `waitDeleted`.
  pub wait_deleted-Does :
      (peer : Peer) (timeout : ℤ)
      → ((log : List Event) (ids : List Text) → I log ids → AllReported log ids)
      → Does I
          (wait_deleted peer id timeout)
          (λ _ log ids. I log ids × (reported id log ≡ true))
          I
          I
  unfolding wait_deleted
  wait_deleted-Does peer timeout k c h =
      wait_unless-Does peer timeout (contains c.deleted id) c
        (AllReported-contains id c.log c.deleted (k c.log c.deleted h)) h
