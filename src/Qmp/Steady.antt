-- ===== src/Qmp/Steady.antt =====
-- The operations of a conversation (cmd/spin-machine/main.go) keep what no event breaks.
use spin_machine.Common.{
  ℕ, zero, suc, Text, ◌≡◌, ◌<◌, true, false, List, [], ◌∷◌, ◌++◌, Option, Result, ok, err, length,
  arith, All-append, if◌then◌else◌, refl, Bool,
}
use spin_machine.Common.Int.{ℤ, ◌+ℤ◌, ltb_ℤ}
use spin_machine.Qmp.Wire.{
  Command, Value, query_migrate, Event, wrote, lost, got, Conn, Peer, Status, decode_status,
}
use spin_machine.Qmp.Session.{
  about, or_else, explain, Outcome, returned, blocked, spent, Qmp, run, is_deleted, and_then, fail,
  ◌>>=◌,
}
use spin_machine.Qmp.Wait.{
  poll_migration, wait_migration, next_round, unless_late, progress, Progress, completed, going,
  ended,
}
use spin_machine.Qmp.Trace.{conn_of}
use spin_machine.Qmp.Run.{is_done, written-sent}
use spin_machine.Qmp.Logic.{Pred, Ends, Does}
use spin_machine.Qmp.Rules.{Hears, Answered, AllReported, reported-All, reported-got, run-Does}

-- What is reported stays so, and a device is kept as deleted when it is reported.
pub AllReported-Hears : Hears AllReported
AllReported-Hears m log ids h = (reported-All (got m) log ids h, keep (is_deleted m) refl)
  where
    keep :
        (b : Bool)
        → is_deleted m ≡ b
        → AllReported (got m ∷ log) (if b then ids ++ m.device ∷ [] else ids)
    keep true e =
        All-append _ ids (m.device ∷ []) (reported-All (got m) log ids h) (reported-got m log e, tt)
    keep false e = reported-All (got m) log ids h

-- A round of a loop reads an answer, and has a message less to read.
and_then-Round :
    {A B : Type 0} (Q : A → Pred) (R : B → Pred) (E : Pred) (rounds : ℕ) (o : Outcome A)
    (f : A → Qmp B)
    → Ends Q E E o
    → (is_done o ≡ true → length (conn_of o).reads < rounds)
    → ((a : A) (c : Conn) → length c.reads < rounds → Q a c.log c.deleted → Ends R E E (f a c))
    → Ends R E E (and_then o f)
and_then-Round Q R E rounds (returned (ok a) c) f h l k = k a c (l refl) h
and_then-Round Q R E rounds (returned (err e) c) f h l k = h
and_then-Round Q R E rounds (blocked c) f h l k = h
and_then-Round Q R E rounds (spent c) f h l k = elim h [ ]

pub run-Round :
    {A B : Type 0} (E : Pred) (Q : A → Pred) (R : B → Pred) (peer : Peer) (cmd : Command)
    (decode : Option Value → Result Text A) (rounds : ℕ) (f : A → Qmp B) (c : Conn)
    → length c.reads < suc rounds
    → Ends Q E E (run peer cmd decode c)
    → ((a : A) (c : Conn) → length c.reads < rounds → Q a c.log c.deleted → Ends R E E (f a c))
    → Ends R E E ((run peer cmd decode >>= f) c)
unfolding run
run-Round E Q R peer cmd decode rounds f c l h k =
    let (_, _, _, less) = written-sent cmd decode (peer.write_error c.calls) c in
    and_then-Round Q R E rounds (run peer cmd decode c) f h (λ d. omega (arith, less d)) k

-- The same, where the error of the answer is explained.
explained-Round :
    {A B : Type 0} (Q : A → Pred) (R : B → Pred) (E : Pred) (what : Text) (rounds : ℕ)
    (o : Outcome A) (f : A → Qmp B)
    → Ends Q E E o
    → (is_done o ≡ true → length (conn_of o).reads < rounds)
    → ((a : A) (c : Conn) → length c.reads < rounds → Q a c.log c.deleted → Ends R E E (f a c))
    → Ends R E E (and_then (or_else o (λ e. fail (about what e))) f)
explained-Round Q R E what rounds (returned (ok a) c) f h l k = k a c (l refl) h
explained-Round Q R E what rounds (returned (err e) c) f h l k = h
explained-Round Q R E what rounds (blocked c) f h l k = h
explained-Round Q R E what rounds (spent c) f h l k = elim h [ ]

pub explained_run-Round :
    {A B : Type 0} (E : Pred) (Q : A → Pred) (R : B → Pred) (peer : Peer) (what : Text)
    (cmd : Command) (decode : Option Value → Result Text A) (rounds : ℕ) (f : A → Qmp B) (c : Conn)
    → length c.reads < suc rounds
    → Ends Q E E (run peer cmd decode c)
    → ((a : A) (c : Conn) → length c.reads < rounds → Q a c.log c.deleted → Ends R E E (f a c))
    → Ends R E E ((explain what (run peer cmd decode) >>= f) c)
unfolding run
explained_run-Round E Q R peer what cmd decode rounds f c l h k =
    let (_, _, _, less) = written-sent cmd decode (peer.write_error c.calls) c in
    explained-Round Q R E what rounds (run peer cmd decode c) f h (λ d. omega (arith, less d)) k

-- The answer that says a migration is complete.
abbrev pub Completed : List Event → Type 0
Completed log = (s : Status) × (progress s ≡ completed) × Answered decode_status s log

module _ (I : Pred) (hears : Hears I)
    (asks : (log : List Event) (ids : List Text) → I log ids → I (wrote query_migrate ∷ log) ids)
    (loses : (log : List Event) (ids : List Text)
      → I log ids
      → I (lost query_migrate ∷ log) ids) where
  -- What follows a status, where what is left to do ends well.
  next_round-Ends :
      (peer : Peer) (deadline : ℤ) (s : Status) (p : Progress) (more : Qmp (Unit {0})) (c : Conn)
      → progress s ≡ p
      → I c.log c.deleted
      → Answered decode_status s c.log
      → Ends (λ _ log ids. I log ids × Completed log) I I (more (record c { calls = suc c.calls }))
      → Ends (λ _ log ids. I log ids × Completed log) I I (next_round peer deadline p more c)
  next_round-Ends peer deadline s completed more c e h a k = (h, (s, e, a))
  next_round-Ends peer deadline s (ended _ _) more c e h a k = h
  next_round-Ends peer deadline s going more c e h a k = late (ltb_ℤ deadline (peer.clock c.calls))
    where
      late :
          (b : Bool)
          → Ends {A = Unit {0}}
              (λ _ log ids. I log ids × Completed log)
              I
              I
              (unless_late b more (record c { calls = suc c.calls }))
      late true = h
      late false = k

  -- A migration is waited for until it is complete; a round for every message is enough.
  poll_migration-Ends :
      (peer : Peer) (deadline : ℤ) (rounds : ℕ) (c : Conn)
      → length c.reads < rounds
      → I c.log c.deleted
      → Ends (λ _ log ids. I log ids × Completed log) I I (poll_migration peer deadline rounds c)
  unfolding poll_migration
  poll_migration-Ends peer deadline zero c l h = omega arith
  poll_migration-Ends peer deadline (suc rounds) c l h =
      run-Round I (λ s log ids. I log ids × Answered decode_status s log)
        (λ _ log ids. I log ids × Completed log) peer query_migrate decode_status rounds
        (λ s. next_round peer deadline (progress s) (poll_migration peer deadline rounds)) c l
        (run-Does query_migrate decode_status I hears I I peer asks loses (λ log ids h. h) c h)
        (λ s c l (h, a).
          next_round-Ends peer deadline s (progress s) (poll_migration peer deadline rounds) c refl
            h a (poll_migration-Ends peer deadline rounds (record c { calls = suc c.calls }) l h))

  pub wait_migration-Does :
      (peer : Peer) (timeout : ℤ)
      → Does I (wait_migration peer timeout) (λ _ log ids. I log ids × Completed log) I I
  unfolding wait_migration
  wait_migration-Does peer timeout c h =
      poll_migration-Ends peer (peer.clock c.calls +ℤ timeout) (suc (length c.reads))
        (record c { calls = suc c.calls }) (omega arith) h
