-- ===== src/Qmp/Wait.antt =====
-- The waits of cmd/spin-machine/main.go: for a device to be gone, and for a migration to end.
use spin_machine.Common.{
  ℕ, zero, suc, Text, lit, Bool, true, false, ◌&&◌, ◌||◌, List, [], ◌∷◌, Option, none, some, ok,
  err, text_eq, contains, length, if◌then◌else◌,
}
use spin_machine.Common.Int.{ℤ, ◌+ℤ◌, ltb_ℤ}
use spin_machine.Qmp.Wire.{
  query_migrate, Incoming, message, broken, late, got, Conn, Peer, Status, status, decode_status,
}
use spin_machine.Qmp.Session.{
  not_deleted, waiting_deleted, wait_unset, migration, not_finished, Outcome, returned, blocked,
  spent, Qmp, pure, fail, ◌>>=◌, ◌>>◌, now, set_deadline, run, is_deleted,
}

-- The loop of `waitDeleted`: other messages are read and dropped.
unfoldable pub await_deleted : Text → Conn → List Incoming → Outcome (Unit {0})
await_deleted id c [] = blocked (record c { reads = [] })
await_deleted id c (broken e ∷ rest) =
    returned (err (waiting_deleted e)) (record c { reads = rest })
await_deleted id c (late ∷ rest) = returned (err (not_deleted id)) (record c { reads = rest })
await_deleted id c (message m ∷ rest) =
    let seen : Conn = record c { reads = rest; log = got m ∷ c.log } in
    let more = await_deleted id seen rest in
    if is_deleted m && text_eq m.device id then returned (ok tt) seen else more

-- A deadline that is cleared, by the error of it, which is dropped.
abbrev pub cleared_by : Option Text → Conn → Conn
cleared_by none c = record c { deadline = none; calls = suc c.calls }
cleared_by (some e) c = record c { calls = suc c.calls }

-- `defer func() { _ = q.c.SetReadDeadline(time.Time{}) }()`.
abbrev pub cleared : Peer → Outcome (Unit {0}) → Outcome (Unit {0})
cleared peer (returned r c) = returned r (cleared_by (peer.deadline_error c.calls) c)
cleared peer (blocked c) = blocked c
cleared peer (spent c) = spent c

-- The wait, unless the device is known to be gone.
unfoldable pub wait_unless : Bool → Peer → Text → ℤ → Qmp (Unit {0})
unfolding await_deleted
wait_unless true peer id timeout = pure tt
wait_unless false peer id timeout = do
  start ← now peer
  set_deadline peer wait_unset (some (start +ℤ timeout))
  λ c. cleared peer (await_deleted id c c.reads)

-- `waitDeleted`. The event may have arrived while a reply was awaited.
unfoldable pub wait_deleted : Peer → Text → ℤ → Qmp (Unit {0})
unfolding wait_unless
wait_deleted peer id timeout c = wait_unless (contains c.deleted id) peer id timeout c

-- What a status says of a migration.
pub data Progress : Type 0 where
  completed going : Progress
  ended : Text → Text → Progress

unfoldable pub progress : Status → Progress
progress (status s desc) =
    if text_eq s (lit "completed")
    then completed
    else if text_eq s (lit "failed") || text_eq s (lit "cancelled")
    then ended s desc
    else going

-- The rest of a round, by whether the deadline has passed.
abbrev pub unless_late : Bool → Qmp (Unit {0}) → Qmp (Unit {0})
unless_late true more = fail not_finished
unless_late false more = more

-- What follows a status.
abbrev pub next_round : Peer → ℤ → Progress → Qmp (Unit {0}) → Qmp (Unit {0})
next_round peer deadline completed more = pure tt
next_round peer deadline (ended s desc) more = fail (migration s desc)
next_round peer deadline going more = do t ← now peer; unless_late (ltb_ℤ deadline t) more

-- The loop of `waitMigration`, with the rounds that it may still take.
unfoldable pub poll_migration : Peer → ℤ → ℕ → Qmp (Unit {0})
unfolding progress
poll_migration peer deadline zero c = spent c
poll_migration peer deadline (suc rounds) c =
    (do
      s ← run peer query_migrate decode_status
      next_round peer deadline (progress s) (poll_migration peer deadline rounds))
      c

-- `waitMigration`. A round reads a reply at least.
unfoldable pub wait_migration : Peer → ℤ → Qmp (Unit {0})
unfolding poll_migration
wait_migration peer timeout = do
  start ← now peer
  λ c. poll_migration peer (start +ℤ timeout) (suc (length c.reads)) c
