-- ===== src/Qmp/Closing.antt =====
-- The commands of cmd/spin-machine/main.go leave no connection open.
use spin_machine.Common.{
  not, lit, Text, ◌≡◌, refl, Bool, true, false, List, [], none, Result, ok, err, ◌||◌, is_empty,
}
use spin_machine.Common.Int.{ltb_ℤ, pos}
use spin_machine.Machine.Types.{max_hotplug_disks}
use spin_machine.Qmp.Wire.{Incoming, Conn}
use spin_machine.Qmp.Session.{
  QmpError, bad_target, missing_flags, unresolved, no_connection, Outcome, returned, blocked, spent,
  Qmp, and_then, or_else, close, closing, finally_close, fail, about, require, lift, explain,
  handshake, handshake_timeout, new_qmp, dial_qmp, Host, ◌>>=◌, ◌>>◌,
}
use spin_machine.Qmp.Commands.{
  Task, attaching, detaching, resizing, saving, restoring, perform, attach, attach_disk, detach,
  detach_disk, memory, resize_memory, save, save_state, restore, restore_state, check_target,
}

-- A command that has returned has no open connection.
abbrev pub IsClosed : {A : Type 0} → Outcome A → Type 0
IsClosed (returned r c) = c.closed ≡ true
IsClosed (blocked c) = Unit
IsClosed (spent c) = Unit

-- An error that has none.
abbrev pub IsClosedError : {A : Type 0} → Outcome A → Type 0
IsClosedError (returned (ok _) c) = Unit
IsClosedError (returned (err _) c) = c.closed ≡ true
IsClosedError (blocked c) = Unit
IsClosedError (spent c) = Unit

closing-IsClosed : {A : Type 0} (o : Outcome A) → IsClosed (closing o)
closing-IsClosed (returned r c) = refl
closing-IsClosed (blocked c) = tt
closing-IsClosed (spent c) = tt

and_then-IsClosed :
    {A B : Type 0} (o : Outcome A) (f : A → Qmp B)
    → IsClosedError o
    → ((a : A) (c : Conn) → IsClosed (f a c))
    → IsClosed (and_then o f)
and_then-IsClosed (returned (ok a) c) f h k = k a c
and_then-IsClosed (returned (err e) c) f h k = h
and_then-IsClosed (blocked c) f h k = tt
and_then-IsClosed (spent c) f h k = tt

explain-IsClosedError :
    {A : Type 0} (what : Text) (o : Outcome A)
    → IsClosedError o
    → IsClosedError (or_else o (λ e. fail (about what e)))
explain-IsClosedError what (returned (ok a) c) h = tt
explain-IsClosedError what (returned (err e) c) h = h
explain-IsClosedError what (blocked c) h = tt
explain-IsClosedError what (spent c) h = tt

-- A handshake that fails closes its connection.
shaken-IsClosedError :
    {A : Type 0} (o : Outcome A) → IsClosedError (or_else o (λ e c. returned (err e) (close c)))
shaken-IsClosedError (returned (ok a) c) = tt
shaken-IsClosedError (returned (err e) c) = refl
shaken-IsClosedError (blocked c) = tt
shaken-IsClosedError (spent c) = tt

dialled-IsClosedError :
    (host : Host) (socket : Text) (r : Result Text (List Incoming)) (c : Conn)
    → c.closed ≡ true
    → IsClosedError (
        and_then (lift (no_connection socket) r c) (λ reads c.
          explain socket
            (new_qmp host.peer handshake_timeout)
            (record c { reads = reads; deleted = []; deadline = none; closed = false })))
unfolding new_qmp
dialled-IsClosedError host socket (err e) c h = h
dialled-IsClosedError host socket (ok reads) c h = explain-IsClosedError socket _ (
    shaken-IsClosedError (
      handshake host.peer handshake_timeout
        (record c { reads = reads; deleted = []; deadline = none; closed = false })))

-- A conversation between the dialling and the closing.
talk-IsClosed :
    (host : Host) (socket : Text) (m : Qmp (Unit {0})) (c : Conn)
    → c.closed ≡ true
    → IsClosed ((dial_qmp host socket >> finally_close m) c)
unfolding dial_qmp
talk-IsClosed host socket m c h =
    and_then-IsClosed (dial_qmp host socket c) (λ _. finally_close m)
      (dialled-IsClosedError host socket (host.dial socket) c h) (λ _ c. closing-IsClosed (m c))

module _ (k : Qmp (Unit {0})) (closed : (c : Conn) → c.closed ≡ true → IsClosed (k c)) where
  require-IsClosed :
      (b : Bool) (e : QmpError) (c : Conn) → c.closed ≡ true → IsClosed ((require b e >> k) c)
  require-IsClosed true e c h = h
  require-IsClosed false e c h = closed c h

  explained_require-IsClosed :
      (what : Text) (b : Bool) (e : QmpError) (c : Conn)
      → c.closed ≡ true
      → IsClosed ((explain what (require b e) >> k) c)
  explained_require-IsClosed what true e c h = h
  explained_require-IsClosed what false e c h = closed c h

lift-IsClosed :
    {A : Type 0} (f : Text → QmpError) (r : Result Text A) (k : A → Qmp (Unit {0}))
    → ((a : A) (c : Conn) → c.closed ≡ true → IsClosed (k a c))
    → (c : Conn) → c.closed ≡ true
    → IsClosed ((lift f r >>= k) c)
lift-IsClosed f (ok a) k closed c h = closed a c h
lift-IsClosed f (err e) k closed c h = h

-- Whatever the host and QEMU do, a command that returns, with an error or without, leaves no
-- connection open, where none was open before it.
pub perform-IsClosed :
    (host : Host) (task : Task) (c : Conn) → c.closed ≡ true → IsClosed (perform host task c)
unfolding perform attach detach memory save restore check_target
perform-IsClosed host (attaching o) =
    let talk : Text → Qmp (Unit {0}) =
      λ path. dial_qmp host o.qmp >> finally_close (attach_disk host.peer o path) in
    let resolve = lift (unresolved o.disk) (host.abs o.disk) >>= talk in
    let late = ltb_ℤ o.target (pos 0) || not (ltb_ℤ o.target (pos max_hotplug_disks)) in
    require-IsClosed (explain (lit "attach") (require late (bad_target o.target)) >> resolve)
      (explained_require-IsClosed resolve
        (lift-IsClosed (unresolved o.disk) (host.abs o.disk) talk
          (λ path. talk-IsClosed host o.qmp (attach_disk host.peer o path)))
        (lit "attach") late (bad_target o.target))
      (is_empty o.qmp || is_empty o.disk) missing_flags
perform-IsClosed host (detaching o) =
    let talk = dial_qmp host o.qmp >> finally_close (detach_disk host.peer o) in
    let late = ltb_ℤ o.target (pos 0) || not (ltb_ℤ o.target (pos max_hotplug_disks)) in
    require-IsClosed (explain (lit "detach") (require late (bad_target o.target)) >> talk)
      (explained_require-IsClosed talk (talk-IsClosed host o.qmp (detach_disk host.peer o))
        (lit "detach") late (bad_target o.target))
      (is_empty o.qmp) missing_flags
perform-IsClosed host (resizing o) =
    require-IsClosed (dial_qmp host o.qmp >> finally_close (resize_memory host.peer o))
      (talk-IsClosed host o.qmp (resize_memory host.peer o))
      (is_empty o.qmp || ltb_ℤ o.size_mb (pos 0)) missing_flags
perform-IsClosed host (saving o) =
    let talk : Text → Qmp (Unit {0}) =
      λ to. dial_qmp host o.qmp >> finally_close (save_state host.peer o to) in
    require-IsClosed (lift (unresolved o.to) (host.abs o.to) >>= talk)
      (lift-IsClosed (unresolved o.to) (host.abs o.to) talk
        (λ to. talk-IsClosed host o.qmp (save_state host.peer o to)))
      (is_empty o.qmp || is_empty o.to) missing_flags
perform-IsClosed host (restoring o) =
    let talk : Text → Qmp (Unit {0}) =
      λ from. dial_qmp host o.qmp >> finally_close (restore_state host.peer o from) in
    require-IsClosed (lift (unresolved o.from) (host.abs o.from) >>= talk)
      (lift-IsClosed (unresolved o.from) (host.abs o.from) talk
        (λ from. talk-IsClosed host o.qmp (restore_state host.peer o from)))
      (is_empty o.qmp || is_empty o.from) missing_flags
