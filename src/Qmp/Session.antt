-- ===== src/Qmp/Session.antt =====
-- The connection of cmd/spin-machine/main.go: `qmpConn.run`, the handshake and the dialling.
use spin_machine.Common.{
  ℕ, suc, Text, lit, Bool, true, false, List, [], ◌∷◌, ◌++◌, Option, none, some, Result, ok, err,
  is_empty, text_eq, if◌then◌else◌,
}
use spin_machine.Common.Int.{ℤ, ◌+ℤ◌}
use spin_machine.Qmp.Wire.{
  Command, qmp_capabilities, name, Value, Refusal, Message, Incoming, message, broken, late, wrote,
  lost, got, Conn, Peer, decode_nothing, Report, told,
}

pub data QmpError : Type 0 where
  missing_flags no_greeting : QmpError
  bad_target : ℤ → QmpError
  unresolved no_connection : Text → Text → QmpError
  deadline_unset deadline_kept wait_unset unread_greeting : Text → QmpError
  unsent unread undecoded : Text → Text → QmpError
  refused : Text → Refusal → QmpError
  not_deleted waiting_deleted : Text → QmpError
  migration : Text → Text → QmpError
  not_finished : QmpError
  not_reached : ℕ → ℤ → QmpError
  about : Text → QmpError → QmpError

-- What an operation comes to: it returns a value or an error, or it waits for a read; `spent` is the
-- model's own, for a loop whose fuel was too small.
pub data Outcome (A : Type 0) : Type 0 where
  returned : Result QmpError A → Conn → Outcome A
  blocked spent : Conn → Outcome A

abbrev pub Qmp : Type 0 → Type 0
Qmp A = Conn → Outcome A

abbrev pub pure : {A : Type 0} → A → Qmp A
pure a c = returned (ok a) c

abbrev pub fail : {A : Type 0} → QmpError → Qmp A
fail e c = returned (err e) c

-- What follows an outcome.
abbrev pub and_then : {A B : Type 0} → Outcome A → (A → Qmp B) → Outcome B
and_then (returned (ok a) c) f = f a c
and_then (returned (err e) c) f = returned (err e) c
and_then (blocked c) f = blocked c
and_then (spent c) f = spent c

infixl 5 ◌>>=◌ ◌>>◌
abbrev pub ◌>>=◌ : {A B : Type 0} → Qmp A → (A → Qmp B) → Qmp B
◌>>=◌ m f c = and_then (m c) f

abbrev pub ◌>>◌ : {B : Type 0} → Qmp (Unit {0}) → Qmp B → Qmp B
m >> k = m >>= λ _. k

-- An operation of which the error is dealt with.
abbrev pub or_else : {A : Type 0} → Outcome A → (QmpError → Qmp A) → Outcome A
or_else (returned (ok a) c) h = returned (ok a) c
or_else (returned (err e) c) h = h e c
or_else (blocked c) h = blocked c
or_else (spent c) h = spent c

abbrev pub recover : {A : Type 0} → Qmp A → (QmpError → Qmp A) → Qmp A
recover m h c = or_else (m c) h

-- An error with what it is about.
abbrev pub explain : {A : Type 0} → Text → Qmp A → Qmp A
explain what m = recover m (λ e. fail (about what e))

-- `_ = q.run(...)`.
abbrev pub ignore : Qmp (Unit {0}) → Qmp (Unit {0})
ignore m = recover m (λ _. pure tt)

-- `if b { return e }`.
abbrev pub require : Bool → QmpError → Qmp (Unit {0})
require true e = fail e
require false e = pure tt

abbrev pub lift : {A : Type 0} → (Text → QmpError) → Result Text A → Qmp A
lift f (ok a) = pure a
lift f (err e) = fail (f e)

abbrev pub tell : Report → Qmp (Unit {0})
tell r c = returned (ok tt) (record c { log = told r ∷ c.log })

-- `time.Now()`.
abbrev pub now : Peer → Qmp ℤ
now peer c = returned (ok (peer.clock c.calls)) (record c { calls = suc c.calls })

-- A deadline that is set, by the error of setting it.
abbrev pub deadline_set : Option Text → (Text → QmpError) → Option ℤ → Qmp (Unit {0})
deadline_set none f d c = returned (ok tt) (record c { deadline = d; calls = suc c.calls })
deadline_set (some e) f d c = returned (err (f e)) (record c { calls = suc c.calls })

-- `SetDeadline`: a time, or none.
abbrev pub set_deadline : Peer → (Text → QmpError) → Option ℤ → Qmp (Unit {0})
set_deadline peer f d c = deadline_set (peer.deadline_error c.calls) f d c

-- A write of the socket, by its error.
abbrev pub written : Option Text → Command → Qmp (Unit {0})
written none cmd c = returned (ok tt) (record c { log = wrote cmd ∷ c.log; calls = suc c.calls })
written (some e) cmd c =
    returned (err (unsent (name cmd) e)) (record c { log = lost cmd ∷ c.log; calls = suc c.calls })

-- `enc.Encode(req)`.
abbrev pub send : Peer → Command → Qmp (Unit {0})
send peer cmd c = written (peer.write_error c.calls) cmd c

abbrev pub is_deleted : Message → Bool
is_deleted m = text_eq m.event (lit "DEVICE_DELETED")

-- What is kept of a message that `run` reads.
unfoldable pub heard : Message → Conn → List Incoming → Conn
heard m c rest = record c {
  reads = rest;
  log = got m ∷ c.log;
  deleted = if is_deleted m then c.deleted ++ m.device ∷ [] else c.deleted;
}

-- What is decoded, or that it cannot be.
abbrev pub decoded : {A : Type 0} → Command → Result Text A → Result QmpError A
decoded cmd (ok a) = ok a
decoded cmd (err e) = err (undecoded (name cmd) e)

-- The reply to a command, from a message that is no event: its error and its value.
unfoldable pub reply :
    {A : Type 0}
    → Command
    → (Option Value → Result Text A)
    → Option Refusal
    → Option Value
    → Result QmpError A
reply cmd decode (some e) value = err (refused (name cmd) e)
reply cmd decode none value = decoded cmd (decode value)

-- The loop of `run`, over what the socket gives.
unfoldable pub await_reply :
    {A : Type 0} → Command → (Option Value → Result Text A) → Conn → List Incoming → Outcome A
unfolding heard reply
await_reply cmd decode c [] = blocked (record c { reads = [] })
await_reply cmd decode c (broken e ∷ rest) =
    returned (err (unread (name cmd) e)) (record c { reads = rest })
await_reply cmd decode c (late ∷ rest) =
    returned (err (unread (name cmd) (lit "i/o timeout"))) (record c { reads = rest })
await_reply cmd decode c (message m ∷ rest) =
    let more = await_reply cmd decode (heard m c rest) rest in
    if is_empty m.event then returned (reply cmd decode m.error m.return) (heard m c rest) else more

-- `run`, with what is decoded of the reply.
unfoldable pub run : {A : Type 0} → Peer → Command → (Option Value → Result Text A) → Qmp A
unfolding await_reply
run peer cmd decode = do send peer cmd; λ c. await_reply cmd decode c c.reads

-- `run` with no value wanted.
abbrev pub run_ : Peer → Command → Qmp (Unit {0})
run_ peer cmd = run peer cmd decode_nothing

-- What the first read of the socket gives, of which nothing is kept.
abbrev pub greeted : List Incoming → Qmp (Unit {0})
greeted [] c = blocked c
greeted (message m ∷ rest) c = returned (ok tt) (record c { reads = rest; log = got m ∷ c.log })
greeted (broken e ∷ rest) c = returned (err (unread_greeting e)) (record c { reads = rest })
greeted (late ∷ rest) c = returned (err no_greeting) (record c { reads = rest })

-- The greeting: any message.
unfoldable pub greeting : Qmp (Unit {0})
greeting c = greeted c.reads c

-- `handshakeTimeout`, in nanoseconds.
unfoldable pub handshake_timeout : ℤ
handshake_timeout = ℤ.pos 5_000_000_000

-- `handshake`.
unfoldable pub handshake : Peer → ℤ → Qmp (Unit {0})
unfolding greeting run
handshake peer timeout = do
  start ← now peer
  set_deadline peer deadline_unset (some (start +ℤ timeout))
  greeting
  run_ peer qmp_capabilities
  set_deadline peer deadline_kept none

-- `Close`.
abbrev pub close : Conn → Conn
close c = record c { closed = true }

abbrev pub closing : {A : Type 0} → Outcome A → Outcome A
closing (returned r c) = returned r (close c)
closing (blocked c) = blocked c
closing (spent c) = spent c

-- An operation that ends with `defer c.Close()`.
abbrev pub finally_close : {A : Type 0} → Qmp A → Qmp A
finally_close m c = closing (m c)

-- `newQMP`: a monitor that fails the handshake is closed.
unfoldable pub new_qmp : Peer → ℤ → Qmp (Unit {0})
unfolding handshake
new_qmp peer timeout = recover (handshake peer timeout) (λ e c. returned (err e) (close c))

-- What the commands take from the host: the resolution of a path, and a socket's connection, as
-- what its reads will give.
pub record Host : Type 0 where
  pub abs : Text → Result Text Text
  pub dial : Text → Result Text (List Incoming)
  pub peer : Peer

-- `dialQMP`.
unfoldable pub dial_qmp : Host → Text → Qmp (Unit {0})
unfolding new_qmp
dial_qmp host socket = do
  reads ← lift (no_connection socket) (host.dial socket)
  λ c.
      explain socket (new_qmp host.peer handshake_timeout)
        (record c { reads = reads; deleted = []; deadline = none; closed = false })
