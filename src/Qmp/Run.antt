-- ===== src/Qmp/Run.antt =====
-- What one command of a conversation comes to (`qmpConn.run` of cmd/spin-machine/main.go).
use spin_machine.Common.{
  suc, ◌≤◌, ◌<◌, Text, lit, ◌≡◌, refl, Bool, true, false, List, [], ◌∷◌, Option, none, some, Result,
  ok, err, is_empty, text_eq, arith, length,
}
use spin_machine.Qmp.Wire.{Command, Value, Incoming, message, broken, late, wrote, Conn}
use spin_machine.Qmp.Session.{
  Outcome, returned, blocked, spent, written, and_then, heard, await_reply,
}
use spin_machine.Qmp.Trace.{conn_of, sent}

-- The text that names an event is not empty.
pub is_deleted-event : (e : Text) → text_eq e (lit "DEVICE_DELETED") ≡ true → is_empty e ≡ false
unfolding text_eq lit
is_deleted-event [] h = cc
is_deleted-event (_ ∷ _) h = refl

-- Whether an outcome is a value, or the model's fuel was too small.
abbrev pub is_done : {A : Type 0} → Outcome A → Bool
is_done (returned (ok _) c) = true
is_done (returned (err _) c) = false
is_done (blocked c) = false
is_done (spent c) = false

abbrev pub is_spent : {A : Type 0} → Outcome A → Bool
is_spent (returned _ c) = false
is_spent (blocked c) = false
is_spent (spent c) = true

module _ {A : Type 0} (cmd : Command) (decode : Option Value → Result Text A) where
  -- `run`, by the error of its write.
  abbrev pub ran : Option Text → Conn → Outcome A
  ran w c = and_then (written w cmd c) (λ _ c. await_reply cmd decode c c.reads)

  await_reply-sent :
      (c : Conn) (reads : List Incoming)
      → sent (conn_of (await_reply cmd decode c reads)).log ≡ sent c.log
  unfolding await_reply heard sent
  await_reply-sent c [] = refl
  await_reply-sent c (broken e ∷ rest) = refl
  await_reply-sent c (late ∷ rest) = refl
  await_reply-sent c (message m ∷ rest) = ground (arith, await_reply-sent (heard m c rest) rest)

  -- The reply is read.
  await_reply-reads :
      (c : Conn) (reads : List Incoming)
      → (is_spent (await_reply cmd decode c reads) ≡ false)
        × (length (conn_of (await_reply cmd decode c reads)).reads ≤ length reads)
        × (is_done (await_reply cmd decode c reads) ≡ true
            → length (conn_of (await_reply cmd decode c reads)).reads < length reads)
  unfolding await_reply heard
  await_reply-reads c [] = (refl, omega arith, λ h. cc)
  await_reply-reads c (broken e ∷ rest) = (refl, omega arith, λ h. cc)
  await_reply-reads c (late ∷ rest) = (refl, omega arith, λ h. cc)
  await_reply-reads c (message m ∷ rest) = ground (arith, await_reply-reads (heard m c rest) rest)

  -- The same of the whole of `run`, by the error of its write.
  pub written-sent :
      (w : Option Text) (c : Conn)
      → (is_done (ran w c) ≡ true → sent (conn_of (ran w c)).log ≡ cmd ∷ sent c.log)
        × (is_spent (ran w c) ≡ false)
        × (length (conn_of (ran w c)).reads ≤ length c.reads)
        × (is_done (ran w c) ≡ true → length (conn_of (ran w c)).reads < length c.reads)
  unfolding sent
  written-sent none c =
      let (n, l, r) =
        await_reply-reads (record c { log = wrote cmd ∷ c.log; calls = suc c.calls }) c.reads in
      (
        λ h. await_reply-sent (record c { log = wrote cmd ∷ c.log; calls = suc c.calls }) c.reads,
        n,
        l,
        r,
      )
  written-sent (some e) c = (λ h. cc, refl, omega arith, λ h. cc)
