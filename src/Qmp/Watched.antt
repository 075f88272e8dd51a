-- ===== src/Qmp/Watched.antt =====
-- Conversations (cmd/spin-machine/main.go) that send each command only where it is allowed.
use spin_machine.Common.{
  suc, ap, Text, ◌≡◌, false, List, [], ◌∷◌, Option, none, some, Result, ok, err,
}
use spin_machine.Common.Int.{ℤ, ◌+ℤ◌}
use spin_machine.Qmp.Wire.{
  Command, qmp_capabilities, Value, Incoming, message, broken, late, Event, wrote, lost, got, told,
  Conn, Peer, Report, decode_nothing,
}
use spin_machine.Qmp.Session.{
  QmpError, Outcome, returned, blocked, spent, Qmp, run, run_, greeted, greeting, handshake,
  handshake_timeout, deadline_unset, deadline_kept, no_connection, new_qmp, dial_qmp, close,
  closing, finally_close, Host, set_deadline, lift, explain, tell, ◌>>=◌, ◌>>◌,
}
use spin_machine.Qmp.Trace.{sent}
use spin_machine.Qmp.Logic.{
  Pred, Ends, Does, bind-Does, recover-Does, explain-Does, lift-Does, set_deadline-Does,
}
use spin_machine.Qmp.Rules.{Hears, Answered, AllReported, reported-All, run-Does}
use spin_machine.Qmp.Steady.{AllReported-Hears}

-- Every command that was sent and every report that was made was allowed by what had happened before.
unfoldable pub Guarded : (Event → List Event → Type 0) → List Event → Type 0
Guarded G [] = Unit
Guarded G (wrote cmd ∷ log) = G (wrote cmd) log × Guarded G log
Guarded G (lost _ ∷ log) = Guarded G log
Guarded G (got _ ∷ log) = Guarded G log
Guarded G (told r ∷ log) = G (told r) log × Guarded G log

-- And every device that is kept as deleted was reported so.
abbrev pub Watched : (Event → List Event → Type 0) → Pred
Watched G log ids = AllReported log ids × Guarded G log

-- And the commands `cmds` were sent, the newest first.
abbrev pub Sent : (Event → List Event → Type 0) → List Command → Pred
Sent G cmds log ids = Watched G log ids × (sent log ≡ cmds)

abbrev pub Sent_Answered :
    {A : Type 0}
    → (Option Value → Result Text A)
    → (Event → List Event → Type 0)
    → List Command
    → A
    → Pred
Sent_Answered decode G cmds a log ids = Sent G cmds log ids × Answered decode a log

closing-Ends :
    {A : Type 0} (Q : A → Pred) (E : Pred) (o : Outcome A) → Ends Q E E o → Ends Q E E (closing o)
closing-Ends Q E (returned (ok a) c) h = h
closing-Ends Q E (returned (err e) c) h = h
closing-Ends Q E (blocked c) h = h
closing-Ends Q E (spent c) h = h

pub finally_close-Does :
    {A : Type 0} (P : Pred) (Q : A → Pred) (E : Pred) (m : Qmp A)
    → Does P m Q E E
    → Does P (finally_close m) Q E E
finally_close-Does P Q E m d c h = closing-Ends Q E (m c) (d c h)

module _ (G : Event → List Event → Type 0) where
  pub Watched-Hears : Hears (Watched G)
  unfolding Guarded
  Watched-Hears m log ids (h, g) = let (a, b) = AllReported-Hears m log ids h in ((a, g), (b, g))

  pub Sent-Hears : (cmds : List Command) → Hears (Sent G cmds)
  unfolding sent
  Sent-Hears cmds m log ids (h, e) = let (a, b) = Watched-Hears m log ids h in ((a, e), (b, e))

  -- `run`, where its command is allowed.
  pub run-Sent :
      {A : Type 0} (cmds : List Command) (P : Pred) (peer : Peer) (cmd : Command)
      (decode : Option Value → Result Text A)
      → ((log : List Event) (ids : List Text) → P log ids → Sent G cmds log ids)
      → ((log : List Event) (ids : List Text) → P log ids → G (wrote cmd) log)
      → Does P (run peer cmd decode) (Sent_Answered decode G (cmd ∷ cmds)) (Watched G) (Watched G)
  unfolding Guarded sent
  run-Sent cmds P peer cmd decode f g =
      run-Does cmd decode (Sent G (cmd ∷ cmds)) (Sent-Hears (cmd ∷ cmds)) P (Watched G) peer
        (λ log ids p.
          let ((h, w), s) = f log ids p in
          ((reported-All (wrote cmd) log ids h, (g log ids p, w)), ap (λ cs. cmd ∷ cs) s))
        (λ log ids p. let ((h, w), _) = f log ids p in (reported-All (lost cmd) log ids h, w))
        (λ log ids (h, _). h)

  -- The same with its error explained.
  pub run_-Sent :
      (cmds : List Command) (P : Pred) (peer : Peer) (what : Text) (cmd : Command)
      → ((log : List Event) (ids : List Text) → P log ids → Sent G cmds log ids)
      → ((log : List Event) (ids : List Text) → P log ids → G (wrote cmd) log)
      → Does P
          (explain what (run_ peer cmd))
          (Sent_Answered decode_nothing G (cmd ∷ cmds))
          (Watched G)
          (Watched G)
  run_-Sent cmds P peer what cmd f g =
      explain-Does (Sent_Answered decode_nothing G (cmd ∷ cmds)) (Watched G) (Watched G) P what
        (run_ peer cmd) (run-Sent cmds P peer cmd decode_nothing f g)

  pub tell-Sent :
      (cmds : List Command) (P : Pred) (r : Report)
      → ((log : List Event) (ids : List Text) → P log ids → Sent G cmds log ids)
      → ((log : List Event) (ids : List Text) → P log ids → G (told r) log)
      → Does P (tell r) (λ _. Sent G cmds) (Watched G) (Watched G)
  unfolding Guarded sent
  tell-Sent cmds P r f g c p =
      let ((h, w), s) = f c.log c.deleted p in
      ((reported-All (told r) c.log c.deleted h, (g c.log c.deleted p, w)), s)

  -- One step after another, under the watch.
  pub then-Watched :
      {A B : Type 0} (P : Pred) (Q : A → Pred) (R : B → Pred) (m : Qmp A) (f : A → Qmp B)
      → Does P m Q (Watched G) (Watched G)
      → ((a : A) → Does (Q a) (f a) R (Watched G) (Watched G))
      → Does P (m >>= f) R (Watched G) (Watched G)
  then-Watched P Q R m f = bind-Does R (Watched G) (Watched G) P Q m f

  greeted-Does :
      (cmds : List Command) (c : Conn) (reads : List Incoming)
      → Sent G cmds c.log c.deleted
      → Ends (λ _. Sent G cmds) (Watched G) (Watched G) (greeted reads c)
  greeted-Does cmds c [] (h, _) = h
  greeted-Does cmds c (broken e ∷ rest) (h, _) = h
  greeted-Does cmds c (late ∷ rest) (h, _) = h
  greeted-Does cmds c (message m ∷ rest) h = (Sent-Hears cmds m c.log c.deleted h).0

  deadline-Sent :
      (cmds : List Command) (peer : Peer) (f : Text → QmpError) (d : Option ℤ)
      → Does (Sent G cmds) (set_deadline peer f d) (λ _. Sent G cmds) (Watched G) (Watched G)
  deadline-Sent cmds peer f d =
      set_deadline-Does (Sent G cmds) (Watched G) (Watched G) peer f d (λ log ids (h, _). h)

  module _ (opens : (log : List Event) → G (wrote qmp_capabilities) log) (cmds : List Command) where
    abbrev pub Opened : Pred
    Opened = Sent G (qmp_capabilities ∷ cmds)

    handshake-Sent :
        (peer : Peer) (timeout : ℤ)
        → Does (Sent G cmds) (handshake peer timeout) (λ _. Opened) (Watched G) (Watched G)
    unfolding handshake greeting
    handshake-Sent peer timeout =
        let S = Sent G cmds in
        let last = set_deadline peer deadline_kept none in
        let opened = run_ peer qmp_capabilities >> last in
        λ c.
          then-Watched S (λ _. S) (λ _. Opened)
            (set_deadline peer deadline_unset (some (peer.clock c.calls +ℤ timeout)))
            (λ _. greeting >> opened)
            (deadline-Sent cmds peer deadline_unset (some (peer.clock c.calls +ℤ timeout)))
            (λ _.
              then-Watched S (λ _. S) (λ _. Opened) greeting (λ _. opened)
                (λ c. greeted-Does cmds c c.reads)
                (λ _.
                  then-Watched S (Sent_Answered decode_nothing G (qmp_capabilities ∷ cmds))
                    (λ _. Opened) (run_ peer qmp_capabilities) (λ _. last)
                    (run-Sent cmds S peer qmp_capabilities decode_nothing (λ log ids h. h)
                      (λ log ids h. opens log))
                    (λ _ c (h, _).
                      deadline-Sent (qmp_capabilities ∷ cmds) peer deadline_kept none c h)))
            (record c { calls = suc c.calls })

    -- A monitor is dialled with nothing kept of another.
    pub dial_qmp-Sent :
        (host : Host) (socket : Text)
        → Does (Sent G cmds) (dial_qmp host socket) (λ _. Opened) (Watched G) (Watched G)
    unfolding dial_qmp new_qmp
    dial_qmp-Sent host socket =
        let S = Sent G cmds in
        let W = Watched G in
        then-Watched S (λ _. S) (λ _. Opened) (lift (no_connection socket) (host.dial socket))
          (λ reads. opened_with reads)
          (lift-Does (λ _. S) W W S (no_connection socket) (host.dial socket) (λ _ log ids h. h)
            (λ log ids (h, _). h))
          (λ reads c ((_, g), s).
            explain-Does (λ _. Opened) W W S socket (new_qmp host.peer handshake_timeout)
              (recover-Does (λ _. Opened) W W S W (handshake host.peer handshake_timeout)
                (λ e c. returned (err e) (close c)) (handshake-Sent host.peer handshake_timeout)
                (λ e c h. h))
              (record c { reads = reads; deleted = []; deadline = none; closed = false })
              ((tt, g), s))
      where
        opened_with : List Incoming → Qmp (Unit {0})
        opened_with reads c =
            explain socket (new_qmp host.peer handshake_timeout)
              (record c { reads = reads; deleted = []; deadline = none; closed = false })
