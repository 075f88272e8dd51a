-- ===== src/Qmp/Dialled.antt =====
-- The parts that the commands of cmd/spin-machine/main.go share, under the watch: the checks of
-- flags, the paths, and a conversation between the dialling and the closing.
use spin_machine.Common.{Text, ◌≡◌, refl, Bool, List, ◌∷◌, Option, Result}
use spin_machine.Qmp.Wire.{
  Command, qmp_capabilities, Value, Event, wrote, told, Report, Peer, decode_nothing,
}
use spin_machine.Qmp.Trace.{sent}
use spin_machine.Qmp.Rules.{Answered, reported-All}
use spin_machine.Qmp.Session.{
  run, run_, tell, QmpError, Qmp, dial_qmp, finally_close, Host, explain, require, lift, ◌>>=◌,
  ◌>>◌,
}
use spin_machine.Qmp.Logic.{Pred, Ends-imp, Does, explain-Does, require-Does, lift-Does}
use spin_machine.Qmp.Watched.{
  Watched, Guarded, Sent, Sent_Answered, run-Sent, then-Watched, dial_qmp-Sent, finally_close-Does,
}

-- An answer, whatever was sent before.
abbrev pub Watched_Answered :
    {A : Type 0} → (Option Value → Result Text A) → (Event → List Event → Type 0) → A → Pred
Watched_Answered decode G a log ids = Watched G log ids × Answered decode a log

module _ (G : Event → List Event → Type 0) (P : Pred)
    (f : (log : List Event) (ids : List Text) → P log ids → Watched G log ids) where
  -- `run`, where its command is allowed.
  pub run-Watched :
      {A : Type 0} (peer : Peer) (cmd : Command) (decode : Option Value → Result Text A)
      → ((log : List Event) (ids : List Text) → P log ids → G (wrote cmd) log)
      → Does P (run peer cmd decode) (Watched_Answered decode G) (Watched G) (Watched G)
  run-Watched {A = A} peer cmd decode g c h =
      Ends-imp {A = A} (Sent_Answered decode G (cmd ∷ sent c.log)) (Watched_Answered decode G)
        (Watched G) (Watched G) (run peer cmd decode c) (λ a log ids ((h, _), b). (h, b))
        (λ log ids h. h)
        (run-Sent G (sent c.log) (λ log ids. P log ids × (sent log ≡ sent c.log)) peer cmd decode
          (λ log ids (p, s). (f log ids p, s)) (λ log ids (p, _). g log ids p) c (h, refl))

  pub run_-Watched :
      (peer : Peer) (what : Text) (cmd : Command)
      → ((log : List Event) (ids : List Text) → P log ids → G (wrote cmd) log)
      → Does P
          (explain what (run_ peer cmd))
          (Watched_Answered decode_nothing G)
          (Watched G)
          (Watched G)
  run_-Watched peer what cmd g =
      explain-Does (Watched_Answered decode_nothing G) (Watched G) (Watched G) P what
        (run_ peer cmd) (run-Watched peer cmd decode_nothing g)

  pub tell-Watched :
      (r : Report)
      → ((log : List Event) (ids : List Text) → P log ids → G (told r) log)
      → Does P (tell r) (λ _. Watched G) (Watched G) (Watched G)
  unfolding Guarded
  tell-Watched r g c p =
      let (h, w) = f c.log c.deleted p in
      (reported-All (told r) c.log c.deleted h, (g c.log c.deleted p, w))

module _ (G : Event → List Event → Type 0) (cmds : List Command) (Q : Pred) where
  pub require-Sent :
      (b : Bool) (e : QmpError) (k : Qmp (Unit {0}))
      → Does (Sent G cmds) k (λ _. Q) (Watched G) (Watched G)
      → Does (Sent G cmds) (require b e >> k) (λ _. Q) (Watched G) (Watched G)
  require-Sent b e k d =
      then-Watched G (Sent G cmds) (λ _. Sent G cmds) (λ _. Q) (require b e) (λ _. k)
        (require-Does (Sent G cmds) (Watched G) (Watched G) b e (λ log ids (h, _). h)) (λ _. d)

  pub explained_require-Sent :
      (what : Text) (b : Bool) (e : QmpError) (k : Qmp (Unit {0}))
      → Does (Sent G cmds) k (λ _. Q) (Watched G) (Watched G)
      → Does (Sent G cmds) (explain what (require b e) >> k) (λ _. Q) (Watched G) (Watched G)
  explained_require-Sent what b e k d =
      then-Watched G (Sent G cmds) (λ _. Sent G cmds) (λ _. Q) (explain what (require b e)) (λ _. k)
        (explain-Does (λ _. Sent G cmds) (Watched G) (Watched G) (Sent G cmds) what (require b e)
          (require-Does (Sent G cmds) (Watched G) (Watched G) b e (λ log ids (h, _). h)))
        (λ _. d)

  pub lift-Sent :
      {A : Type 0} (f : Text → QmpError) (r : Result Text A) (k : A → Qmp (Unit {0}))
      → ((a : A) → Does (Sent G cmds) (k a) (λ _. Q) (Watched G) (Watched G))
      → Does (Sent G cmds) (lift f r >>= k) (λ _. Q) (Watched G) (Watched G)
  lift-Sent f r k d =
      then-Watched G (Sent G cmds) (λ _. Sent G cmds) (λ _. Q) (lift f r) k
        (lift-Does (λ _. Sent G cmds) (Watched G) (Watched G) (Sent G cmds) f r (λ _ log ids h. h)
          (λ log ids (h, _). h))
        d

  pub dialled-Sent :
      (host : Host) (socket : Text) (m : Qmp (Unit {0}))
      → ((log : List Event) → G (wrote qmp_capabilities) log)
      → Does (Sent G (qmp_capabilities ∷ cmds)) m (λ _. Q) (Watched G) (Watched G)
      → Does
          (Sent G cmds)
          (dial_qmp host socket >> finally_close m)
          (λ _. Q)
          (Watched G)
          (Watched G)
  dialled-Sent host socket m opens d =
      let O = Sent G (qmp_capabilities ∷ cmds) in
      then-Watched G (Sent G cmds) (λ _. O) (λ _. Q) (dial_qmp host socket) (λ _. finally_close m)
        (dial_qmp-Sent G opens cmds host socket)
        (λ _. finally_close-Does O (λ _. Q) (Watched G) m d)
