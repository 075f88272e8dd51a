-- ===== src/Qmp/Migrating.antt =====
-- `save` and `restore` of cmd/spin-machine/main.go under the watch.
use spin_machine.Common.{
  Text, lit, ◌<>◌, ◌≡◌, refl, ◌⊎◌, inl, inr, if◌then◌else◌, true, false, Bool, List, ◌∷◌, text_eq,
}
use spin_machine.Common.Int.{ℤ}
use spin_machine.Qmp.Wire.{
  Command, qmp_capabilities, migrate, migrate_incoming, query_migrate, query_status, cont, quit,
  Event, wrote, lost, told, Peer, saved, restored, Status, status, decode_nothing, decode_status,
}
use spin_machine.Qmp.Session.{
  missing_flags, unresolved, Qmp, run, run_, dial_qmp, finally_close, Host, explain, tell, ignore,
  ◌>>=◌, ◌>>◌, pure,
}
use spin_machine.Qmp.Wait.{wait_migration}
use spin_machine.Qmp.Commands.{
  SaveFlags, save_state, save, RestoreFlags, start_restored, restore_state, restore,
}
use spin_machine.Qmp.Trace.{sent}
use spin_machine.Qmp.Logic.{Pred, Ends-imp, Does, explain-Does, ignore-Does}
use spin_machine.Qmp.Rules.{Answered, reported-All}
use spin_machine.Qmp.Steady.{Completed, wait_migration-Does}
use spin_machine.Qmp.Watched.{
  Guarded, Watched, Watched-Hears, Sent, Sent_Answered, run_-Sent, then-Watched,
}
use spin_machine.Qmp.Dialled.{
  Watched_Answered, run-Watched, run_-Watched, tell-Watched, require-Sent, lift-Sent, dialled-Sent,
}

-- What is known of a machine that is said to be restored: it runs, or `cont` was answered.
abbrev pub Resumed : List Event → Type 0
Resumed log =
    ((s : Text) × (desc : Text) × (text_eq s (lit "running") ≡ true)
      × Answered decode_status (status s desc) log)
    ⊎ ((cmds : List Command) × (sent log ≡ cont ∷ cmds) × Answered decode_nothing tt log)

module _ (G : Event → List Event → Type 0)
    (opens : (log : List Event) → G (wrote qmp_capabilities) log)
    (polls : (log : List Event) → G (wrote query_migrate) log) where
  -- What holds when a migration is complete.
  abbrev pub Migrated : Pred
  Migrated log ids = Watched G log ids × Completed log

  wait-Migrated :
      (peer : Peer) (what : Text) (timeout : ℤ)
      → Does
          (Watched G)
          (explain what (wait_migration peer timeout))
          (λ _. Migrated)
          (Watched G)
          (Watched G)
  unfolding Guarded
  wait-Migrated peer what timeout =
      explain-Does (λ _. Migrated) (Watched G) (Watched G) (Watched G) what
        (wait_migration peer timeout)
        (wait_migration-Does (Watched G) (Watched-Hears G)
          (λ log ids (h, w). (reported-All (wrote query_migrate) log ids h, (polls log, w)))
          (λ log ids (h, w). (reported-All (lost query_migrate) log ids h, w)) peer timeout)

  -- A migration that is started and waited for.
  migrate-Migrated :
      (peer : Peer) (starting waiting : Text) (cmd : Command) (timeout : ℤ) (k : Qmp (Unit {0}))
      → ((log : List Event) → G (wrote cmd) log)
      → Does Migrated k (λ _. Watched G) (Watched G) (Watched G)
      → Does
          (Watched G)
          (explain starting (run_ peer cmd) >> (explain waiting (wait_migration peer timeout) >> k))
          (λ _. Watched G)
          (Watched G)
          (Watched G)
  migrate-Migrated peer starting waiting cmd timeout k starts d =
      let wait = explain waiting (wait_migration peer timeout) in
      then-Watched G (Watched G) (Watched_Answered decode_nothing G) (λ _. Watched G)
        (explain starting (run_ peer cmd)) (λ _. wait >> k)
        (run_-Watched G (Watched G) (λ log ids h. h) peer starting cmd (λ log ids _. starts log))
        (λ _ c (h, _).
          then-Watched G (Watched G) (λ _. Migrated) (λ _. Watched G) wait (λ _. k)
            (wait-Migrated peer waiting timeout) (λ _. d) c h)

  -- A command that ends in a conversation, from what was sent before.
  pub talk-Watched :
      (host : Host) (socket : Text) (m : Qmp (Unit {0})) (cmds : List Command)
      → Does (Watched G) m (λ _. Watched G) (Watched G) (Watched G)
      → Does
          (Sent G cmds)
          (dial_qmp host socket >> finally_close m)
          (λ _. Watched G)
          (Watched G)
          (Watched G)
  talk-Watched host socket m cmds d =
      dialled-Sent G cmds (Watched G) host socket m opens (λ c (h, _). d c h)

  module _ (starts : (path : Text) (log : List Event) → G (wrote (migrate path)) log)
      (tells : (to : Text) (log : List Event) → Completed log → G (told (saved to)) log)
      (quits : (to : Text) (log : List Event)
        → Completed log
        → G (wrote quit) (told (saved to) ∷ log)) where
    save_state-Watched :
        (peer : Peer) (o : SaveFlags) (to : Text)
        → Does (Watched G) (save_state peer o to) (λ _. Watched G) (Watched G) (Watched G)
    unfolding save_state
    save_state-Watched peer o to =
        let W = Watched G in
        let leave = ignore (run_ peer quit) in
        migrate-Migrated peer (lit "starting the save") (lit "the save")
          (migrate (lit "file:" <> to)) o.timeout (tell (saved to) >> leave)
          (starts (lit "file:" <> to))
          (λ c (h, e).
            ignore-Does (λ log ids. W log ids × G (wrote quit) log) W W (run_ peer quit)
              (λ c h.
                Ends-imp {A = Unit {0}} (Watched_Answered decode_nothing G) (λ _. W) W W
                  (run_ peer quit c) (λ _ log ids (h, _). h) (λ log ids h. h)
                  (run-Watched G (λ log ids. W log ids × G (wrote quit) log) (λ log ids (h, _). h)
                    peer quit decode_nothing (λ log ids (_, q). q) c h))
              (record c { log = told (saved to) ∷ c.log })
              (
                tell-Watched G Migrated (λ log ids (h, _). h) (saved to)
                    (λ log ids (_, e). tells to log e) c (h, e),
                quits to c.log e,
              ))

    pub save-Watched :
        (host : Host) (o : SaveFlags) (cmds : List Command)
        → Does (Sent G cmds) (save host o) (λ _. Watched G) (Watched G) (Watched G)
    unfolding save
    save-Watched host o cmds =
        let W = Watched G in
        require-Sent G cmds W _ missing_flags _ (
          lift-Sent G cmds W (unresolved o.to) (host.abs o.to)
            (λ to. dial_qmp host o.qmp >> finally_close (save_state host.peer o to))
            (λ to.
              talk-Watched host o.qmp (save_state host.peer o to) cmds
                (save_state-Watched host.peer o to)))

  module _ (starts : (path : Text) (log : List Event) → G (wrote (migrate_incoming path)) log)
      (asks : (log : List Event) → G (wrote query_status) log)
      (conts : (s desc : Text) (log : List Event)
        → text_eq s (lit "running") ≡ false
        → Answered decode_status (status s desc) log
        → G (wrote cont) log)
      (tells : (from : Text) (log : List Event) → Resumed log → G (told (restored from)) log) where
    started-Watched :
        (peer : Peer) (from : Text) (s desc : Text) (b : Bool)
        → text_eq s (lit "running") ≡ b
        → Does
            (Watched_Answered decode_status G (status s desc))
            ((if b
                then pure tt
                else explain
                    (lit "starting the restored VM (it was " <> s <> lit ")")
                    (run_ peer cont))
              >> tell (restored from))
            (λ _. Watched G)
            (Watched G)
            (Watched G)
    started-Watched peer from s desc true e c h =
        tell-Watched G (Watched_Answered decode_status G (status s desc)) (λ log ids (h, _). h)
          (restored from) (λ log ids (_, a). tells from log (inl (s, desc, e, a))) c h
    started-Watched peer from s desc false e c h =
        let A = Watched_Answered decode_status G (status s desc) in
        let D = Sent_Answered decode_nothing G (cont ∷ sent c.log) in
        then-Watched G (λ log ids. A log ids × (sent log ≡ sent c.log)) D (λ _. Watched G)
          (explain (lit "starting the restored VM (it was " <> s <> lit ")") (run_ peer cont))
          (λ _. tell (restored from))
          (run_-Sent G (sent c.log) (λ log ids. A log ids × (sent log ≡ sent c.log)) peer
            (lit "starting the restored VM (it was " <> s <> lit ")") cont
            (λ log ids ((h, _), q). (h, q)) (λ log ids ((_, a), _). conts s desc log e a))
          (λ _.
            tell-Watched G (D tt) (λ log ids ((h, _), _). h) (restored from)
              (λ log ids ((_, q), a). tells from log (inr (sent c.log, q, a))))
          c (h, refl)

    resume-Watched :
        (peer : Peer) (from : Text) (s : Status)
        → Does
            (Watched_Answered decode_status G s)
            (start_restored peer s >> tell (restored from))
            (λ _. Watched G)
            (Watched G)
            (Watched G)
    unfolding start_restored
    resume-Watched peer from (status s desc) =
        started-Watched peer from s desc (text_eq s (lit "running")) refl

    restore_state-Watched :
        (peer : Peer) (o : RestoreFlags) (from : Text)
        → Does (Watched G) (restore_state peer o from) (λ _. Watched G) (Watched G) (Watched G)
    unfolding restore_state
    restore_state-Watched peer o from =
        let ask = run peer query_status decode_status in
        let rest : Status → Qmp (Unit {0}) = λ s. start_restored peer s >> tell (restored from) in
        let what = lit "loading " <> from in
        migrate-Migrated peer what what (migrate_incoming (lit "file:" <> from)) o.timeout
          (ask >>= rest) (starts (lit "file:" <> from))
          (then-Watched G Migrated (Watched_Answered decode_status G) (λ _. Watched G) ask rest
            (run-Watched G Migrated (λ log ids (h, _). h) peer query_status decode_status
              (λ log ids _. asks log))
            (resume-Watched peer from))

    pub restore-Watched :
        (host : Host) (o : RestoreFlags) (cmds : List Command)
        → Does (Sent G cmds) (restore host o) (λ _. Watched G) (Watched G) (Watched G)
    unfolding restore
    restore-Watched host o cmds =
        let W = Watched G in
        require-Sent G cmds W _ missing_flags _ (
          lift-Sent G cmds W (unresolved o.from) (host.abs o.from)
            (λ from. dial_qmp host o.qmp >> finally_close (restore_state host.peer o from))
            (λ from.
              talk-Watched host o.qmp (restore_state host.peer o from) cmds
                (restore_state-Watched host.peer o from)))
