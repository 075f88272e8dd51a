-- ===== src/Qmp/Logic.antt =====
-- A program logic for the conversations of cmd/spin-machine/main.go: what holds of the log and of the
-- devices reported deleted when an operation ends, by how it ends.
use spin_machine.Common.{Text, Bool, true, false, List, Option, none, some, Result, ok, err}
use spin_machine.Qmp.Wire.{Event, Conn, Peer}
use spin_machine.Qmp.Session.{
  QmpError, Outcome, returned, blocked, spent, Qmp, and_then, ◌>>=◌, or_else, recover, explain,
  ignore, require, lift, deadline_set, set_deadline,
}

-- A predicate on what a connection remembers: its log and its deleted devices.
abbrev pub Pred : Type 1
Pred = List Event → List Text → Type 0

-- An outcome that is a value with `Q`, an error with `E`, or a wait for a read with `B`.
abbrev pub Ends : {A : Type 0} → (A → Pred) → Pred → Pred → Outcome A → Type 0
Ends Q E B (returned (ok a) c) = Q a c.log c.deleted
Ends Q E B (returned (err e) c) = E c.log c.deleted
Ends Q E B (blocked c) = B c.log c.deleted
Ends Q E B (spent c) = ⊥

-- From `P`, an operation ends so.
abbrev pub Does : {A : Type 0} → Pred → Qmp A → (A → Pred) → Pred → Pred → Type 0
Does P m Q E B = (c : Conn) → P c.log c.deleted → Ends Q E B (m c)

-- What holds, held by weaker predicates.
pub Ends-imp :
    {A : Type 0} (Q R : A → Pred) (D E : Pred) (o : Outcome A)
    → ((a : A) (log : List Event) (ids : List Text) → Q a log ids → R a log ids)
    → ((log : List Event) (ids : List Text) → D log ids → E log ids)
    → Ends Q D D o
    → Ends R E E o
Ends-imp Q R D E (returned (ok a) c) f g h = f a c.log c.deleted h
Ends-imp Q R D E (returned (err e) c) f g h = g c.log c.deleted h
Ends-imp Q R D E (blocked c) f g h = g c.log c.deleted h
Ends-imp Q R D E (spent c) f g h = elim h [ ]

module _ {A B : Type 0} (R : B → Pred) (E W : Pred) where
  pub and_then-Ends :
      (Q : A → Pred) (o : Outcome A) (f : A → Qmp B)
      → Ends Q E W o
      → ((a : A) → Does (Q a) (f a) R E W)
      → Ends R E W (and_then o f)
  and_then-Ends Q (returned (ok a) c) f h k = k a c h
  and_then-Ends Q (returned (err e) c) f h k = h
  and_then-Ends Q (blocked c) f h k = h
  and_then-Ends Q (spent c) f h k = elim h [ ]

  -- One operation after another.
  pub bind-Does :
      (P : Pred) (Q : A → Pred) (m : Qmp A) (f : A → Qmp B)
      → Does P m Q E W
      → ((a : A) → Does (Q a) (f a) R E W)
      → Does P (m >>= f) R E W
  bind-Does P Q m f h k c p = and_then-Ends Q (m c) f (h c p) k

module _ {A : Type 0} (Q : A → Pred) (E W : Pred) where
  or_else-Ends :
      (D : Pred) (o : Outcome A) (h : QmpError → Qmp A)
      → Ends Q D W o
      → ((e : QmpError) → Does D (h e) Q E W)
      → Ends Q E W (or_else o h)
  or_else-Ends D (returned (ok a) c) h p k = p
  or_else-Ends D (returned (err e) c) h p k = k e c p
  or_else-Ends D (blocked c) h p k = p
  or_else-Ends D (spent c) h p k = elim p [ ]

  -- An operation whose error is dealt with.
  pub recover-Does :
      (P D : Pred) (m : Qmp A) (h : QmpError → Qmp A)
      → Does P m Q D W
      → ((e : QmpError) → Does D (h e) Q E W)
      → Does P (recover m h) Q E W
  recover-Does P D m h d k c p = or_else-Ends D (m c) h (d c p) k

  pub explain-Does :
      (P : Pred) (what : Text) (m : Qmp A) → Does P m Q E W → Does P (explain what m) Q E W
  explain-Does P what m d = recover-Does P E m _ d (λ e c h. h)

  pub lift-Does :
      (P : Pred) (f : Text → QmpError) (r : Result Text A)
      → ((a : A) (log : List Event) (ids : List Text) → P log ids → Q a log ids)
      → ((log : List Event) (ids : List Text) → P log ids → E log ids)
      → Does P (lift f r) Q E W
  lift-Does P f (ok a) good bad c h = good a c.log c.deleted h
  lift-Does P f (err e) good bad c h = bad c.log c.deleted h

module _ (P E W : Pred) where
  pub set_deadline-Does :
      (peer : Peer) (f : Text → QmpError) (d : Option _)
      → ((log : List Event) (ids : List Text) → P log ids → E log ids)
      → Does P (set_deadline peer f d) (λ _. P) E W
  set_deadline-Does peer f d k c = set (peer.deadline_error c.calls)
    where
      set : (e : Option Text) → P c.log c.deleted → Ends (λ _. P) E W (deadline_set e f d c)
      set none h = h
      set (some e) h = k c.log c.deleted h

  pub require-Does :
      (b : Bool) (e : QmpError)
      → ((log : List Event) (ids : List Text) → P log ids → E log ids)
      → Does P (require b e) (λ _. P) E W
  require-Does true e k c h = k c.log c.deleted h
  require-Does false e k c h = h

  pub ignore-Does : (m : Qmp (Unit {0})) → Does P m (λ _. E) E W → Does P (ignore m) (λ _. E) E W
  ignore-Does m d = recover-Does (λ _. E) E W P E m _ d (λ e c h. h)
