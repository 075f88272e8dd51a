-- ===== src/Qmp/Live.antt =====
-- `detach` of cmd/spin-machine/main.go ends well when QEMU answers and reports the device gone.
use spin_machine.Common.{
  Text, ◌≡◌, refl, sym, true, false, ◌&&◌, List, [], ◌∷◌, Option, none, some, ok, err, is_empty,
  text_eq, ◌⊎◌, inl, inr,
}
use mathlib.Core.Path.{subst}
use spin_machine.Qmp.Wire.{
  Command, Refusal, Incoming, message, broken, late, Conn, decode_nothing, got,
}
use spin_machine.Qmp.Session.{
  QmpError, Outcome, returned, blocked, spent, Qmp, and_then, or_else, await_reply, heard, reply,
  is_deleted, closing,
}
use spin_machine.Qmp.Wait.{await_deleted}
use spin_machine.Qmp.Run.{is_done}

-- Events, then an answer without an error, then `rest`.
abbrev pub Answers : List Incoming → List Incoming → Type 0
Answers [] rest = ⊥
Answers (broken _ ∷ reads) rest = ⊥
Answers (late ∷ reads) rest = ⊥
Answers (message m ∷ reads) rest =
    ((is_empty m.event ≡ false) × Answers reads rest)
    ⊎ ((is_empty m.event ≡ true) × (m.error ≡ none) × (reads ≡ rest))

-- Events of which the last reports `id` deleted, then `rest`.
abbrev pub Reports : Text → List Incoming → List Incoming → Type 0
Reports id [] rest = ⊥
Reports id (broken _ ∷ reads) rest = ⊥
Reports id (late ∷ reads) rest = ⊥
Reports id (message m ∷ reads) rest =
    (is_empty m.event ≡ false)
    × (((is_deleted m && text_eq m.device id ≡ true) × (reads ≡ rest))
        ⊎ ((is_deleted m && text_eq m.device id ≡ false) × Reports id reads rest))

-- An outcome that is a value, with what is left to read.
abbrev pub Yields : {A : Type 0} → (List Incoming → Type 0) → Outcome A → Type 0
Yields Q (returned (ok _) c) = Q c.reads
Yields Q (returned (err _) c) = ⊥
Yields Q (blocked c) = ⊥
Yields Q (spent c) = ⊥

pub and_then-Yields :
    {A B : Type 0} (P Q : List Incoming → Type 0) (o : Outcome A) (f : A → Qmp B)
    → Yields P o
    → ((a : A) (c : Conn) → P c.reads → Yields Q (f a c))
    → Yields Q (and_then o f)
and_then-Yields P Q (returned (ok a) c) f h k = k a c h
and_then-Yields P Q (returned (err e) c) f h k = elim h [ ]
and_then-Yields P Q (blocked c) f h k = elim h [ ]
and_then-Yields P Q (spent c) f h k = elim h [ ]

pub or_else-Yields :
    {A : Type 0} (Q : List Incoming → Type 0) (o : Outcome A) (h : QmpError → Qmp A)
    → Yields Q o
    → Yields Q (or_else o h)
or_else-Yields Q (returned (ok a) c) h p = p
or_else-Yields Q (returned (err e) c) h p = elim p [ ]
or_else-Yields Q (blocked c) h p = elim p [ ]
or_else-Yields Q (spent c) h p = elim p [ ]

pub Yields-imp :
    {A : Type 0} (P Q : List Incoming → Type 0) (o : Outcome A)
    → ((reads : List Incoming) → P reads → Q reads)
    → Yields P o
    → Yields Q o
Yields-imp P Q (returned (ok a) c) f h = f c.reads h
Yields-imp P Q (returned (err e) c) f h = elim h [ ]
Yields-imp P Q (blocked c) f h = elim h [ ]
Yields-imp P Q (spent c) f h = elim h [ ]

pub closing-Yields :
    {A : Type 0} (Q : List Incoming → Type 0) (o : Outcome A)
    → Yields Q o
    → is_done (closing o) ≡ true
closing-Yields Q (returned (ok a) c) h = refl
closing-Yields Q (returned (err e) c) h = elim h [ ]
closing-Yields Q (blocked c) h = elim h [ ]
closing-Yields Q (spent c) h = elim h [ ]

pub done-and_then :
    {A B : Type 0} (P : List Incoming → Type 0) (o : Outcome A) (f : A → Qmp B)
    → Yields P o
    → ((a : A) (c : Conn) → P c.reads → is_done (f a c) ≡ true)
    → is_done (and_then o f) ≡ true
done-and_then P (returned (ok a) c) f h k = k a c h
done-and_then P (returned (err e) c) f h k = elim h [ ]
done-and_then P (blocked c) f h k = elim h [ ]
done-and_then P (spent c) f h k = elim h [ ]

-- Events before the events of an answer.
pub Reports-Answers :
    (id : Text) (reads rest last : List Incoming)
    → Reports id reads rest
    → Answers rest last
    → Answers reads last
Reports-Answers id [] rest last r h = elim r [ ]
Reports-Answers id (broken _ ∷ reads) rest last r h = elim r [ ]
Reports-Answers id (late ∷ reads) rest last r h = elim r [ ]
Reports-Answers id (message m ∷ reads) rest last (e, inl (_, s)) h =
    inl (e, subst (λ r. Answers r last) (sym s) h)
Reports-Answers id (message m ∷ reads) rest last (e, inr (_, r)) h =
    inl (e, Reports-Answers id reads rest last r h)

pub await_reply-Answers :
    (cmd : Command) (c : Conn) (reads rest : List Incoming)
    → Answers reads rest
    → Yields (λ r. r ≡ rest) (await_reply cmd decode_nothing c reads)
unfolding await_reply heard reply
await_reply-Answers cmd c [] rest h = elim h [ ]
await_reply-Answers cmd c (broken _ ∷ reads) rest h = elim h [ ]
await_reply-Answers cmd c (late ∷ reads) rest h = elim h [ ]
await_reply-Answers cmd c (message m ∷ reads) rest (inl (e, h)) =
    rw e (await_reply-Answers cmd (heard m c reads) reads rest h)
await_reply-Answers cmd c (message m ∷ reads) rest (inr (e, n, s)) = rw e (answer m.error n)
  where
    answer :
        (x : Option Refusal)
        → x ≡ none
        → Yields (λ r. r ≡ rest) (returned (reply cmd decode_nothing x m.return) (heard m c reads))
    answer none p = s
    answer (some x) p = cc

pub await_deleted-Reports :
    (id : Text) (c : Conn) (reads rest : List Incoming)
    → Reports id reads rest
    → Yields (λ r. r ≡ rest) (await_deleted id c reads)
unfolding await_deleted
await_deleted-Reports id c [] rest h = elim h [ ]
await_deleted-Reports id c (broken _ ∷ reads) rest h = elim h [ ]
await_deleted-Reports id c (late ∷ reads) rest h = elim h [ ]
await_deleted-Reports id c (message m ∷ reads) rest (_, inl (e, s)) = rw e s
await_deleted-Reports id c (message m ∷ reads) rest (_, inr (e, h)) =
    rw e (await_deleted-Reports id (record c { reads = reads; log = got m ∷ c.log }) reads rest h)
