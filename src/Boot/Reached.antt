-- ===== src/Boot/Reached.antt =====
-- `Watch` of boot/phases.go sees a phase exactly when its marker is in the console's output.
use spin_machine.Common.{
  suc, ◌-◌, ◌≤◌, Text, lit, ◌≡◌, refl, sym, ◌∙◌, ap, Bool, true, false, ◌||◌, ltb, List, [], ◌∷◌,
  ◌++◌, All, length, arith, ◌⊎◌, inl, inr, append_assoc, Option, some, none, Bool-cases, is_empty,
  ltb→lt, length-append, if◌then◌else◌,
}
use spin_machine.Common.Int.{ℤ}
use spin_machine.Boot.Occurs.{occurs, occurs-append, occurs-split, drop-split}
use spin_machine.Boot.{
  returned, round_end, Phase, firmware, kernel, pid1, started, usable, markers, overlap, Run, Read,
  Outcome, End, eof, failed, is_some, shows, stamp, kept, run_of, after_read, watch_from, watch,
}

-- Markers that a window of this overlap is long enough for.
abbrev IsCovered : List Text → Type 0
IsCovered = All (λ m. length m ≤ suc overlap)

markers-IsCovered : (p : Phase) → IsCovered (markers p)
unfolding markers overlap lit
markers-IsCovered firmware = (omega arith, tt)
markers-IsCovered kernel = (omega arith, tt)
markers-IsCovered pid1 = (omega arith, tt)
markers-IsCovered started = (omega arith, tt)
markers-IsCovered usable = (omega arith, tt)

-- A window is the end of what has been read: all of it, or as much as the overlap.
abbrev IsWindow : Text → Text → Type 0
IsWindow output window =
    (x : Text) × (output ≡ x ++ window) × ((x ≡ []) ⊎ (overlap ≤ length window))

shows-window :
    (ms : List Text) (x window t : Text)
    → IsCovered ms
    → (x ≡ []) ⊎ (overlap ≤ length window)
    → shows ms (x ++ (window ++ t)) ≡ shows ms (x ++ window) || shows ms (window ++ t)
unfolding shows
shows-window [] x window t _ h = refl
shows-window (m ∷ ms) x window t (k, ks) (inl e) =
    ground (arith, e, occurs-append m window t, shows-window ms x window t ks (inl e))
shows-window (m ∷ ms) x window t (k, ks) (inr h) =
    ground (
      arith,
      occurs-split m x window t (omega (arith, k, h)),
      shows-window ms x window t ks (inr h),
    )

kept-IsWindow : (s : Text) → IsWindow s (kept s)
unfolding kept
kept-IsWindow s = elim (Bool-cases (ltb overlap (length s))) [
  | inl e ↦
      let (x, same, long) = drop-split (length s - overlap) s (omega arith) in
      rw e (x, same, inr (omega (arith, long, ltb→lt overlap (length s) e)))
  | inr e ↦ rw e ([], refl, inl refl)
]

-- What the loop keeps: its window, and that a phase is reached when its marker has been read.
record IsWatched (run : Run) (window : Text) : Type 0 where
  view : IsWindow run.output window
  reached : (p : Phase) → is_some (run.at p) ≡ shows (markers p) run.output

stamp-is_some :
    (run : Run) (now : ℤ) (window : Text) (p : Phase)
    → is_some (stamp run now window p) ≡ is_some (run.at p) || shows (markers p) window
unfolding stamp
stamp-is_some run now window p = ground arith

covers_both :
    (x y window t new : Text)
    → window ++ t ≡ y ++ new
    → (x ≡ []) ⊎ (overlap ≤ length window)
    → (y ≡ []) ⊎ (overlap ≤ length new)
    → (x ++ y ≡ []) ⊎ (overlap ≤ length new)
covers_both x y window t new e _ (inr h) = inr h
covers_both x y window t new e (inl h) (inl h') = inl (rw (h, h'))
covers_both x y window t new e (inr h) (inl h') =
    let same : window ++ t ≡ new = e ∙ ap (λ y. y ++ new) h' in
    inr (omega (arith, h, ap length same, length-append window t))

-- A read keeps it so.
after_read-IsWatched :
    (run : Run) (window : Text) (r : Read)
    → IsWatched run window
    → IsWatched (after_read run window r) (kept (window ++ r.bytes))
unfolding after_read
after_read-IsWatched run window r w =
    let (x, same, covers) = w.view in
    let (y, same', covers') = kept-IsWindow (window ++ r.bytes) in
    let whole : run.output ++ r.bytes ≡ x ++ (window ++ r.bytes) =
      ap (λ s. s ++ r.bytes) same ∙ append_assoc x window r.bytes in
    record {
      view = (
        x ++ y,
        whole ∙ ap (λ s. x ++ s) same' ∙ sym (append_assoc x y (kept (window ++ r.bytes))),
        covers_both x y window r.bytes (kept (window ++ r.bytes)) same' covers covers',
      );
      reached = λ p.
          stamp-is_some run r.time (window ++ r.bytes) p
          ∙ ap (λ b. b || shows (markers p) (window ++ r.bytes))
              (w.reached p ∙ ap (shows (markers p)) same)
          ∙ sym (shows-window (markers p) x window r.bytes (markers-IsCovered p) covers)
          ∙ ap (shows (markers p)) (sym whole);
    }

-- A run whose reached phases are those that its output shows.
abbrev IsTrue : Run → Type 0
IsTrue run = (p : Phase) → is_some (run.at p) ≡ shows (markers p) run.output

if-IsTrue :
    (b : Bool) (x y : Outcome)
    → IsTrue (run_of x)
    → IsTrue (run_of y)
    → IsTrue (run_of (if b then x else y))
if-IsTrue true x y h k = h
if-IsTrue false x y h k = k

round_end-IsTrue :
    (end : Option End) (run : Run) (more : Outcome)
    → IsTrue run
    → IsTrue (run_of more)
    → IsTrue (run_of (round_end end run more))
round_end-IsTrue none run more h k = k
round_end-IsTrue (some eof) run more h k = h
round_end-IsTrue (some (failed e)) run more h k = h

unshown : (p : Phase) → false ≡ shows (markers p) []
unfolding shows markers occurs lit
unshown firmware = refl
unshown kernel = refl
unshown pid1 = refl
unshown started = refl
unshown usable = refl

watch_from-IsTrue :
    (until : Phase) (run : Run) (window : Text) (reads : List Read)
    → IsWatched run window
    → IsTrue (run_of (watch_from until run window reads))
unfolding watch_from
watch_from-IsTrue until run window [] w = w.reached
watch_from-IsTrue until run window (r ∷ reads) w =
    let next = after_read-IsWatched run window r w in
    let run' = after_read run window r in
    let rest = watch_from until run' (kept (window ++ r.bytes)) reads in
    if-IsTrue (is_empty r.bytes) _ _
      (round_end-IsTrue r.end run _ w.reached (watch_from-IsTrue until run window reads w))
      (if-IsTrue (is_some (run'.at until)) (returned run' none) (round_end r.end run' rest)
        next.reached
        (round_end-IsTrue r.end run' rest next.reached
          (watch_from-IsTrue until run' (kept (window ++ r.bytes)) reads next)))

-- Whatever the reads are, and wherever they cut the output, a phase of the run that `Watch` gives
-- is reached exactly when one of its markers is in the output that was read.
pub watch_reached :
    (until : Phase) (reads : List Read) (p : Phase)
    → is_some ((run_of (watch until reads)).at p)
      ≡ shows (markers p) (run_of (watch until reads)).output
unfolding watch
watch_reached until reads =
    watch_from-IsTrue until (record { at = λ _. none; output = [] }) [] reads
      (record { view = ([], refl, inl refl); reached = unshown })
