-- ===== src/Boot.antt =====
-- boot/phases.go: the console of a boot, read in pieces, and the phases that its bytes show.
pub mod Percentile
pub mod Occurs
pub mod Reached
use spin_machine.Common.{
  ℕ, ◌-◌, Text, lit, Bool, true, false, ◌||◌, ltb, List, [], ◌∷◌, ◌++◌, length, Option, none, some,
  is_empty, if◌then◌else◌,
}
use spin_machine.Common.Int.{ℤ}
use Occurs.{occurs, drop}

-- `Phase`.
pub data Phase : Type 0 where
  firmware kernel pid1 started usable : Phase

-- `Phase.String`.
unfoldable pub phase_name : Phase → Text
phase_name firmware = lit "firmware"
phase_name kernel = lit "kernel"
phase_name pid1 = lit "pid1"
phase_name started = lit "started"
phase_name usable = lit "usable"

-- `markers`.
unfoldable pub markers : Phase → List Text
markers firmware = lit "SeaBIOS" ∷ []
markers kernel = lit "Linux version" ∷ []
markers pid1 = lit "Run /sbin/init as init process" ∷ []
markers started = lit "Startup finished" ∷ []
markers usable = lit "login:" ∷ []

longest : ℕ → List Text → ℕ
longest n [] = n
longest n (m ∷ ms) = longest (if ltb n (length m - 1) then length m - 1 else n) ms

-- `overlap`: one byte less than the longest marker.
unfoldable pub overlap : ℕ
unfolding longest markers lit
overlap =
    longest 0
      (markers firmware ++ markers kernel ++ markers pid1 ++ markers started ++ markers usable)

-- `Run`, with the durations as a function: nothing for a phase that was not reached.
pub record Run : Type 0 where
  pub at : Phase → Option ℤ
  pub output : Text

-- `Reached`.
abbrev pub is_some {ℓ} : {A : Type ℓ} → Option A → Bool
is_some none = false
is_some (some _) = true

-- How a read of the console ends it.
pub data End : Type 0 where
  eof : End
  failed : Text → End

-- One read: its bytes, the time since the start of the boot, and its error.
pub record Read : Type 0 where
  pub bytes : Text
  pub time : ℤ
  pub end : Option End

-- Whether a text holds one of the markers.
unfoldable pub shows : List Text → Text → Bool
shows [] s = false
shows (m ∷ ms) s = occurs m s || shows ms s

-- The loop over the phases, for one window.
unfoldable pub stamp : Run → ℤ → Text → Phase → Option ℤ
stamp run now window p =
    let seen = if shows (markers p) window then some now else none in
    elim (run.at p) [ some t ↦ some t | none ↦ seen ]

-- What is kept of a window for the next read.
unfoldable pub kept : Text → Text
kept window = if ltb overlap (length window) then drop (length window - overlap) window else window

-- What `Watch` comes to: it returns, with an error or without, or it waits for another read.
pub data Outcome : Type 0 where
  returned : Run → Option Text → Outcome
  waiting : Run → Outcome

abbrev pub run_of : Outcome → Run
run_of (returned run e) = run
run_of (waiting run) = run

-- The run after a read.
unfoldable pub after_read : Run → Text → Read → Run
after_read run window r = record {
  at = stamp run r.time (window ++ r.bytes);
  output = run.output ++ r.bytes;
}

-- The end of a round: without an error of the read there is another.
abbrev pub round_end : Option End → Run → Outcome → Outcome
round_end none run more = more
round_end (some eof) run more = returned run none
round_end (some (failed e)) run more = returned run (some e)

-- The loop. A read without bytes changes nothing but may end it.
unfoldable pub watch_from : Phase → Run → Text → List Read → Outcome
unfolding after_read kept stamp
watch_from until run window [] = waiting run
watch_from until run window (r ∷ reads) =
    let idle = watch_from until run window reads in
    let next = watch_from until (after_read run window r) (kept (window ++ r.bytes)) reads in
    if is_empty r.bytes
    then round_end r.end run idle
    else if is_some ((after_read run window r).at until)
    then returned (after_read run window r) none
    else round_end r.end (after_read run window r) next

-- `Watch`.
unfoldable pub watch : Phase → List Read → Outcome
unfolding watch_from
watch until = watch_from until (record { at = λ _. none; output = [] }) []
