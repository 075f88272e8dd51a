-- ===== src/Report/Distance.antt =====
-- `distance` of boot/report.go: how far one command line is from another.
use spin_machine.Common.{ℕ, ◌+◌, Text, List, [], ◌∷◌, text_eq, if◌then◌else◌}
use spin_machine.Common.Int.{ℤ, pos, negsuc, ◌+ℤ◌, pos_part, neg_part}

-- The map of counts; a key that is not there counts as zero.
abbrev pub Tally : Type 0
Tally = List (Text × ℤ)

-- `count[s] += d`.
unfoldable pub bump : ℤ → Text → Tally → Tally
bump d s [] = (s, d) ∷ []
bump d s ((k, n) ∷ m) =
    let rest = bump d s m in if text_eq k s then (k, n +ℤ d) ∷ m else (k, n) ∷ rest

-- The loop over a command line.
unfoldable pub bump_all : ℤ → List Text → Tally → Tally
unfolding bump
bump_all d [] m = m
bump_all d (s ∷ ss) m = bump_all d ss (bump d s m)

-- The sum of `max(n, -n)`.
unfoldable pub total : Tally → ℕ
total [] = 0
total ((k, n) ∷ m) = (pos_part n + neg_part n) + total m

-- `distance`.
unfoldable pub distance : List Text → List Text → ℕ
unfolding bump_all total
distance a b = total (bump_all (negsuc 0) b (bump_all (pos 1) a []))
