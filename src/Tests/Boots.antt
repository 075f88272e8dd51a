-- ===== src/Tests/Boots.antt =====
-- The result on a boot's console, at one whose reads cut a marker in two.
use mathlib.Core.List.{Memᴰ}
use spin_machine.Boot.Percentile.{percentile, percentile-rank, count, nearest_rank}
use spin_machine.Common.{
  ℕ, ◌≤◌, ◌<◌, leb, not, some, inl, inr, ◌⊎◌, Bool-cases, arith, lit, ◌≡◌, refl, List, [], ◌∷◌,
  none, true,
}
use spin_machine.Common.Int.{pos}
use spin_machine.Boot.{Read, usable, kernel, is_some, run_of, watch, shows, markers, overlap}
use spin_machine.Boot.Occurs.{occurs}
use spin_machine.Boot.Reached.{watch_reached}

abbrev console : List Read
console =
    record { bytes = lit "Linux ver"; time = pos 40; end = none }
    ∷ record { bytes = lit "sion 6.12"; time = pos 41; end = none }
    ∷ record { bytes = lit "debian login: "; time = pos 230; end = none }
    ∷ []

watch_reached_example :
    is_some ((run_of (watch usable console)).at kernel)
    ≡ shows (markers kernel) (run_of (watch usable console)).output
watch_reached_example = watch_reached usable console kernel

watched_kernel : is_some ((run_of (watch usable console)).at kernel) ≡ true
unfolding watch shows markers lit occurs overlap
watched_kernel = refl

leb-total : (x y : ℕ) → (leb x y ≡ true) ⊎ (leb y x ≡ true)
leb-total x y = elim (Bool-cases (leb x y)) [ inl e ↦ inl e | inr e ↦ inr (ground arith) ]

leb-chains : (x y z : ℕ) → leb x y ≡ true → leb y z ≡ true → leb x z ≡ true
leb-chains x y z e f = ground arith

percentile-rank_example :
    (v : ℕ) × (percentile leb (λ _. pos 2) (40 ∷ 12 ∷ 90 ∷ []) ≡ some v)
    × Memᴰ v (40 ∷ 12 ∷ 90 ∷ [])
    × (count (λ x. not (leb v x)) (40 ∷ 12 ∷ 90 ∷ []) < nearest_rank (pos 2) 3)
    × (nearest_rank (pos 2) 3 ≤ count (λ x. leb x v) (40 ∷ 12 ∷ 90 ∷ []))
percentile-rank_example = percentile-rank leb leb-total leb-chains (λ _. pos 2) 40 (12 ∷ 90 ∷ [])

median : percentile leb (λ _. pos 2) (40 ∷ 12 ∷ 90 ∷ []) ≡ some 40
unfolding percentile
median = refl
