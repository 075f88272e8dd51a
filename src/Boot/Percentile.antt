-- ===== src/Boot/Percentile.antt =====
-- `Percentile` of boot/phases.go: the nearest rank of samples. The rank `int(math.Ceil(p*N))` of
-- floating point is a parameter.
use mathlib.Core.Path.{subst}
use mathlib.Core.List.{Memᴰ}
use spin_machine.Common.{
  ℕ, zero, suc, ◌-◌, ◌≤◌, ◌<◌, ◌≡◌, refl, ap, ◌∙◌, Bool, true, false, not, leb, ltb, List, [], ◌∷◌,
  Option, none, some, length, get_elem?, All, All-imp, Bool-cases, inl, inr, ◌⊎◌, if◌then◌else◌,
  arith,
}
use spin_machine.Common.Int.{ℤ, pos_part}

-- `min(max(r-1, 0), n-1)`, for a slice that is not empty.
unfoldable pub rank_index : ℤ → ℕ → ℕ
rank_index r n = if leb (pos_part r - 1) (n - 1) then pos_part r - 1 else n - 1

-- The rank that is taken of so many samples: the one asked for, no less than the first and no more
-- than the last. Ranks count from 1.
abbrev pub nearest_rank : ℤ → ℕ → ℕ
nearest_rank r n = if ltb (pos_part r) 1 then 1 else if ltb n (pos_part r) then n else pos_part r

abbrev pub count {ℓ} : {A : Type ℓ} → (A → Bool) → List A → ℕ
count p [] = 0
count p (x ∷ xs) = if p x then suc (count p xs) else count p xs

step : (b : Bool) (n i : ℕ) → n ≤ i → (if b then suc n else n) ≤ suc i
step true n i h = omega arith
step false n i h = omega arith

rank_index-nearest_rank : (r : ℤ) (n : ℕ) → suc (rank_index r (suc n)) ≡ nearest_rank r (suc n)
unfolding rank_index
rank_index-nearest_rank r n = ground arith

rank_index-bound : (r : ℤ) (n : ℕ) → rank_index r (suc n) < suc n
unfolding rank_index
rank_index-bound r n = ground arith

module _ {A : Type 0} (le : A → A → Bool) where
  unfoldable pub insert_by : A → List A → List A
  insert_by x [] = x ∷ []
  insert_by x (y ∷ ys) = let rest = insert_by x ys in if le x y then x ∷ y ∷ ys else y ∷ rest

  -- `slices.Sort`.
  unfoldable pub sort_by : List A → List A
  unfolding insert_by
  sort_by [] = []
  sort_by (x ∷ xs) = insert_by x (sort_by xs)

  -- `Percentile`, by the rank of so many samples.
  unfoldable pub percentile : (ℕ → ℤ) → List A → Option A
  unfolding sort_by rank_index
  percentile rank [] = none
  percentile rank (d ∷ ds) =
      get_elem? (sort_by (d ∷ ds)) (rank_index (rank (length (d ∷ ds))) (length (d ∷ ds)))

  module _ (p : A → Bool) where
    insert_by-count : (x : A) (xs : List A) → count p (insert_by x xs) ≡ count p (x ∷ xs)
    unfolding insert_by
    insert_by-count x [] = refl
    insert_by-count x (y ∷ ys) = ground (arith, insert_by-count x ys)

    sort_by-count : (xs : List A) → count p (sort_by xs) ≡ count p xs
    unfolding sort_by
    sort_by-count [] = refl
    sort_by-count (x ∷ xs) =
        insert_by-count x (sort_by xs) ∙ ap (λ n. if p x then suc n else n) (sort_by-count xs)

  insert_by-length : (x : A) (xs : List A) → length (insert_by x xs) ≡ suc (length xs)
  unfolding insert_by
  insert_by-length x [] = refl
  insert_by-length x (y ∷ ys) = ground (arith, insert_by-length x ys)

  sort_by-length : (xs : List A) → length (sort_by xs) ≡ length xs
  unfolding sort_by
  sort_by-length [] = refl
  sort_by-length (x ∷ xs) = insert_by-length x (sort_by xs) ∙ ap suc (sort_by-length xs)

  abbrev Sorted : List A → Type 0
  Sorted [] = Unit
  Sorted (x ∷ xs) = All (λ y. le x y ≡ true) xs × Sorted xs

  insert_by-All : (P : A → Type 0) (x : A) (xs : List A) → P x → All P xs → All P (insert_by x xs)
  unfolding insert_by
  insert_by-All P x [] p h = (p, tt)
  insert_by-All P x (y ∷ ys) p (q, h) = elim (Bool-cases (le x y)) [
    | inl e ↦ rw e (p, (q, h))
    | inr e ↦ rw e (q, insert_by-All P x ys p h)
  ]

  sort_by-All : (P : A → Type 0) (xs : List A) → All P xs → All P (sort_by xs)
  unfolding sort_by
  sort_by-All P [] h = tt
  sort_by-All P (x ∷ xs) (p, h) = insert_by-All P x (sort_by xs) p (sort_by-All P xs h)

  each_listed : (xs : List A) → All (λ x. Memᴰ x xs) xs
  each_listed [] = tt
  each_listed (x ∷ xs) = (Memᴰ.head refl, All-imp (λ y m. Memᴰ.tail m) xs (each_listed xs))

  module _ (total : (x y : A) → (le x y ≡ true) ⊎ (le y x ≡ true))
      (chains : (x y z : A) → le x y ≡ true → le y z ≡ true → le x z ≡ true) where
    insert_by-Sorted : (x : A) (xs : List A) → Sorted xs → Sorted (insert_by x xs)
    unfolding insert_by
    insert_by-Sorted x [] h = (tt, tt)
    insert_by-Sorted x (y ∷ ys) (a, h) = elim (Bool-cases (le x y)) [
      | inl e ↦ rw e ((e, All-imp (λ z p. chains x y z e p) ys a), (a, h))
      | inr e ↦ rw e (
        insert_by-All (λ z. le y z ≡ true) x ys (elim (total x y) [ inl f ↦ cc | inr f ↦ f ]) a,
        insert_by-Sorted x ys h,
      )
    ]

    sort_by-Sorted : (xs : List A) → Sorted (sort_by xs)
    unfolding sort_by
    sort_by-Sorted [] = tt
    sort_by-Sorted (x ∷ xs) = insert_by-Sorted x (sort_by xs) (sort_by-Sorted xs)

    same : (x : A) → le x x ≡ true
    same x = elim (total x x) [ inl e ↦ e | inr e ↦ e ]

    none_below :
        (x : A) (xs : List A) → All (λ y. le x y ≡ true) xs → count (λ y. not (le x y)) xs ≡ 0
    none_below x [] h = refl
    none_below x (y ∷ ys) (e, h) = rw e (none_below x ys h)

    -- What stands at a place of a sorted list has so many before it.
    Sorted-get_elem? :
        (xs : List A) (i : ℕ)
        → Sorted xs
        → i < length xs
        → (v : A) × (get_elem? xs i ≡ some v)
          × ((P : A → Type 0) → All P xs → P v)
          × (count (λ x. not (le v x)) xs ≤ i)
          × (i < count (λ x. le x v) xs)
    Sorted-get_elem? [] i h l = absurd (omega arith)
    Sorted-get_elem? (x ∷ xs) zero (a, h) l = (
      x,
      refl,
      (λ P (p, _). p),
      rw (same x, none_below x xs a) (omega arith),
      rw (same x) (omega arith),
    )
    Sorted-get_elem? (x ∷ xs) (suc i) (a, h) l =
        let (v, e, all, below, upto) = Sorted-get_elem? xs i h (omega arith) in
        let first = all (λ y. le x y ≡ true) a in
        (
          v,
          e,
          (λ P (_, p). all P p),
          step (not (le v x)) (count (λ x. not (le v x)) xs) i below,
          rw first (omega (arith, upto)),
        )

    -- The percentile of samples is one of them, by the nearest rank: fewer samples than its rank are
    -- below it, and at least so many are not above it. The rank counts from 1; one below the first
    -- or beyond the last, whatever was asked for, is taken as the first or the last.
    pub percentile-rank :
        (rank : ℕ → ℤ) (d : A) (ds : List A)
        → let n = length (d ∷ ds) in
          (v : A) × (percentile rank (d ∷ ds) ≡ some v)
          × Memᴰ v (d ∷ ds)
          × (count (λ x. not (le v x)) (d ∷ ds) < nearest_rank (rank n) n)
          × (nearest_rank (rank n) n ≤ count (λ x. le x v) (d ∷ ds))
    unfolding percentile
    percentile-rank rank d ds =
        let n = length (d ∷ ds) in
        let i = rank_index (rank n) n in
        let place = rank_index-nearest_rank (rank n) (length ds) in
        let bound = rank_index-bound (rank n) (length ds) in
        let (v, e, all, below, upto) =
          Sorted-get_elem? (sort_by (d ∷ ds)) i (sort_by-Sorted (d ∷ ds))
            (omega (arith, bound, sort_by-length (d ∷ ds))) in
        let below' = subst (λ c. c ≤ i) (sort_by-count (λ x. not (le v x)) (d ∷ ds)) below in
        let upto' = subst (λ c. i < c) (sort_by-count (λ x. le x v) (d ∷ ds)) upto in
        (
          v,
          e,
          all (λ x. Memᴰ x (d ∷ ds))
              (sort_by-All (λ x. Memᴰ x (d ∷ ds)) (d ∷ ds) (each_listed (d ∷ ds))),
          subst (λ k. count (λ x. not (le v x)) (d ∷ ds) < k) place (omega (arith, below')),
          subst (λ k. k ≤ count (λ x. le x v) (d ∷ ds)) place (omega (arith, upto')),
        )
