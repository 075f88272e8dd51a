-- ===== src/Report/Nearest.antt =====
-- What `nearest` of boot/report.go finds: the one candidate that is closer than every other.
use mathlib.Core.Path.{subst}
use spin_machine.Common.{
  ℕ, ◌<◌, ◌≤◌, ◌≡◌, ◌↔◌, ◌⊎◌, inl, inr, refl, ap, sym, ◌∙◌, Bool, true, false, Option, none, some,
  List, [], ◌∷◌, ◌++◌, All, Bool-cases, ◌==◌, ltb, if◌then◌else◌, arith,
}
use spin_machine.Report.{Row}
use spin_machine.Report.Distance.{distance}
use spin_machine.Report.Renames.{Best, better, nearest_from, untied, nearest, stands_for}

module _ {N : Type 0} (r : Row N) where
  abbrev pub away_from : Row N → ℕ
  away_from c = distance r.args c.args

  -- A row that is no candidate, or farther away.
  abbrev pub IsFarther : ℕ → Row N → Type 0
  IsFarther n c = stands_for r c ≡ true → n < away_from c

  -- A candidate among rows, with every other candidate farther away.
  abbrev pub IsNearest : List (Row N) → Row N → Type 0
  IsNearest among c =
      (xs : List (Row N)) × (ys : List (Row N)) × (among ≡ xs ++ c ∷ ys)
      × (stands_for r c ≡ true)
      × All (IsFarther (away_from c)) xs
      × All (IsFarther (away_from c)) ys

  -- Such a row, closer than the best so far.
  abbrev IsCloser : ℕ → List (Row N) → Row N → Type 0
  IsCloser n among c = (away_from c < n) × IsNearest among c

  later :
      (n : ℕ) (x c : Row N) (cs : List (Row N))
      → (stands_for r x ≡ true → n ≤ away_from x)
      → IsCloser n cs c
      → IsCloser n (x ∷ cs) c
  later n x c cs h (l, (xs, ys, e, s, fx, fy)) =
      (l, (x ∷ xs, ys, ap (λ zs. x ∷ zs) e, s, ((λ t. omega (arith, h t)), fx), fy))

  -- What the loop finds, from a best row on.
  abbrev Finds : Best N → List (Row N) → Row N → Type 0
  Finds b cs c = ((c ≡ b.row) × (b.tie ≡ false) × All (IsFarther b.away) cs) ⊎ IsCloser b.away cs c

  kept :
      (b : Best N) (x c : Row N) (cs : List (Row N))
      → IsFarther b.away x
      → Finds b cs c
      → Finds b (x ∷ cs) c
  kept b x c cs h (inl (e, t, f)) = inl (e, t, (h, f))
  kept b x c cs h (inr k) = inr (later b.away x c cs (λ t. omega (arith, h t)) k)

  tied :
      (b : Best N) (x c : Row N) (cs : List (Row N))
      → away_from x ≡ b.away
      → Finds (record b { tie = true }) cs c
      → Finds b (x ∷ cs) c
  tied b x c cs h (inl (e, t, f)) = absurd (cc t)
  tied b x c cs h (inr k) = inr (later b.away x c cs (λ t. omega (arith, h)) k)

  taken :
      (b : Best N) (x c : Row N) (cs : List (Row N))
      → stands_for r x ≡ true
      → away_from x < b.away
      → Finds (record { row = x; away = away_from x; tie = false }) cs c
      → Finds b (x ∷ cs) c
  taken b x c cs s h (inl (e, t, f)) =
      subst (Finds b (x ∷ cs)) (sym e) (inr (h, ([], cs, refl, s, tt, f)))
  taken b x c cs s h (inr k) =
      let (l, more) = later (away_from x) x c cs (λ t. omega arith) k in
      inr (omega (arith, l, h), more)

  untied-some : (b : Best N) (c : Row N) → untied (some b) ≡ some c → (c ≡ b.row) × (b.tie ≡ false)
  untied-some b c h = ground arith

  -- One round, by what the row is.
  round :
      (b : Best N) (x c : Row N) (cs : List (Row N))
      → ((b' : Best N) → untied (nearest_from (some b') r cs) ≡ some c → Finds b' cs c)
      → (s : Bool) → s ≡ stands_for r x
      → untied (nearest_from (if s then better (some b) x (away_from x) else some b) r cs) ≡ some c
      → Finds b (x ∷ cs) c
  round b x c cs found false s h = kept b x c cs (λ t. absurd (cc (s, t))) (found b h)
  round b x c cs found true s h = elim (Bool-cases (ltb (away_from x) b.away)) [
    | inl l ↦ taken b x c cs (sym s) (ground (arith, l)) (found _ (rw l at h))
    | inr l ↦ elim (Bool-cases (away_from x == b.away)) [
      | inl e ↦ tied b x c cs (ground (arith, e)) (found _ (rw (l, e) at h))
      | inr e ↦ kept b x c cs (λ t. ground (arith, l, e)) (found b (rw (l, e) at h))
    ]
  ]

  found_from :
      (b : Best N) (cs : List (Row N)) (c : Row N)
      → untied (nearest_from (some b) r cs) ≡ some c
      → Finds b cs c
  unfolding nearest_from
  found_from b [] c h = let (e, t) = untied-some b c h in inl (e, t, tt)
  found_from b (x ∷ cs) c h = round b x c cs (λ b' k. found_from b' cs c k) (stands_for r x) refl h

  passed :
      (c : Row N) (cs : List (Row N)) (x : Row N)
      → stands_for r x ≡ false
      → IsNearest cs c
      → IsNearest (x ∷ cs) c
  passed c cs x h (xs, ys, e, s, fx, fy) =
      (x ∷ xs, ys, ap (λ zs. x ∷ zs) e, s, ((λ t. absurd (cc (h, t))), fx), fy)

  first :
      (c x : Row N) (cs : List (Row N))
      → stands_for r x ≡ true
      → Finds (record { row = x; away = away_from x; tie = false }) cs c
      → IsNearest (x ∷ cs) c
  first c x cs s (inl (e, t, f)) = subst (IsNearest (x ∷ cs)) (sym e) ([], cs, refl, s, tt, f)
  first c x cs s (inr k) = (later (away_from x) x c cs (λ t. omega arith) k).1

  found :
      (among : List (Row N)) (c : Row N)
      → untied (nearest_from none r among) ≡ some c
      → IsNearest among c
  unfolding nearest_from
  found [] c h = absurd (cc h)
  found (x ∷ cs) c h = elim (Bool-cases (stands_for r x)) [
    | inl s ↦ first c x cs s (found_from _ cs c (rw s at h))
    | inr s ↦ passed c cs x s (found cs c (rw s at h))
  ]

  better_kept : (b : Best N) (y : Row N) (d : ℕ) → b.away < d → better (some b) y d ≡ some b
  better_kept b y d h = ground arith

  -- Farther rows leave the best one as it is.
  best_kept :
      (b : Best N) (ys : List (Row N))
      → All (IsFarther b.away) ys
      → nearest_from (some b) r ys ≡ some b
  unfolding nearest_from
  best_kept b [] f = refl
  best_kept b (y ∷ ys) (f, fs) = elim (Bool-cases (stands_for r y)) [
    | inl s ↦ rw (s, better_kept b y (away_from y) (f s)) (best_kept b ys fs)
    | inr s ↦ rw s (best_kept b ys fs)
  ]

  -- No best row so far is as close.
  abbrev IsAbove : ℕ → Option (Best N) → Type 0
  IsAbove n none = Unit
  IsAbove n (some b) = n < b.away

  better-IsAbove :
      (n : ℕ) (b : Option (Best N)) (x : Row N) (d : ℕ)
      → IsAbove n b
      → n < d
      → IsAbove n (better b x d)
  better-IsAbove n none x d _ l = l
  better-IsAbove n (some b) x d h l = ground arith

  better_taken :
      (b : Option (Best N)) (c : Row N) (d : ℕ)
      → IsAbove d b
      → better b c d ≡ some (record { row = c; away = d; tie = false })
  better_taken none c d h = refl
  better_taken (some b) c d h = ground arith

  nearest_from_found :
      (b : Option (Best N)) (xs ys : List (Row N)) (c : Row N)
      → IsAbove (away_from c) b
      → stands_for r c ≡ true
      → All (IsFarther (away_from c)) xs
      → All (IsFarther (away_from c)) ys
      → untied (nearest_from b r (xs ++ c ∷ ys)) ≡ some c
  unfolding nearest_from
  nearest_from_found b [] ys c h s fx fy =
      let best : Best N = record { row = c; away = away_from c; tie = false } in
      rw (nearest_from, s, better_taken b c (away_from c) h, best_kept best ys fy) refl
  nearest_from_found b (x ∷ xs) ys c h s (f, fs) fy = elim (Bool-cases (stands_for r x)) [
    | inl t ↦
        rw (nearest_from, t)
          (nearest_from_found (better b x (away_from x)) xs ys c
            (better-IsAbove (away_from c) b x (away_from x) h (f t)) s fs fy)
    | inr t ↦ rw (nearest_from, t) (nearest_from_found b xs ys c h s fs fy)
  ]

  -- `nearest` finds a row exactly when it is a candidate and every other candidate among the rows,
  -- wherever it stands and another copy of the row included, is farther away.
  pub nearest_iff :
      (among : List (Row N)) (c : Row N) → (nearest r among ≡ some c) ↔ IsNearest among c
  unfolding nearest
  nearest_iff among c = (
    found among c,
    (λ (xs, ys, e, s, fx, fy).
        ap (λ zs. untied (nearest_from none r zs)) e ∙ nearest_from_found none xs ys c tt s fx fy),
  )
