-- ===== src/Report/Leftovers.antt =====
-- `distance` of boot/report.go counts what is left of each command line without the other.
use spin_machine.Common.{
  ℕ, ◌+◌, ◌-◌, ◌≡◌, refl, ap, sym, ◌∙◌, Text, false, List, [], ◌∷◌, length, All, Bool-cases, inl,
  inr, text_eq_self, ne_of_text_eq, text_eq, text_eq_iff, if◌then◌else◌, arith,
}
use spin_machine.Common.Int.{ℤ, pos, negsuc, pos_part, neg_part, ◌+ℤ◌}
use spin_machine.Report.Distance.{Tally, bump, bump_all, total, distance}
use spin_machine.Report.Copies.{
  without, copies, apart, copies-without, clear, clear-length, copies-clear, none_of_copies,
}

-- What the map holds for a key.
at : Text → Tally → ℤ
at s [] = pos 0
at s ((k, n) ∷ m) = let rest = at s m in if text_eq k s then n else rest

at-bump :
    (d : ℤ) (s t : Text) (m : Tally)
    → at s (bump d t m) ≡ (if text_eq t s then at s m +ℤ d else at s m)
unfolding at bump ◌+ℤ◌
at-bump d s t [] = ground arith
at-bump d s t ((k, n) ∷ m) = elim (Bool-cases (text_eq k t)) [
  | inl e ↦ rw (e, (text_eq_iff k t).0 e) (ground arith)
  | inr e ↦ rw e (ground (arith, apart s t k e, at-bump d s t m))
]

at-bump_parts :
    (d : ℤ) (s t : Text) (m : Tally)
    → pos_part (at s (bump d t m)) + neg_part (at s m) + (if text_eq t s then neg_part d else 0)
      ≡ neg_part (at s (bump d t m)) + pos_part (at s m) + (if text_eq t s then pos_part d else 0)
unfolding ◌+ℤ◌
at-bump_parts d s t m = elim (Bool-cases (text_eq t s)) [
  | inl e ↦ rw (at-bump d s t m, e) (ground arith)
  | inr e ↦ rw (at-bump d s t m, e) (omega arith)
]

-- The loops over both command lines leave the difference of the copies.
at-bump_all :
    (s : Text) (a b : List Text) (m : Tally)
    → let n = at s (bump_all (negsuc 0) b (bump_all (pos 1) a m)) in
      pos_part n + neg_part (at s m) + copies s b ≡ neg_part n + pos_part (at s m) + copies s a
unfolding bump_all copies
at-bump_all s [] [] m = omega arith
at-bump_all s [] (t ∷ b) m =
    let rest = at-bump_all s [] b (bump (negsuc 0) t m) in
    let one = at-bump_parts (negsuc 0) s t m in
    elim (Bool-cases (text_eq t s)) [
      | inl e ↦ rw e (omega (arith, rest, rw e at one))
      | inr e ↦ rw e (omega (arith, rest, rw e at one))
    ]
at-bump_all s (t ∷ a) b m =
    let rest = at-bump_all s a b (bump (pos 1) t m) in
    let one = at-bump_parts (pos 1) s t m in
    elim (Bool-cases (text_eq t s)) [
      | inl e ↦ rw e (omega (arith, rest, rw e at one))
      | inr e ↦ rw e (omega (arith, rest, rw e at one))
    ]

-- No key of a map stands twice.
abbrev Without : Text → Tally → Type 0
Without k = All (λ e. text_eq e.0 k ≡ false)

abbrev IsMap : Tally → Type 0
IsMap [] = Unit
IsMap ((k, n) ∷ m) = Without k m × IsMap m

bump-Without :
    (d : ℤ) (t k : Text) (m : Tally) → text_eq t k ≡ false → Without k m → Without k (bump d t m)
unfolding bump
bump-Without d t k [] e h = (e, tt)
bump-Without d t k ((key, n) ∷ m) e (h, hs) = elim (Bool-cases (text_eq key t)) [
  | inl f ↦ rw f (h, hs)
  | inr f ↦ rw f (h, bump-Without d t k m e hs)
]

text_eq_comm : (s t : Text) → text_eq s t ≡ false → text_eq t s ≡ false
text_eq_comm s t h = elim (Bool-cases (text_eq t s)) [
  | inr e ↦ e
  | inl e ↦ absurd (ne_of_text_eq s t h (sym ((text_eq_iff t s).0 e)))
]

bump-IsMap : (d : ℤ) (t : Text) (m : Tally) → IsMap m → IsMap (bump d t m)
unfolding bump
bump-IsMap d t [] h = (tt, tt)
bump-IsMap d t ((k, n) ∷ m) (h, hs) = elim (Bool-cases (text_eq k t)) [
  | inl e ↦ rw e (h, hs)
  | inr e ↦ rw e (bump-Without d t k m (text_eq_comm k t e) h, bump-IsMap d t m hs)
]

bump_all-IsMap : (d : ℤ) (b : List Text) (m : Tally) → IsMap m → IsMap (bump_all d b m)
unfolding bump_all
bump_all-IsMap d [] m h = h
bump_all-IsMap d (t ∷ b) m h = bump_all-IsMap d b (bump d t m) (bump-IsMap d t m h)

at-Without : (k : Text) (m : Tally) → Without k m → at k m ≡ pos 0
unfolding at
at-Without k [] h = refl
at-Without k ((key, n) ∷ m) (h, hs) = rw h (at-Without k m hs)

-- A list without the first key of a map has the copies that the rest of the map says.
clear_rest :
    (f : ℤ → ℕ) (k : Text) (n : ℤ) (m : Tally) (xs : List Text)
    → f (pos 0) ≡ 0
    → Without k m
    → ((s : Text) → copies s xs ≡ f (at s ((k, n) ∷ m)))
    → (s : Text) → copies s (clear k xs) ≡ f (at s m)
unfolding at
clear_rest f k n m xs z w h s = elim (Bool-cases (text_eq k s)) [
  | inl e ↦
      let same = (text_eq_iff k s).0 e in
      rw (copies-clear s k xs, e) (sym (ap f (ap (λ t. at t m) (sym same) ∙ at-Without k m w) ∙ z))
  | inr e ↦ rw (copies-clear s k xs, e) (h s ∙ rw e refl)
]

-- The sum over a map is the length of two lists with as many copies as it says.
total-length :
    (m : Tally) (xs ys : List Text)
    → IsMap m
    → ((s : Text) → copies s xs ≡ pos_part (at s m))
    → ((s : Text) → copies s ys ≡ neg_part (at s m))
    → total m ≡ length xs + length ys
unfolding total at
total-length [] xs ys _ h k = omega (arith, none_of_copies xs h, none_of_copies ys k)
total-length ((key, n) ∷ m) xs ys (w, ws) h k =
    let rest =
      total-length m (clear key xs) (clear key ys) ws (clear_rest pos_part key n m xs refl w h)
        (clear_rest neg_part key n m ys refl w k) in
    let first : copies key xs ≡ pos_part n = h key ∙ rw (text_eq_self key) refl in
    let second : copies key ys ≡ neg_part n = k key ∙ rw (text_eq_self key) refl in
    omega (arith, rest, clear-length key xs, clear-length key ys, first, second)

parts_of_difference :
    (n : ℤ) (p q : ℕ)
    → pos_part n + q ≡ neg_part n + p
    → (pos_part n ≡ p - q) × (neg_part n ≡ q - p)
parts_of_difference (pos n) p q h = (omega arith, omega arith)
parts_of_difference (negsuc n) p q h = (omega arith, omega arith)

-- The distance of two command lines is the number of arguments that are left of the first when each
-- argument of the second has taken one that is equal to it, and of the second likewise.
pub distance-without :
    (a b : List Text) → distance a b ≡ length (without a b) + length (without b a)
unfolding distance at
distance-without a b =
    let m = bump_all (negsuc 0) b (bump_all (pos 1) a []) in
    let parts = λ (s : Text).
      parts_of_difference (at s m) (copies s a) (copies s b)
        (omega (arith, at-bump_all s a b [])) in
    total-length m (without a b) (without b a)
      (bump_all-IsMap (negsuc 0) b _ (bump_all-IsMap (pos 1) a [] tt))
      (λ s. copies-without s a b ∙ sym (parts s).0) (λ s. copies-without s b a ∙ sym (parts s).1)
