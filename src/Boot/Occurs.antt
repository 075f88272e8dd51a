-- ===== src/Boot/Occurs.antt =====
-- `bytes.Contains`, and what a window of a stream must keep for it.
use spin_machine.Common.{
  ℕ, zero, suc, ◌-◌, ◌≤◌, Text, ◌≡◌, refl, sym, ◌∙◌, Bool, true, false, ◌&&◌, ◌||◌, ◌==◌, [], ◌∷◌,
  ◌++◌, length, arith, is_empty, ap, append_assoc, length-append,
}

starts : Text → Text → Bool
starts [] s = true
starts (m ∷ ms) [] = false
starts (m ∷ ms) (c ∷ s) = m == c && starts ms s

-- `bytes.Contains(s, m)`.
unfoldable pub occurs : Text → Text → Bool
unfolding starts
occurs m [] = is_empty m
occurs m (c ∷ s) = starts m (c ∷ s) || occurs m s

-- `s[n:]`.
unfoldable pub drop : ℕ → Text → Text
drop zero s = s
drop (suc n) [] = []
drop (suc n) (c ∷ s) = drop n s

starts-long : (m s t : Text) → length m ≤ length s → starts m (s ++ t) ≡ starts m s
unfolding starts
starts-long [] s t h = refl
starts-long (m ∷ ms) [] t h = absurd (omega arith)
starts-long (m ∷ ms) (c ∷ s) t h = ground (arith, starts-long ms s t (omega arith))

starts-append : (m s t : Text) → starts m s ≡ true → starts m (s ++ t) ≡ true
unfolding starts
starts-append [] s t h = refl
starts-append (m ∷ ms) [] t h = cc
starts-append (m ∷ ms) (c ∷ s) t h = ground (arith, starts-append ms s t)

-- What is in a text is in a longer one.
pub occurs-append : (m s t : Text) → occurs m s ≡ true → occurs m (s ++ t) ≡ true
unfolding occurs
occurs-append m [] [] h = h
occurs-append [] [] (c ∷ t) h = refl
occurs-append (_ ∷ _) [] (c ∷ t) h = cc
occurs-append m (c ∷ s) t h = ground (arith, starts-append m (c ∷ s) t, occurs-append m s t)

or_assoc : (a b c : Bool) → ((a || b) || c) ≡ (a || (b || c))
or_assoc a b c = ground arith

-- A marker of a stream that grows is in what was there, or in its end with what is new, where the end
-- is at most one byte shorter than the marker.
pub occurs-split :
    (m x w t : Text)
    → length m ≤ suc (length w)
    → occurs m (x ++ (w ++ t)) ≡ occurs m (x ++ w) || occurs m (w ++ t)
unfolding occurs
occurs-split m [] w t h = ground (arith, occurs-append m w t)
occurs-split m (c ∷ x) w t h =
    let long : starts m (c ∷ (x ++ (w ++ t))) ≡ starts m (c ∷ (x ++ w)) =
      ap (λ s. starts m (c ∷ s)) (sym (append_assoc x w t))
      ∙ starts-long m (c ∷ (x ++ w)) t (omega (arith, length-append x w)) in
    rw (long, occurs-split m x w t h)
      (sym (or_assoc (starts m (c ∷ (x ++ w))) (occurs m (x ++ w)) (occurs m (w ++ t))))

-- Dropping splits a text.
pub drop-split :
    (n : ℕ) (s : Text)
    → n ≤ length s
    → (x : Text) × (s ≡ x ++ drop n s) × (length (drop n s) ≡ length s - n)
unfolding drop
drop-split zero s h = ([], refl, omega arith)
drop-split (suc n) [] h = absurd (omega arith)
drop-split (suc n) (c ∷ s) h =
    let (x, same, long) = drop-split n s (omega arith) in (c ∷ x, ap (λ s. c ∷ s) same, omega arith)
