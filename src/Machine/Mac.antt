-- ===== src/Machine/Mac.antt =====
-- The texts that Go's `net.ParseMAC` reads as 48 bits: six pairs of hex digits with `:` or with `-`
-- between them, or three groups of four with `.` between them.
use spin_machine.Common.{
  ℕ, zero, suc, Text, [], ◌∷◌, ◌≡◌, ◌≢◌, arith, Bool, true, false, ◌&&◌, ◌||◌, ◌==◌, leb, Lacks,
  or-true, inl, inr,
}
use spin_machine.Machine.Options.{comma}

is_hex : ℕ → Bool
is_hex c = leb b'0' c && leb c b'9' || leb b'a' c && leb c b'f' || leb b'A' c && leb c b'F'

-- Pairs of digits, the given number of them after the first.
pairs : ℕ → ℕ → Text → Bool
pairs sep zero (a ∷ b ∷ []) = is_hex a && is_hex b
pairs sep zero _ = false
pairs sep (suc k) (a ∷ b ∷ c ∷ t) = is_hex a && is_hex b && c == sep && pairs sep k t
pairs sep (suc k) _ = false

quads : ℕ → Text → Bool
quads zero (a ∷ b ∷ c ∷ d ∷ []) = is_hex a && is_hex b && is_hex c && is_hex d
quads zero _ = false
quads (suc k) (a ∷ b ∷ c ∷ d ∷ e ∷ t) =
    is_hex a && is_hex b && is_hex c && is_hex d && e == b'.' && quads k t
quads (suc k) _ = false

unfoldable pub is_mac48 : Text → Bool
unfolding is_hex pairs quads
is_mac48 t = pairs b':' 5 t || pairs b'-' 5 t || quads 2 t

is_hex-ne_comma : (c : ℕ) → is_hex c ≡ true → c ≢ comma
unfolding is_hex
is_hex-ne_comma c h = ground arith

pairs-Lacks : (sep k : ℕ) (t : Text) → sep ≢ comma → pairs sep k t ≡ true → Lacks comma t
unfolding pairs
pairs-Lacks sep zero (a ∷ b ∷ []) n h = ground (arith, is_hex-ne_comma a, is_hex-ne_comma b)
pairs-Lacks sep (suc k) (a ∷ b ∷ c ∷ t) n h =
    ground (arith, is_hex-ne_comma a, is_hex-ne_comma b, pairs-Lacks sep k t n)
pairs-Lacks sep zero _ n h = cc
pairs-Lacks sep (suc k) _ n h = cc

quads-Lacks : (k : ℕ) (t : Text) → quads k t ≡ true → Lacks comma t
unfolding quads
quads-Lacks zero (a ∷ b ∷ c ∷ d ∷ []) h =
    ground (arith, is_hex-ne_comma a, is_hex-ne_comma b, is_hex-ne_comma c, is_hex-ne_comma d)
quads-Lacks (suc k) (a ∷ b ∷ c ∷ d ∷ e ∷ t) h = ground (
  arith,
  is_hex-ne_comma a,
  is_hex-ne_comma b,
  is_hex-ne_comma c,
  is_hex-ne_comma d,
  quads-Lacks k t,
)
quads-Lacks zero _ h = cc
quads-Lacks (suc k) _ h = cc

-- An address is one option's value: there is no comma in it.
pub is_mac48-Lacks : (t : Text) → is_mac48 t ≡ true → Lacks comma t
unfolding is_mac48
is_mac48-Lacks t h = elim (or-true _ (quads 2 t) h) [
  | inl p ↦ elim (or-true (pairs b':' 5 t) (pairs b'-' 5 t) p) [
    | inl q ↦ pairs-Lacks b':' 5 t (omega arith) q
    | inr q ↦ pairs-Lacks b'-' 5 t (omega arith) q
  ]
  | inr p ↦ quads-Lacks 2 t p
]
