-- ===== src/Common/Errors.antt =====
-- Errors as values: what a Go function that returns an error, or a value and an error, gives.
use Prim.Native.Nat.{ℕ, suc}
use mathlib.Core.Path.{◌≡◌, refl}
use mathlib.Core.Logic.{◌↔◌}
use mathlib.Core.Bool.{Bool, true, false}
use mathlib.Core.List.{List, [], ◌∷◌}
use spin_machine.Common.Lists.{All}

pub data Result {ℓ κ} (E : Type ℓ) (A : Type κ) : Type (ℓ ⊔ κ) where
  ok : A → Result E A
  err : E → Result E A

-- What a function that returns only an error gives.
abbrev pub Checked {ℓ} : Type ℓ → Type ℓ
Checked E = Result E (Unit {0})

-- `if b { return e }`.
abbrev pub reject {ℓ} : {E : Type ℓ} → Bool → E → Checked E
reject true e = err e
reject false e = ok tt

infixl 5 ◌>>=◌ ◌>>◌
abbrev pub ◌>>=◌ {ℓ κ μ} :
    {E : Type ℓ} {A : Type κ} {B : Type μ} → Result E A → (A → Result E B) → Result E B
ok a >>= f = f a
err e >>= f = err e

abbrev pub ◌>>◌ {ℓ κ} : {E : Type ℓ} {B : Type κ} → Checked E → Result E B → Result E B
m >> k = m >>= λ _. k

-- An error wrapped with what it is about: `fmt.Errorf("...: %w", err)`.
abbrev pub wrap {ℓ κ μ} : {E : Type ℓ} {F : Type κ} {A : Type μ} → (E → F) → Result E A → Result F A
wrap f (ok a) = ok a
wrap f (err e) = err (f e)

-- A `switch` whose cases return errors: the first case that holds decides.
unfoldable pub switch {ℓ} : {E : Type ℓ} → List (Bool × E) → Checked E
switch [] = ok tt
switch ((true, e) ∷ rest) = err e
switch ((false, e) ∷ rest) = switch rest

-- `for i, x := range xs`, returning the first error.
unfoldable pub each {ℓ κ} : {E : Type ℓ} {A : Type κ} → (ℕ → A → Checked E) → ℕ → List A → Checked E
each f i [] = ok tt
each f i (x ∷ xs) = f i x >> each f (suc i) xs

module _ {ℓ} {E : Type ℓ} where
  pub >>_ok {κ} :
      {B : Type κ} (m : Checked E) (k : Result E B) {b : B}
      → ((m >> k) ≡ ok b) ↔ ((m ≡ ok tt) × (k ≡ ok b))
  >>_ok (ok tt) k = (λ h. (refl, h), λ h. h.1)
  >>_ok (err e) k = (λ h. cc, λ h. cc)

  pub wrap_ok {κ} : {F : Type κ} (f : E → F) (m : Checked E) → (wrap f m ≡ ok tt) ↔ (m ≡ ok tt)
  wrap_ok f (ok tt) = (λ _. refl, λ _. refl)
  wrap_ok f (err e) = (λ h. cc, λ h. cc)

  -- A switch passes exactly when none of its cases holds.
  pub switch_ok : (cases : List (Bool × E)) → (switch cases ≡ ok tt) ↔ All (λ c. c.0 ≡ false) cases
  unfolding switch
  switch_ok [] = (λ _. tt, λ _. refl)
  switch_ok ((true, e) ∷ rest) = (λ h. cc, λ h. cc (h.0))
  switch_ok ((false, e) ∷ rest) = (λ h. (refl, (switch_ok rest).0 h), λ h. (switch_ok rest).1 h.1)

  pub >>_iff {κ μ ν} :
      {B : Type ν} {P : Type κ} {Q : Type μ} (m : Checked E) (k : Result E B) {b : B}
      → (m ≡ ok tt) ↔ P
      → (k ≡ ok b) ↔ Q
      → ((m >> k) ≡ ok b) ↔ (P × Q)
  >>_iff m k p q =
      (λ h. let r = (>>_ok m k).0 h in (p.0 r.0, q.0 r.1), λ h. (>>_ok m k).1 (p.1 h.0, q.1 h.1))

  pub reject_ok : (b : Bool) (e : E) → (reject b e ≡ ok tt) ↔ (b ≡ false)
  reject_ok true e = (λ h. cc, λ h. cc)
  reject_ok false e = (λ _. refl, λ _. refl)

  -- A loop of checks passes exactly when each element passes, whatever its position.
  pub each_iff {κ μ} :
      {A : Type κ} (P : A → Type μ) (f : ℕ → A → Checked E)
      → ((i : ℕ) (x : A) → (f i x ≡ ok tt) ↔ P x)
      → (i : ℕ) (xs : List A) → (each f i xs ≡ ok tt) ↔ All P xs
  unfolding each
  each_iff P f h i [] = (λ _. tt, λ _. refl)
  each_iff P f h i (x ∷ xs) = >>_iff (f i x) _ (h i x) (each_iff P f h (suc i) xs)

  -- What a successful bind went through.
  pub >>=_iff {κ μ} :
      {A : Type κ} {B : Type μ} (m : Result E A) (f : A → Result E B) {b : B}
      → ((m >>= f) ≡ ok b) ↔ ((a : A) × (m ≡ ok a) × (f a ≡ ok b))
  >>=_iff (ok a) f = (λ h. (a, refl, h), λ (a', e, h). cc)
  >>=_iff (err e) f = (λ h. cc, λ (a', e', h). cc)
