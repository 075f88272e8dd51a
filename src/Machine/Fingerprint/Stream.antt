-- ===== src/Machine/Fingerprint/Stream.antt =====
-- The length prefixes of `Spec.fingerprint` make its stream readable: equal streams have equal
-- entries.
use mathlib.Core.Path.{ap₂}
use spin_machine.Common.{
  ℕ, Text, lit, ◌≡◌, ◌≢◌, refl, sym, List, [], ◌∷◌, ◌++◌, arith, Lacks, All, length, append_assoc,
}
use spin_machine.Common.Numeral.{decimal, decimal-Lacks, decimal_injective}
use spin_machine.Machine.Fingerprint.{Entry, write, stream}

pub cons_injective {ℓ} :
    {A : Type ℓ} {a b : A} {s t : List A} → (a ∷ s) ≡ (b ∷ t) → (a ≡ b) × (s ≡ t)
cons_injective e = (cc, cc)

-- What stands before the first separator, and what behind it, are determined.
pub cut_injective :
    (sep : ℕ) (s s' t t' : Text)
    → Lacks sep s
    → Lacks sep s'
    → s ++ (sep ∷ t) ≡ s' ++ (sep ∷ t')
    → (s ≡ s') × (t ≡ t')
cut_injective sep [] [] t t' h h' e = (refl, (cons_injective e).1)
cut_injective sep [] (c ∷ s') t t' h h' e = absurd (h'.0 (sym (cons_injective e).0))
cut_injective sep (c ∷ s) [] t t' h h' e = absurd (h.0 (cons_injective e).0)
cut_injective sep (c ∷ s) (c' ∷ s') t t' h h' e =
    let (same, rest) = cons_injective e in
    let r = cut_injective sep s s' t t' h.1 h'.1 rest in (ap₂ ◌∷◌ same r.0, r.1)

-- Texts of one length before two rests are determined.
length_injective :
    (s s' t t' : Text) → length s ≡ length s' → s ++ t ≡ s' ++ t' → (s ≡ s') × (t ≡ t')
length_injective [] [] t t' h e = (refl, e)
length_injective [] (c ∷ s') t t' h e = absurd (omega arith)
length_injective (c ∷ s) [] t t' h e = absurd (omega arith)
length_injective (c ∷ s) (c' ∷ s') t t' h e =
    let (same, rest) = cons_injective e in
    let r = length_injective s s' t t' (omega arith) rest in (ap₂ ◌∷◌ same r.0, r.1)

write-append :
    (k v rest : Text)
    → write (k, v) ++ rest ≡ k ++ (b'=' ∷ (decimal (length v) ++ (b':' ∷ (v ++ (b'\n' ∷ rest)))))
unfolding write lit
write-append k v rest = simp append_assoc

-- One entry is read back from a stream, and what follows it.
write_injective :
    (k k' v v' rest rest' : Text)
    → Lacks b'=' k
    → Lacks b'=' k'
    → write (k, v) ++ rest ≡ write (k', v') ++ rest'
    → (k ≡ k') × (v ≡ v') × (rest ≡ rest')
write_injective k k' v v' rest rest' h h' e =
    let e' = rw (write-append k v rest, write-append k' v' rest') at e in
    let (key, tail) = cut_injective b'=' k k' _ _ h h' e' in
    let (size, tail') =
      cut_injective b':' (decimal (length v)) (decimal (length v')) _ _
        (decimal-Lacks b':' _ (omega arith)) (decimal-Lacks b':' _ (omega arith)) tail in
    let (value, tail'') =
      length_injective v v' _ _ (decimal_injective (length v) (length v') size) tail' in
    (key, value, (cons_injective tail'').1)

middle-ne-nil : (s : Text) (c : ℕ) (t : Text) → s ++ (c ∷ t) ≢ []
middle-ne-nil [] c t e = cc
middle-ne-nil (x ∷ s) c t e = cc

write-ne-nil : (k v rest : Text) → write (k, v) ++ rest ≢ []
write-ne-nil k v rest = rw write-append (middle-ne-nil k _ _)

-- Two streams of entries whose keys hold no `=` are equal only if the entries are.
pub stream_injective :
    (es fs : List Entry)
    → All (λ e. Lacks b'=' e.0) es
    → All (λ e. Lacks b'=' e.0) fs
    → stream es ≡ stream fs
    → es ≡ fs
unfolding stream
stream_injective [] [] h k e = refl
stream_injective [] ((key, v) ∷ fs) h k e = absurd (write-ne-nil key v _ (sym e))
stream_injective ((key, v) ∷ es) [] h k e = absurd (write-ne-nil key v _ e)
stream_injective ((key, v) ∷ es) ((key', v') ∷ fs) h k e =
    let (same, value, rest) = write_injective key key' v v' _ _ h.0 k.0 e in
    ap₂ ◌∷◌ (ap₂ (λ a b. (a, b)) same value) (stream_injective es fs h.1 k.1 rest)
