-- ===== src/Cmdline/Words.antt =====
-- `strings.FieldsFunc` on joined texts: the words of a line are the words of its parts.
use mathlib.Core.List.{flat_map}
use spin_machine.Common.{
  ℕ, Text, lit, ◌≡◌, refl, List, [], ◌∷◌, ◌++◌, append_assoc, append-nil, false, Bool-cases, inl,
  inr, All, join, ◌∙◌, ap, sym, or-false,
}
use spin_machine.Cmdline.{is_space, has_space, gather, fields, flush}

flush-append : (cur : Text) (xs ys : List Text) → flush cur (xs ++ ys) ≡ flush cur xs ++ ys
unfolding flush
flush-append [] xs ys = refl
flush-append (c ∷ cur) xs ys = refl

gather-append : (s t cur : Text) → gather (s ++ b' ' ∷ t) cur ≡ gather s cur ++ gather t []
unfolding gather
gather-append [] t cur = unfold is_space in flush-append cur [] (gather t [])
gather-append (c ∷ s) t cur = elim (Bool-cases (is_space c)) [
  | inl e ↦ rw (e, gather) (ap (flush cur) (gather-append s t []) ∙ flush-append cur _ _)
  | inr e ↦ rw (e, gather) (gather-append s t (cur ++ c ∷ []))
]

-- The words of two texts around a space are those of the first, then those of the second.
pub fields-space : (s t : Text) → fields (s ++ (b' ' ∷ t)) ≡ fields s ++ fields t
fields-space s t = unfold fields in gather-append s t []

-- The words of parts joined by spaces are the words of each part in turn.
pub fields-join : (ps : List Text) → fields (join (lit " ") ps) ≡ flat_map fields ps
unfolding join flat_map lit
fields-join [] = unfold fields in refl
fields-join (p ∷ []) = sym (append-nil (fields p))
fields-join (p ∷ q ∷ ps) = rw fields-space (ap (λ r. fields p ++ r) (fields-join (q ∷ ps)))

abbrev pub IsSolid : Text → Type 0
IsSolid = All (λ c. is_space c ≡ false)

gather-IsSolid : (s cur : Text) → IsSolid s → gather s cur ≡ flush (cur ++ s) []
unfolding gather
gather-IsSolid [] cur h = rw append-nil
gather-IsSolid (c ∷ s) cur (h, hs) =
    rw (h, gather) (gather-IsSolid s (cur ++ c ∷ []) hs ∙ rw append_assoc)

-- A text with no space and not empty is one word.
pub fields-IsSolid : (c : ℕ) (s : Text) → IsSolid (c ∷ s) → fields (c ∷ s) ≡ (c ∷ s) ∷ []
unfolding flush
fields-IsSolid c s h = unfold fields in gather-IsSolid (c ∷ s) [] h

pub has_space-IsSolid : (s : Text) → has_space s ≡ false → IsSolid s
unfolding has_space
has_space-IsSolid [] h = tt
has_space-IsSolid (c ∷ s) h =
    let r = or-false (is_space c) (has_space s) h in (r.0, has_space-IsSolid s r.1)

abbrev pub IsWord : Text → Type 0
IsWord w = fields w ≡ w ∷ []

pub flat_map-fields_words : (ws : List Text) → All IsWord ws → flat_map fields ws ≡ ws
unfolding flat_map
flat_map-fields_words [] h = refl
flat_map-fields_words (w ∷ ws) (h, hs) = cc (h, flat_map-fields_words ws hs)

pub flat_map-append :
    {A B : Type 0} (f : A → List B) (xs ys : List A)
    → flat_map f (xs ++ ys) ≡ flat_map f xs ++ flat_map f ys
unfolding flat_map
flat_map-append f [] ys = refl
flat_map-append f (x ∷ xs) ys = rw (flat_map-append f xs ys) (sym (append_assoc (f x) _ _))
