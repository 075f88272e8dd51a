-- ===== src/Notes/Configured.antt =====
-- When the notes of hack/releasenotes/main.go say nothing of the kernel's configuration or the pins.
use spin_machine.Common.{
  ◌≡◌, ◌↔◌, ◌⊎◌, ap, is_empty, if◌then◌else◌, inl, inr, refl, sym, ◌∙◌, Text, lit, false, List, [],
  ◌∷◌, ◌++◌, map, All, All-append, Bool-cases, text_eq, text_eq_iff, contains, arith,
}
use spin_machine.Issues.{distinct}
use spin_machine.Issues.Settled.{contains-All, distinct-All, All-first}
use spin_machine.Issues.Sorting.{sort-All}
use spin_machine.Release.Manifest.{Env, value_of}
use spin_machine.Report.{Entries}
use spin_machine.Notes.Config.{sorted_keys, setting, option_lines}

abbrev keys : {A : Type 0} → Entries A → List Text
keys {A} m = map (λ (e : Text × A). e.0) m

-- What holds of the sorted keys of two maps holds of the keys of each.
sorted_keys-All :
    {A : Type 0} (P : Text → Type 0) (a b : Entries A)
    → All P (sorted_keys a b) ↔ (All P (keys a) × All P (keys b))
unfolding sorted_keys
sorted_keys-All P a b =
    let (s, s') = sort-All P (distinct [] (keys a ++ keys b)) in
    let (d, d') = distinct-All P [] (keys a ++ keys b) in
    (
      (λ h. All-first P (keys a) (keys b) (d (s h)).1),
      (λ (h, k). s' (d' (tt, All-append P (keys a) (keys b) h k))),
    )

-- What holds of the keys, and of every text that is none, holds of every text.
every_text :
    {A : Type 0} (P : Text → Type 0) (a b : Entries A)
    → ((k : Text) → contains (keys a) k ≡ false → contains (keys b) k ≡ false → P k)
    → All P (sorted_keys a b)
    → (k : Text) → P k
every_text P a b other h k =
    let (here, there) = (sorted_keys-All P a b).0 h in
    elim (Bool-cases (contains (keys a) k)) [
      | inl e ↦ contains-All P (keys a) k e here
      | inr e ↦ elim (Bool-cases (contains (keys b) k)) [
        | inl f ↦ contains-All P (keys b) k f there
        | inr f ↦ other k e f
      ]
    ]

all_of_every : (P : Text → Type 0) → ((k : Text) → P k) → (ks : List Text) → All P ks
all_of_every P h [] = tt
all_of_every P h (k ∷ ks) = (h k, all_of_every P h ks)

value_of-none : (k : Text) (m : Env) → contains (keys m) k ≡ false → value_of m k ≡ []
unfolding value_of contains
value_of-none k [] h = refl
value_of-none k ((key, v) ∷ m) h = ground (arith, value_of-none k m)

-- An option that is not set: it is not written, or written as `n`.
abbrev pub IsOff : Text → Type 0
IsOff v = (v ≡ []) ⊎ (v ≡ lit "n")

-- Two configurations say the same of an option.
abbrev pub IsSame : Text → Text → Type 0
IsSame v w = (v ≡ w) ⊎ (IsOff v × IsOff w)

or_n : (v : Text) → Text
or_n v = if is_empty v then lit "n" else v

or_n-IsOff : (v : Text) → IsOff v → or_n v ≡ lit "n"
unfolding or_n lit
or_n-IsOff v (inl e) = rw e refl
or_n-IsOff v (inr e) = ap or_n e ∙ written
  where
    written : or_n (lit "n") ≡ lit "n"
    written = refl

or_n_iff : (v w : Text) → (or_n v ≡ or_n w) ↔ IsSame v w
unfolding or_n lit
or_n_iff v w = (split v w, joined)
  where
    split : (v w : Text) → or_n v ≡ or_n w → IsSame v w
    split [] [] e = inl refl
    split [] (c ∷ w) e = inr (inl refl, inr (sym e))
    split (b ∷ v) [] e = inr (inr e, inl refl)
    split (b ∷ v) (c ∷ w) e = inl e

    joined : IsSame v w → or_n v ≡ or_n w
    joined (inl e) = ap or_n e
    joined (inr (a, b)) = or_n-IsOff v a ∙ sym (or_n-IsOff w b)

-- The code's setting of an option.
setting_iff :
    (old cur : Env) (o : Text)
    → (setting old o ≡ setting cur o) ↔ IsSame (value_of old o) (value_of cur o)
unfolding setting or_n
setting_iff old cur o = or_n_iff (value_of old o) (value_of cur o)

option_lines_nil :
    (old cur : Env) (opts : List Text)
    → (option_lines old cur opts ≡ []) ↔ All (λ o. IsSame (value_of old o) (value_of cur o)) opts
unfolding option_lines
option_lines_nil old cur [] = ((λ _. tt), (λ _. refl))
option_lines_nil old cur (o ∷ opts) =
    let rest = option_lines_nil old cur opts in
    let same = text_eq_iff (setting old o) (setting cur o) in
    let said = setting_iff old cur o in
    elim (Bool-cases (text_eq (setting old o) (setting cur o))) [
      | inl e ↦ rw e ((λ h. (said.0 (same.0 e), rest.0 h)), (λ (_, h). rest.1 h))
      | inr e ↦ rw e ((λ h. cc), (λ (h, _). cc (same.1 (said.1 h), e)))
    ]

-- The notes say nothing of the kernel's configuration exactly when both say the same of every option
-- there is: the value that is written, or that it is not set, which an option that is not written
-- and one that is written as `n` both are.
pub option_lines_iff :
    (old cur : Env)
    → (option_lines old cur (sorted_keys old cur) ≡ [])
      ↔ ((opt : Text) → IsSame (value_of old opt) (value_of cur opt))
option_lines_iff old cur =
    let (to, from) = option_lines_nil old cur (sorted_keys old cur) in
    let P : Text → Type 0 = λ o. IsSame (value_of old o) (value_of cur o) in
    (
      (λ h.
          every_text P old cur (λ k e f. inl (value_of-none k old e ∙ sym (value_of-none k cur f)))
            (to h)),
      (λ h. from (all_of_every P h (sorted_keys old cur))),
    )
