-- ===== src/Machine/Options.antt =====
-- `qemuOpt` of machine/machine.go, and QEMU's reading of an option string: a comma ends an
-- option, a doubled comma is a comma in its value.
use spin_machine.Common.{
  ℕ, Text, lit, ◌≡◌, refl, sym, ap, List, [], ◌∷◌, ◌++◌, ◌==◌, ◌≢◌, append_assoc, append-nil, Bool,
  true, false, Bool-cases, inl, inr, Lacks, ◌∙◌, ne→==-false, ==_iff,
}
use spin_machine.Common.Split.{replace_all}

abbrev pub comma : ℕ
comma = b','

-- `qemuOpt`.
unfoldable pub qemu_opt : Text → Text
unfolding replace_all lit
qemu_opt v = replace_all v comma (lit ",,")

-- The flag is set behind a comma that may yet be doubled.
scan : Text → Text → Bool → List Text
scan [] cur false = cur ∷ []
scan [] cur true = cur ∷ [] ∷ []
scan (c ∷ s) cur true = elim (c == comma) [
  | true ↦ scan s (cur ++ comma ∷ []) false
  | false ↦ cur ∷ scan s (c ∷ []) false
]
scan (c ∷ s) cur false = elim (c == comma) [
  | true ↦ scan s cur true
  | false ↦ scan s (cur ++ c ∷ []) false
]

-- The options of an option string, in order.
unfoldable pub options : Text → List Text
unfolding scan
options s = scan s [] false

-- The options of `s`, where `cur` of the first one has been read.
unfoldable pub options_from : Text → Text → List Text
unfolding scan
options_from cur s = scan s cur false

pub options_from-nil : (cur : Text) → options_from cur [] ≡ cur ∷ []
unfolding options_from
options_from-nil cur = refl

-- Text with no comma in it is read as it is.
pub options_from-Lacks :
    (cur t rest : Text)
    → Lacks comma t
    → options_from cur (t ++ rest) ≡ options_from (cur ++ t) rest
unfolding options_from
options_from-Lacks cur [] rest h = rw append-nil
options_from-Lacks cur (c ∷ t) rest (h, hs) =
    rw (ne→==-false c comma h, scan)
      (options_from-Lacks (cur ++ c ∷ []) t rest hs ∙ rw append_assoc)

-- An escaped value is read as the value, commas included.
pub options_from-qemu_opt :
    (cur v rest : Text) → options_from cur (qemu_opt v ++ rest) ≡ options_from (cur ++ v) rest
unfolding options_from qemu_opt
options_from-qemu_opt cur [] rest = rw append-nil
options_from-qemu_opt cur (c ∷ v) rest = elim (Bool-cases (c == comma)) [
  | inl e ↦
      rw (e, ◌++◌)
        (options_from-qemu_opt (cur ++ comma ∷ []) v rest ∙ rw (append_assoc, (==_iff c comma).0 e))
  | inr e ↦ rw (e, ◌++◌, e, scan) (options_from-qemu_opt (cur ++ c ∷ []) v rest ∙ rw append_assoc)
]

-- A comma that is not doubled ends the option.
pub options_from-comma :
    (cur : Text) (c : ℕ) (s : Text)
    → c ≢ comma
    → options_from cur (comma ∷ c ∷ s) ≡ cur ∷ options_from (c ∷ []) s
unfolding options_from
options_from-comma cur c s h = rw (ne→==-false c comma h, scan)

pub options_lem : (s : Text) → options s ≡ options_from [] s
unfolding options options_from
options_lem s = refl

pub options_from_last : (cur t : Text) → Lacks comma t → options_from cur t ≡ (cur ++ t) ∷ []
options_from_last cur t h =
    ap (options_from cur) (sym (append-nil t))
    ∙ options_from-Lacks cur t [] h
    ∙ options_from-nil (cur ++ t)

pub options_from-qemu_opt_last : (cur v : Text) → options_from cur (qemu_opt v) ≡ (cur ++ v) ∷ []
options_from-qemu_opt_last cur v =
    ap (options_from cur) (sym (append-nil (qemu_opt v)))
    ∙ options_from-qemu_opt cur v []
    ∙ options_from-nil (cur ++ v)
