-- ===== src/Cmdline/Separator.antt =====
-- The words of a valid command line of machine/cmdline.go, cut at white space, hold no `--`.
use mathlib.Core.List.{flat_map}
use spin_machine.Common.{
  Text, lit, ◌<>◌, ◌≡◌, refl, List, [], ◌∷◌, ◌++◌, Bool, true, false, All, contains,
  contains-append, if◌then◌else◌,
}
use spin_machine.Common.Numeral.{itoa}
use spin_machine.Cmdline.{Cmdline, fields, render, parts, fixed_parts, when}
use spin_machine.Cmdline.Valid.{IsValid}
use spin_machine.Cmdline.Reading.{fields-render}

-- The words that hold no separator.
abbrev IsKept : List Text → Type 0
IsKept ws = contains ws (lit "--") ≡ false

append-IsKept : (xs ys : List Text) → IsKept xs → IsKept ys → IsKept (xs ++ ys)
append-IsKept xs ys h k = rw (contains-append, h, k)

when-IsKept : (b : Bool) (ws : List Text) → IsKept ws → IsKept (when b ws)
unfolding contains
when-IsKept true ws h = h
when-IsKept false ws h = refl

flat_map-IsKept : (es : List Text) → All (λ e. IsKept (fields e)) es → IsKept (flat_map fields es)
unfolding flat_map
flat_map-IsKept [] h = unfold contains in refl
flat_map-IsKept (e ∷ es) (h, hs) = append-IsKept (fields e) _ h (flat_map-IsKept es hs)

module _ (v : Text) where
  console-IsKept : IsKept ((lit "console=" <> v) ∷ [])
  unfolding contains lit
  console-IsKept = refl

  init-IsKept : IsKept ((lit "init=" <> v) ∷ [])
  unfolding contains lit
  init-IsKept = refl

  level-IsKept : IsKept ((lit "loglevel=" <> v) ∷ [])
  unfolding contains lit
  level-IsKept = refl

  root-IsKept : (b : Bool) → IsKept ((lit "root=" <> v) ∷ (if b then lit "ro" else lit "rw") ∷ [])
  unfolding contains lit
  root-IsKept true = refl
  root-IsKept false = refl

fixed-IsKept : IsKept (lit "quiet" ∷ []) × IsKept fixed_parts
unfolding contains lit fixed_parts
fixed-IsKept = (refl, refl)

parts-IsKept : (c : Cmdline) → IsKept c.extra → IsKept (parts c)
unfolding parts
parts-IsKept c extra = append-IsKept _ _ (when-IsKept _ _ (console-IsKept c.console)) (
    append-IsKept _ _ (when-IsKept c.quiet _ fixed-IsKept.0) (
      append-IsKept _ _ (level-IsKept (itoa c.log_level)) (
        append-IsKept _ _ (when-IsKept _ _ (root-IsKept c.root c.root_readonly)) (
          append-IsKept _ _ fixed-IsKept.1
            (append-IsKept c.extra _ extra (when-IsKept _ _ (init-IsKept c.init)))))))

-- A valid line holds no `--` among its words, where a word is what stands between white space and
-- quotes are not read.
pub contains-fields_separator :
    (c : Cmdline) → IsValid c → contains (fields (render c)) (lit "--") ≡ false
contains-fields_separator c v =
    rw (fields-render c v) (parts-IsKept _ (flat_map-IsKept c.extra v.extra))
