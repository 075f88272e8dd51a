-- ===== src/Cmdline/Reading.antt =====
-- The words that a valid command line of machine/cmdline.go is read as.
use mathlib.Core.List.{flat_map}
use spin_machine.Common.Int.{ℤ}
use spin_machine.Common.{
  Text, lit, ◌<>◌, ◌≡◌, refl, List, [], ◌∷◌, arith, Bool, true, false, not, All, All-append,
  All-imp, Lacks, is_empty, if◌then◌else◌, ◌∙◌,
}
use spin_machine.Common.Numeral.{IsPlain, itoa, itoa-IsPlain}
use spin_machine.Cmdline.{Cmdline, is_space, has_space, fields, render, parts, fixed_parts, when}
use spin_machine.Cmdline.Words.{
  IsWord, fields-IsSolid, has_space-IsSolid, fields-join, flat_map-fields_words, flat_map-append,
}
use spin_machine.Cmdline.Valid.{IsParameter, IsValid, IsParameter-IsSolid}

named-IsWord :
    (key v : Text)
    → is_empty key ≡ false
    → has_space key ≡ false
    → IsParameter v
    → IsWord (key <> v)
named-IsWord [] v h _ _ = cc
named-IsWord (k ∷ key) v _ h p =
    fields-IsSolid k (key <> v)
      (All-append _ (k ∷ key) v (has_space-IsSolid (k ∷ key) h) (IsParameter-IsSolid v p))

IsPlain-unspaced : (s : Text) → All IsPlain s → has_space s ≡ false
unfolding has_space is_space
IsPlain-unspaced [] h = refl
IsPlain-unspaced (c ∷ s) (h, hs) = ground (arith, IsPlain-unspaced s hs)

IsPlain-unquoted : (s : Text) → All IsPlain s → Lacks b'"' s
IsPlain-unquoted s h = All-imp (λ c p. omega arith) s h

itoa-IsParameter : (a : ℤ) → IsParameter (itoa a)
itoa-IsParameter a = record {
  unspaced = IsPlain-unspaced _ (itoa-IsPlain a);
  unquoted = IsPlain-unquoted _ (itoa-IsPlain a);
}

flat_map-when :
    (b : Bool) (ws : List Text) → All IsWord ws → flat_map fields (when b ws) ≡ when b ws
unfolding flat_map
flat_map-when true ws h = flat_map-fields_words ws h
flat_map-when false ws h = refl

flat_map-fields_fixed : flat_map fields fixed_parts ≡ fixed_parts
unfolding flat_map fields fixed_parts lit
flat_map-fields_fixed = refl

module _ (c : Cmdline) (v : IsValid c) where
  console_words : All IsWord ((lit "console=" <> c.console) ∷ [])
  unfolding lit has_space is_space
  console_words = (named-IsWord (lit "console=") c.console refl refl v.console, tt)

  quiet_words : All IsWord (lit "quiet" ∷ [])
  unfolding lit fields
  quiet_words = (refl, tt)

  level_words : All IsWord ((lit "loglevel=" <> itoa c.log_level) ∷ [])
  unfolding lit has_space is_space
  level_words = (named-IsWord (lit "loglevel=") _ refl refl (itoa-IsParameter c.log_level), tt)

  mode-IsWord : (b : Bool) → IsWord (if b then lit "ro" else lit "rw")
  unfolding lit fields
  mode-IsWord true = refl
  mode-IsWord false = refl

  root_words :
      All IsWord ((lit "root=" <> c.root) ∷ (if c.root_readonly then lit "ro" else lit "rw") ∷ [])
  unfolding lit has_space is_space
  root_words =
      (named-IsWord (lit "root=") c.root refl refl v.root, (mode-IsWord c.root_readonly, tt))

  init_words : All IsWord ((lit "init=" <> c.init) ∷ [])
  unfolding lit has_space is_space
  init_words = (named-IsWord (lit "init=") c.init refl refl v.init, tt)

  pub fields-render : fields (render c) ≡ parts (record c { extra = flat_map fields c.extra })
  unfolding render parts
  fields-render =
      fields-join (parts c)
      ∙ simp (
        flat_map-append,
        flat_map-when (not (is_empty c.console)) ((lit "console=" <> c.console) ∷ []) console_words,
        flat_map-when c.quiet (lit "quiet" ∷ []) quiet_words,
        flat_map-fields_words ((lit "loglevel=" <> itoa c.log_level) ∷ []) level_words,
        flat_map-when (not (is_empty c.root))
            ((lit "root=" <> c.root) ∷ (if c.root_readonly then lit "ro" else lit "rw") ∷ [])
            root_words,
        flat_map-fields_fixed,
        flat_map-when (not (is_empty c.init)) ((lit "init=" <> c.init) ∷ []) init_words,
      )
