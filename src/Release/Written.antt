-- ===== src/Release/Written.antt =====
-- What `readEnv` of machine/release.go reads of a manifest that was written one entry to a line.
use mathlib.Core.Path.{subst}
use mathlib.Core.List.{reverse, reverse-reverse, reverse_aux}
use spin_machine.Common.{
  ℕ, suc, Text, lit, ◌<>◌, ◌≡◌, refl, true, false, ◌==◌, leb, List, [], ◌∷◌, length, none, ok,
  is_empty, has_byte, ◌++◌, Lacks, ◌<◌, arith, map, ap, All, Bool-cases, inl, inr, ==_iff, ◌∙◌,
  ne→==-false,
}
use spin_machine.Common.Split.{
  split, cut_before, split_from, split_from-Lacks, split_from_last, split_from-step,
}
use spin_machine.Release.Manifest.{
  Env, behind_return, opened, read_line, read_lines, read_env, cut_after, starts_with, max_token,
  drop_return, scanned,
}
use spin_machine.Release.Trim.{before, before-return, IsTrimmed, trim_space-IsTrimmed}

-- `version=1.0`, as a line of the file.
unfoldable pub line_of : Text × Text → Text
line_of (k, v) = k <> lit "=" <> v

-- A manifest of these entries.
unfoldable pub written : List (Text × Text) → Text
written [] = []
written (e ∷ es) = line_of e <> lit "\n" <> written es

-- An entry that a line can hold: nothing in it that ends the line or the key early, no space at an
-- end of either, no comment, and not too long.
pub record IsEntry (e : Text × Text) : Type 0 where
  pub whole : Lacks b'\n' (line_of e)
  pub plain_key : Lacks b'=' e.0
  pub trimmed_key : IsTrimmed e.0
  pub trimmed_value : IsTrimmed e.1
  pub trimmed : IsTrimmed (line_of e)
  pub named : is_empty e.0 ≡ false
  pub no_comment : starts_with e.0 b'#' ≡ false
  pub short : length (line_of e) < max_token

cut_before-Lacks : (sep : ℕ) (s t : Text) → Lacks sep s → cut_before (s ++ sep ∷ t) sep ≡ s
unfolding cut_before
cut_before-Lacks sep [] t _ = ground arith
cut_before-Lacks sep (c ∷ s) t (h, hs) = rw (ne→==-false c sep h, cut_before-Lacks sep s t hs)

cut_after-Lacks : (sep : ℕ) (s t : Text) → Lacks sep s → cut_after (s ++ sep ∷ t) sep ≡ t
unfolding cut_after
cut_after-Lacks sep [] t _ = ground arith
cut_after-Lacks sep (c ∷ s) t (h, hs) = rw (ne→==-false c sep h, cut_after-Lacks sep s t hs)

has_byte-append : (b : ℕ) (s t : Text) → has_byte b (s ++ b ∷ t) ≡ true
unfolding has_byte
has_byte-append b [] t = ground arith
has_byte-append b (c ∷ s) t = ground (arith, has_byte-append b s t)

-- The line of an entry adds the entry.
read_line-entry :
    (env : Env) (n : ℕ) (e : Text × Text) → IsEntry e → read_line env n (line_of e) ≡ ok (e ∷ env)
unfolding read_line line_of lit
read_line-entry env n ([], v) h = cc (h.named)
read_line-entry env n (c ∷ k, v) h = rw (
  h.no_comment,
  has_byte-append b'=' (c ∷ k) v,
  cut_before-Lacks b'=' (c ∷ k) v h.plain_key,
  cut_after-Lacks b'=' (c ∷ k) v h.plain_key,
  trim_space-IsTrimmed (c ∷ k) h.trimmed_key,
  trim_space-IsTrimmed v h.trimmed_value,
)

behind_return-none : (r : Text) → before r ≡ none → behind_return r ≡ r
unfolding behind_return
behind_return-none [] h = refl
behind_return-none (c ∷ r) h = elim (Bool-cases (c == 13)) [
  | inl e ↦ absurd (before-return r (subst (λ c. before (c ∷ r) ≡ none) ((==_iff c 13).0 e) h))
  | inr e ↦ rw e
]

drop_return-IsTrimmed : (s : Text) → before (reverse s) ≡ none → drop_return s ≡ s
unfolding drop_return
drop_return-IsTrimmed s h = rw (behind_return-none (reverse s) h, reverse-reverse)

split-written :
    (es : List (Text × Text))
    → All IsEntry es
    → split_from b'\n' [] (written es) ≡ map line_of es ++ ([] ∷ [])
unfolding written lit
split-written [] _ = split_from_last b'\n' [] [] tt
split-written (e ∷ es) (h, hs) =
    split_from-Lacks b'\n' [] (line_of e) _ h.whole
    ∙ split_from-step b'\n' (line_of e) (written es)
    ∙ ap (λ ls. line_of e ∷ ls) (split-written es hs)

scanned-lines : (ls : List Text) → scanned (ls ++ ([] ∷ [])) ≡ ls
unfolding scanned
scanned-lines [] = refl
scanned-lines (l ∷ []) = refl
scanned-lines (l ∷ l' ∷ ls) = ap (λ s. l ∷ s) (scanned-lines (l' ∷ ls))

max_token-short : (n : ℕ) → n < max_token → leb max_token n ≡ false
max_token-short n h = ground arith

read_lines-entries :
    (env : Env) (n : ℕ) (es : List (Text × Text))
    → All IsEntry es
    → read_lines env n none (map line_of es) ≡ ok (reverse_aux es env)
unfolding read_lines
read_lines-entries env n [] _ = refl
read_lines-entries env n (e ∷ es) (h, hs) = rw (
  read_lines,
  max_token-short (length (line_of e)) h.short,
  drop_return-IsTrimmed (line_of e) h.trimmed.1,
  trim_space-IsTrimmed (line_of e) h.trimmed,
  read_line-entry env n e h,
  read_lines-entries (e ∷ env) (suc n) es hs,
)

-- A manifest of entries that a line can hold, written one to a line, is read as those entries, the
-- newest first: for a key that is given twice the later value counts.
pub read_env-written :
    (es : List (Text × Text))
    → All IsEntry es
    → read_env (opened (written es) none) ≡ ok (reverse es)
unfolding read_env split split_from
read_env-written es h = rw (split-written es h, scanned-lines) (read_lines-entries [] 1 es h)
