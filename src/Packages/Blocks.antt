-- ===== src/Packages/Blocks.antt =====
-- `strings.Split(db, "\n\n")` of hack/apklock/main.go.
use spin_machine.Common.{
  ℕ, ◌≡◌, ◌≢◌, refl, ap, ◌∙◌, Text, lit, ◌&&◌, ◌==◌, List, [], ◌∷◌, ◌++◌, append_assoc, append-nil,
  Lacks, ne→==-false, join, map, All, if◌then◌else◌,
}
use spin_machine.Common.Split.{
  split, split_from, split_from-Lacks, split_from_last, split_from-step,
}

-- The pieces of a text, where `cur` of the first one has been read.
unfoldable pub blocks_from : Text → Text → List Text
blocks_from cur [] = cur ∷ []
blocks_from cur (c ∷ []) = (cur ++ c ∷ []) ∷ []
blocks_from cur (c ∷ d ∷ s) =
    let cut = blocks_from [] s in
    let on = blocks_from (cur ++ c ∷ []) (d ∷ s) in
    if c == b'\n' && d == b'\n' then cur ∷ cut else on

unfoldable pub blocks : Text → List Text
unfolding blocks_from
blocks db = blocks_from [] db

-- A byte that is no line feed stays in its piece.
blocks_from-byte :
    (cur : Text) (c : ℕ) (s : Text)
    → c ≢ b'\n'
    → blocks_from cur (c ∷ s) ≡ blocks_from (cur ++ c ∷ []) s
unfolding blocks_from
blocks_from-byte cur c [] h = refl
blocks_from-byte cur c (d ∷ s) h = rw (ne→==-false c b'\n' h) refl

-- A line stays in its piece, whatever follows it.
blocks_from-Lacks :
    (cur line rest : Text)
    → Lacks b'\n' line
    → blocks_from cur (line ++ rest) ≡ blocks_from (cur ++ line) rest
blocks_from-Lacks cur [] rest h = rw append-nil
blocks_from-Lacks cur (c ∷ line) rest (h, hs) =
    blocks_from-byte cur c (line ++ rest) h
    ∙ blocks_from-Lacks (cur ++ c ∷ []) line rest hs
    ∙ ap (λ t. blocks_from t rest) (append_assoc cur (c ∷ []) line)

-- A line of an entry: not empty, and without a line feed.
abbrev pub IsLine : Text → Type 0
IsLine [] = ⊥
IsLine (c ∷ s) = Lacks b'\n' (c ∷ s)

IsLine-Lacks : (line : Text) → IsLine line → Lacks b'\n' line
IsLine-Lacks [] h = tt
IsLine-Lacks (c ∷ s) h = h

-- A line feed before another byte stays in its piece too.
blocks_from-feed :
    (cur : Text) (c : ℕ) (s : Text)
    → c ≢ b'\n'
    → blocks_from cur (b'\n' ∷ c ∷ s) ≡ blocks_from (cur ++ b'\n' ∷ []) (c ∷ s)
unfolding blocks_from
blocks_from-feed cur c s h = rw (ne→==-false c b'\n' h) refl

-- Two line feeds end a piece.
blocks_from-end :
    (cur rest : Text) → blocks_from cur (b'\n' ∷ b'\n' ∷ rest) ≡ cur ∷ blocks_from [] rest
unfolding blocks_from
blocks_from-end cur rest = refl

-- The lines of an entry, and a database of entries, each with an empty line behind it.
unfoldable pub entry : List Text → Text
unfolding join
entry lines = join (lit "\n") lines

unfoldable pub written : List (List Text) → Text
unfolding entry
written [] = []
written (e ∷ es) = entry e ++ (lit "\n\n" ++ written es)

-- An entry starts with the first byte of its first line.
entry-cons :
    (c : ℕ) (line : Text) (lines : List Text) → (t : Text) × (entry ((c ∷ line) ∷ lines) ≡ c ∷ t)
unfolding entry
entry-cons c line [] = (line, refl)
entry-cons c line (next ∷ lines) = (line ++ (lit "\n" ++ entry (next ∷ lines)), refl)

blocks_from-next :
    (cur line : Text) (lines : List Text) (rest : Text)
    → IsLine line
    → blocks_from cur (b'\n' ∷ entry (line ∷ lines) ++ rest)
      ≡ blocks_from (cur ++ b'\n' ∷ []) (entry (line ∷ lines) ++ rest)
blocks_from-next cur [] lines rest h = absurd h
blocks_from-next cur (c ∷ line) lines rest (h, hs) =
    let (t, e) = entry-cons c line lines in rw e (blocks_from-feed cur c (t ++ rest) h)

blocks_from-entry :
    (cur line : Text) (lines : List Text) (rest : Text)
    → IsLine line
    → All IsLine lines
    → blocks_from cur (entry (line ∷ lines) ++ (b'\n' ∷ b'\n' ∷ rest))
      ≡ (cur ++ entry (line ∷ lines)) ∷ blocks_from [] rest
unfolding entry lit
blocks_from-entry cur line [] rest h hs =
    blocks_from-Lacks cur line _ (IsLine-Lacks line h) ∙ blocks_from-end (cur ++ line) rest
blocks_from-entry cur line (next ∷ lines) rest h (k, ks) =
    let more = entry (next ∷ lines) in
    let feeds = b'\n' ∷ b'\n' ∷ rest in
    ap (blocks_from cur) (append_assoc line (b'\n' ∷ more) feeds)
    ∙ blocks_from-Lacks cur line (b'\n' ∷ more ++ feeds) (IsLine-Lacks line h)
    ∙ blocks_from-next (cur ++ line) next lines feeds k
    ∙ blocks_from-entry ((cur ++ line) ++ b'\n' ∷ []) next lines rest k ks
    ∙ ap (λ t. t ∷ blocks_from [] rest)
        (append_assoc (cur ++ line) (b'\n' ∷ []) more ∙ append_assoc cur line (b'\n' ∷ more))

-- Entries that have lines.
abbrev pub IsEntry : List Text → Type 0
IsEntry [] = ⊥
IsEntry (line ∷ lines) = IsLine line × All IsLine lines

-- The blocks of a database are its entries, and the empty block behind the last of them.
pub blocks-written :
    (es : List (List Text)) → All IsEntry es → blocks (written es) ≡ map entry es ++ ([] ∷ [])
unfolding blocks written lit
blocks-written [] _ = refl
blocks-written ([] ∷ es) (h, _) = absurd h
blocks-written ((line ∷ lines) ∷ es) ((h, hs), rest) =
    blocks_from-entry [] line lines (written es) h hs
    ∙ ap (λ bs. entry (line ∷ lines) ∷ bs) (blocks-written es rest)

-- The lines of an entry are read back.
split_from-entry :
    (line : Text) (lines : List Text)
    → IsLine line
    → All IsLine lines
    → split_from b'\n' [] (entry (line ∷ lines)) ≡ line ∷ lines
unfolding entry lit
split_from-entry line [] h hs = split_from_last b'\n' [] line (IsLine-Lacks line h)
split_from-entry line (next ∷ lines) h (k, ks) =
    split_from-Lacks b'\n' [] line _ (IsLine-Lacks line h)
    ∙ split_from-step b'\n' line (entry (next ∷ lines))
    ∙ ap (λ ls. line ∷ ls) (split_from-entry next lines k ks)

pub split-entry : (lines : List Text) → IsEntry lines → split (entry lines) b'\n' ≡ lines
unfolding split split_from
split-entry [] h = absurd h
split-entry (line ∷ lines) (h, hs) = split_from-entry line lines h hs
