-- ===== src/Notes/Listed.antt =====
-- No commit is lost from the notes of hack/releasenotes/main.go.
use mathlib.Core.List.{Memᴰ}
use mathlib.Core.Path.{subst}
use spin_machine.Common.{
  ◌⊎◌, not, ◌&&◌, All, All-imp, arith, ◌≡◌, refl, sym, Text, lit, ◌<>◌, Bool, true, false, List, [],
  ◌∷◌, ◌++◌, Option, none, some, Result, ok, err, Bool-cases, inl, inr,
}
use spin_machine.Notes.{
  Commit, Part, parts, any, select, touches, only, commits, under, is_outside, outside, part_text,
  parts_text, nothing_text, outside_text, Notes, written_then, then_write, head, with_changes,
  write_commits, write,
}
use spin_machine.Notes.Config.{Git, VersionParser, write_versions, write_kernel_config}
use spin_machine.Notes.Patches.{write_patches}
use spin_machine.Notes.Touching.{
  HasTouched, IsPin, any_some, any_none, touches_iff, untouched, only_iff,
}
use spin_machine.Notes.Places.{
  lines_of, HoldsText, IsUnder, IsOutside, IsOther, IsListed, select-IsListing, HoldsText-append,
  HoldsText-behind, HoldsText-self, part_text-lines, outside_text-lines,
}

-- Each part has the commits that touch it.
parts-IsUnder :
    (ps : List Part) (cs : List Commit) (c : Commit)
    → Memᴰ c cs
    → All (λ p. (¬ HasTouched c p.paths) ⊎ IsUnder p cs c (parts_text ps cs)) ps
unfolding parts_text under
parts-IsUnder [] cs c m = tt
parts-IsUnder (p ∷ ps) cs c m = (first, All-imp later ps (parts-IsUnder ps cs c m))
  where
    heading : Part → List Commit → Text
    heading q l = lit "### " <> q.title <> lit "\n\n" <> lines_of l <> lit "\n"

    first :
        (¬ HasTouched c p.paths)
        ⊎ IsUnder p cs c (part_text p.title (under p cs) ++ parts_text ps cs)
    first = elim (Bool-cases (touches c p.paths)) [
      | inr e ↦ inl (untouched c p.paths e)
      | inl e ↦
          let listing =
            select-IsListing (λ x. touches x p.paths) (λ x. HasTouched x p.paths)
              (λ x h. (touches_iff x p.paths).0 h) cs c m e in
          inr (
            select (λ x. touches x p.paths) cs,
            listing,
            HoldsText-append _ _ _ (HoldsText-self _ _ (part_text-lines p.title c _ listing.0)),
          )
    ]

    later :
        (q : Part)
        → (¬ HasTouched c q.paths) ⊎ IsUnder q cs c (parts_text ps cs)
        → (¬ HasTouched c q.paths)
          ⊎ IsUnder q cs c (part_text p.title (under p cs) ++ parts_text ps cs)
    later q (inl e) = inl e
    later q (inr (l, listing, held)) = inr (l, listing, HoldsText-behind _ _ _ held)

-- What has been written stays.
HoldsText-then_write :
    (m : Text) (n : Notes) (more : Result Text Text)
    → HoldsText m n.text
    → HoldsText m (then_write n more).text
HoldsText-then_write m n more h = keep n.error more
  where
    keep :
        (e : Option Text) (more : Result Text Text) → HoldsText m (written_then n.text e more).text
    keep (some e) more = h
    keep none (ok s) = HoldsText-append m n.text s h
    keep none (err e) = h

HoldsText-changes :
    (m : Text) (git : Git) (parse : VersionParser) (from to : Text) (n : Notes)
    → HoldsText m n.text
    → HoldsText m (with_changes git parse from to n).text
HoldsText-changes m git parse from to n h =
    let v = write_versions git parse from to in
    let k = write_kernel_config git from to in
    HoldsText-then_write m (then_write (then_write n v) k) (write_patches git from to)
      (HoldsText-then_write m (then_write n v) k (HoldsText-then_write m n v h))

HoldsText-last :
    (m : Text) (n : Notes) (s : Text)
    → (then_write n (ok s)).error ≡ none
    → HoldsText m s
    → HoldsText m (then_write n (ok s)).text
HoldsText-last m n s e h = last n.error e
  where
    last :
        (e : Option Text)
        → (written_then n.text e (ok s)).error ≡ none
        → HoldsText m (written_then n.text e (ok s)).text
    last (some e) k = absurd (cc k)
    last none k = HoldsText-behind m n.text s h

-- What is outside of the parts for the code.
is_outside_lem : (x : Commit) → is_outside x ≡ true → IsOutside x × ¬ IsPin x
unfolding is_outside
is_outside_lem x h =
    let (a, o) =
      both (any (λ (p : Part). touches x p.paths) parts) (only x (lit "versions.yaml")) h in
    (
      All-imp (λ (p : Part) k. untouched x p.paths k) parts
          (any_none (λ (p : Part). touches x p.paths) parts a),
      λ pin. let k = (only_iff x).1 pin in cc,
    )
  where
    both : (a b : Bool) → (not a && not b) ≡ true → (a ≡ false) × (b ≡ false)
    both a b h = ground (arith, h)

module _ (git : Git) (parse : VersionParser) (from to : Text) (cs : List Commit) (c : Commit)
    (m : Memᴰ c cs) where
  abbrev all_text : Text
  all_text = (write_commits git parse from to (ok cs)).text

  -- What the parts say is in the notes.
  HoldsText-head : (t : Text) → HoldsText t (parts_text parts cs) → HoldsText t all_text
  HoldsText-head t h =
      HoldsText-then_write t (with_changes git parse from to (head from cs))
        (ok (outside_text (outside cs)))
        (HoldsText-changes t git parse from to (head from cs) (
          HoldsText-behind t (lit "## What changed since ") _ (
            HoldsText-behind t from _ (
              HoldsText-behind t (lit "\n\n") _
                (HoldsText-append t (parts_text parts cs) (nothing_text from cs) h)))))

  written-IsUnder : All (λ p. (¬ HasTouched c p.paths) ⊎ IsUnder p cs c all_text) parts
  written-IsUnder = All-imp widen parts (parts-IsUnder parts cs c m)
    where
      widen :
          (p : Part)
          → (¬ HasTouched c p.paths) ⊎ IsUnder p cs c (parts_text parts cs)
          → (¬ HasTouched c p.paths) ⊎ IsUnder p cs c all_text
      widen p (inl e) = inl e
      widen p (inr (l, listing, held)) = inr (l, listing, HoldsText-head _ held)

  written-IsOther :
      (write_commits git parse from to (ok cs)).error ≡ none
      → ((p : Part) × Memᴰ p parts × HasTouched c p.paths) ⊎ IsPin c ⊎ IsOther cs c all_text
  unfolding outside is_outside
  written-IsOther e = elim (Bool-cases (any (λ (p : Part). touches c p.paths) parts)) [
    | inl f ↦
        let (p, m, k) = any_some (λ (p : Part). touches c p.paths) parts f in
        inl (p, m, (touches_iff c p.paths).0 k)
    | inr f ↦ elim (Bool-cases (only c (lit "versions.yaml"))) [
      | inl o ↦ inr (inl ((only_iff c).0 o))
      | inr o ↦
          let listing =
            select-IsListing is_outside (λ x. IsOutside x × ¬ IsPin x) is_outside_lem cs c m
              (rw (is_outside, f, o) refl) in
          inr (
            inr (
              outside cs,
              listing,
              HoldsText-last _ (with_changes git parse from to (head from cs))
                  (outside_text (outside cs)) e
                  (HoldsText-self _ _ (outside_text-lines c (outside cs) listing.0)),
            ))
    ]
  ]

-- Notes that are written to the end have a line for every commit of the range: under the heading of
-- each part whose paths it changed a file of, where every line is of such a commit; and among the
-- others, where no line is of a commit of a part or of versions.yaml alone, unless it is of a part or
-- changed versions.yaml alone.
pub write-lists :
    (git : Git) (parse : VersionParser) (from to : Text) (cs : List Commit) (c : Commit)
    → commits git from to ≡ ok cs
    → (write git parse from to).error ≡ none
    → Memᴰ c cs
    → IsListed cs c (write git parse from to).text
unfolding write
write-lists git parse from to cs c e h m =
    subst
      (λ r.
        (write_commits git parse from to r).error ≡ none
        → IsListed cs c (write_commits git parse from to r).text)
      (sym e)
      (λ k. (written-IsUnder git parse from to cs c m, written-IsOther git parse from to cs c m k))
      h
