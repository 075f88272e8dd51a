-- ===== src/Notes/Places.antt =====
-- The places of a commit in the notes of hack/releasenotes/main.go.
use mathlib.Core.List.{Memᴰ}
use spin_machine.Common.{
  ◌⊎◌, All, All-imp, append-nil, ◌≡◌, refl, ap, sym, ◌∙◌, Text, lit, ◌<>◌, Bool, true, List, [],
  ◌∷◌, ◌++◌, Bool-cases, inl, inr, append_assoc, length,
}
use spin_machine.Common.Numeral.{decimal}
use spin_machine.Notes.{Commit, Part, parts, select, subjects, part_text, outside_text}
use spin_machine.Notes.Touching.{HasTouched, IsPin}

-- The line of a commit.
abbrev pub line_of : Commit → Text
line_of c = lit "- " <> c.subject <> lit "\n"

abbrev pub lines_of : List Commit → Text
lines_of [] = []
lines_of (c ∷ cs) = line_of c ++ lines_of cs

subjects-lines_of : (cs : List Commit) → subjects cs ≡ lines_of cs
unfolding subjects
subjects-lines_of [] = refl
subjects-lines_of (c ∷ cs) =
    ap (λ t. lit "- " ++ (c.subject ++ (lit "\n" ++ t))) (subjects-lines_of cs) ∙ simp append_assoc

-- A text with a passage in it.
abbrev pub HoldsText : Text → Text → Type 0
HoldsText m t = (before : Text) × (behind : Text) × (t ≡ before ++ (m ++ behind))

-- A list of commits of the range that has the commit, and of which each is as asked.
abbrev pub IsListing : (Commit → Type 0) → List Commit → Commit → List Commit → Type 0
IsListing P cs c listed = Memᴰ c listed × All (λ x. Memᴰ x cs) listed × All P listed

-- The commit is under the heading of a part, where only commits stand that touch the part.
abbrev pub IsUnder : Part → List Commit → Commit → Text → Type 0
IsUnder p cs c t =
    (listed : List Commit) × IsListing (λ x. HasTouched x p.paths) cs c listed
    × HoldsText (lit "### " <> p.title <> lit "\n\n" <> lines_of listed <> lit "\n") t

-- A commit that touches no part.
abbrev pub IsOutside : Commit → Type 0
IsOutside c = All (λ (p : Part). ¬ HasTouched c p.paths) parts

-- The commit is among the others, of which none touches a part or is of the pins alone.
abbrev pub IsOther : List Commit → Commit → Text → Type 0
IsOther cs c t =
    (listed : List Commit) × IsListing (λ x. IsOutside x × ¬ IsPin x) cs c listed
    × HoldsText
        (lit "<details><summary>"
          <> decimal (length listed)
          <> lit " more, none of them in the machine: tests, the lab, CI, tooling</summary>\n\n"
          <> lines_of listed
          <> lit "\n</details>\n\n")
        t

-- Where the notes have a commit: under each part that it touches, and, where it touches none and is
-- not of the pins alone, among the others.
abbrev pub IsListed : List Commit → Commit → Text → Type 0
IsListed cs c t =
    All (λ p. (¬ HasTouched c p.paths) ⊎ IsUnder p cs c t) parts
    × (((p : Part) × Memᴰ p parts × HasTouched c p.paths) ⊎ IsPin c ⊎ IsOther cs c t)

Memᴰ-select :
    (p : Commit → Bool) (c : Commit) (cs : List Commit)
    → Memᴰ c cs
    → p c ≡ true
    → Memᴰ c (select p cs)
Memᴰ-select p c [] m h = elim m [ ]
Memᴰ-select p c (x ∷ cs) (Memᴰ.head e) h = rw (ap p (sym e) ∙ h) (Memᴰ.head e)
Memᴰ-select p c (x ∷ cs) (Memᴰ.tail m) h = elim (Bool-cases (p x)) [
  | inl k ↦ rw k (Memᴰ.tail (Memᴰ-select p c cs m h))
  | inr k ↦ rw k (Memᴰ-select p c cs m h)
]

select-All :
    (P : Commit → Type 0) (p : Commit → Bool) (cs : List Commit) → All P cs → All P (select p cs)
select-All P p [] h = tt
select-All P p (x ∷ cs) (q, h) = elim (Bool-cases (p x)) [
  | inl k ↦ rw k (q, select-All P p cs h)
  | inr k ↦ rw k (select-All P p cs h)
]

select-holds : (p : Commit → Bool) (cs : List Commit) → All (λ x. p x ≡ true) (select p cs)
select-holds p [] = tt
select-holds p (x ∷ cs) = elim (Bool-cases (p x)) [
  | inl k ↦ rw k (k, select-holds p cs)
  | inr k ↦ rw k (select-holds p cs)
]

each_listed : (cs : List Commit) → All (λ x. Memᴰ x cs) cs
each_listed [] = tt
each_listed (c ∷ cs) = (Memᴰ.head refl, All-imp (λ x m. Memᴰ.tail m) cs (each_listed cs))

pub select-IsListing :
    (p : Commit → Bool) (P : Commit → Type 0)
    → ((x : Commit) → p x ≡ true → P x)
    → (cs : List Commit) (c : Commit) → Memᴰ c cs
    → p c ≡ true
    → IsListing P cs c (select p cs)
select-IsListing p P f cs c m h = (
  Memᴰ-select p c cs m h,
  select-All (λ x. Memᴰ x cs) p cs (each_listed cs),
  All-imp f (select p cs) (select-holds p cs),
)

pub HoldsText-append : (m s t : Text) → HoldsText m s → HoldsText m (s ++ t)
HoldsText-append m s t (a, b, e) = (a, b ++ t, ap (λ x. x ++ t) e ∙ simp append_assoc)

pub HoldsText-behind : (m x s : Text) → HoldsText m s → HoldsText m (x ++ s)
HoldsText-behind m x s (a, b, e) = (x ++ a, b, ap (λ y. x ++ y) e ∙ simp append_assoc)

pub HoldsText-self : (m s : Text) → s ≡ m → HoldsText m s
HoldsText-self m s e = ([], [], e ∙ sym (append-nil m))

pub part_text-lines :
    (title : Text) (c : Commit) (cs : List Commit)
    → Memᴰ c cs
    → part_text title cs ≡ (lit "### " <> title <> lit "\n\n" <> lines_of cs <> lit "\n")
part_text-lines title c [] m = elim m [ ]
part_text-lines title c (x ∷ cs) m =
    ap (λ t. lit "### " <> title <> lit "\n\n" <> t <> lit "\n") (subjects-lines_of (x ∷ cs))

pub outside_text-lines :
    (c : Commit) (cs : List Commit)
    → Memᴰ c cs
    → outside_text cs ≡ (
        lit "<details><summary>"
        <> decimal (length cs)
        <> lit " more, none of them in the machine: tests, the lab, CI, tooling</summary>\n\n"
        <> lines_of cs
        <> lit "\n</details>\n\n")
outside_text-lines c [] m = elim m [ ]
outside_text-lines c (x ∷ cs) m =
    ap
      (λ t.
        lit "<details><summary>"
        <> decimal (length (x ∷ cs))
        <> lit " more, none of them in the machine: tests, the lab, CI, tooling</summary>\n\n"
        <> t
        <> lit "\n</details>\n\n")
      (subjects-lines_of (x ∷ cs))
