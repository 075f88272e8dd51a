-- ===== src/Issues/Listing.antt =====
-- The body of an issue lists its findings (hack/osvissues/main.go): what `body` writes, `ids` reads.
use mathlib.Core.Path.{subst}
use spin_machine.Issues.Settled.{contains-All, keep-nothing}
use spin_machine.Common.{
  map, All-imp, All-map, ℕ, zero, suc, Text, lit, ◌<>◌, ◌≡◌, ◌≢◌, refl, sym, ap, ◌∙◌, ◌⊎◌, inl, inr,
  Bool, true, false, not, ◌==◌, ne→==-false, List, [], ◌∷◌, ◌++◌, none, some, Lacks, has_byte,
  has_byte-Lacks, All, is_empty, contains, text_eq_iff, contains-append, length, arith,
  append_assoc, append-nil, if◌then◌else◌,
}
use spin_machine.Issues.Findings.{Finding}
use spin_machine.Issues.{Issue, ids, is_open, keep, body, body_head, body_line, body_lines}
use spin_machine.Issues.Links.{
  cut_prefix, stops, link, starts_group, Search, seeking, passing, taking, taken, begin, resume,
  search_from, listed,
}

-- Where a search may be before a text: what it passes over is the rest of a match.
abbrev pub Ready : Search → Text → Type 0
Ready seeking s = Unit
Ready (taking t) s = Unit
Ready (passing n) s =
    (l : Text) × (length l ≡ n) × Lacks b'\n' l × (starts_group (cut_prefix l s) ≡ true)

-- A prefix that goes on is a prefix of what is left.
cut_prefix-step :
    (p c : ℕ) (l s : Text)
    → starts_group (cut_prefix (p ∷ l) (c ∷ s)) ≡ true
    → starts_group (cut_prefix l s) ≡ true
unfolding cut_prefix
cut_prefix-step p c l s h = stepped (p == c) h
  where
    stepped :
        (b : Bool)
        → starts_group (if b then cut_prefix l s else none) ≡ true
        → starts_group (cut_prefix l s) ≡ true
    stepped true h = h
    stepped false h = cc

-- No match goes over a line feed.
cut_prefix-line :
    (l rest : Text) → Lacks b'\n' l → starts_group (cut_prefix l (b'\n' ∷ rest)) ≡ false
unfolding cut_prefix
cut_prefix-line [] rest h = refl
cut_prefix-line (p ∷ l) rest (h, hs) = rw (ne→==-false p b'\n' h) refl

-- What of a link is passed over.
abbrev passed : Text
passed = lit "sv.dev/vulnerability/"

begin-Ready : (c : ℕ) (s : Text) → Ready (begin (starts_group (cut_prefix link (c ∷ s)))) s
unfolding link lit has_byte
begin-Ready c s = ready (starts_group (cut_prefix link (c ∷ s))) refl
  where
    ready : (b : Bool) → starts_group (cut_prefix link (c ∷ s)) ≡ b → Ready (begin b) s
    ready false e = tt
    ready true e =
        (passed, refl, (has_byte-Lacks b'\n' passed).0 refl, cut_prefix-step b'o' c passed s e)

resume-Ready : (b : Bool) (t : Text) (c : ℕ) (s : Text) → Ready (resume b t c) s
resume-Ready true t c s = tt
resume-Ready false t c s = tt

advance : (n c : ℕ) (s : Text) → Ready (passing (suc n)) (c ∷ s) → Ready (passing n) s
advance n c s ([], e, k, g) = absurd (omega (arith, e))
advance n c s (p ∷ l, e, (_, k), g) = (l, omega (arith, e), k, cut_prefix-step p c l s g)

-- A line feed ends whatever a search is in.
search_from-line :
    (st : Search) (t rest : Text)
    → Ready st (t ++ b'\n' ∷ rest)
    → (out : List Text) × (search_from st (t ++ b'\n' ∷ rest) ≡ out ++ search_from seeking rest)
unfolding search_from cut_prefix link lit
search_from-line seeking [] rest h = ([], refl)
search_from-line (taking cur) [] rest h = (cur ∷ [], refl)
search_from-line (passing n) [] rest h =
    let (l, _, k, g) = h in let f = cut_prefix-line l rest k in absurd (cc)
search_from-line seeking (c ∷ t) rest h =
    search_from-line (begin (starts_group (cut_prefix link (c ∷ (t ++ b'\n' ∷ rest))))) t rest
      (begin-Ready c (t ++ b'\n' ∷ rest))
search_from-line (taking cur) (c ∷ t) rest h =
    let (out, e) =
      search_from-line (resume (stops c) cur c) t rest
        (resume-Ready (stops c) cur c (t ++ b'\n' ∷ rest)) in
    (
      taken (stops c) cur ++ out,
      ap (λ xs. taken (stops c) cur ++ xs) e
          ∙ sym (append_assoc (taken (stops c) cur) out (search_from seeking rest)),
    )
search_from-line (passing zero) (c ∷ t) rest h = search_from-line (taking (c ∷ [])) t rest tt
search_from-line (passing (suc n)) (c ∷ t) rest h =
    search_from-line (passing n) t rest (advance n c (t ++ b'\n' ∷ rest) h)

-- An id that a link can hold: it is not empty, and has no slash, no parenthesis and no white space.
abbrev pub IsId : Text → Type 0
IsId id = (is_empty id ≡ false) × Lacks b'/' id × All (λ c. stops c ≡ false) id

-- A prefix with a slash and no bracket before it.
abbrev HasSlash : Text → Type 0
HasSlash [] = ⊥
HasSlash (p ∷ l) = (p ≡ b'/') ⊎ ((p ≢ b']') × HasSlash l)

cut_prefix-bracket :
    (l id tail : Text)
    → HasSlash l
    → Lacks b'/' id
    → starts_group (cut_prefix l (id ++ b']' ∷ tail)) ≡ false
unfolding cut_prefix
cut_prefix-bracket [] id tail h k = elim h [ ]
cut_prefix-bracket (p ∷ l) [] tail (inl e) k =
    rw (ne→==-false p b']' (λ q. omega (arith, e, q))) refl
cut_prefix-bracket (p ∷ l) [] tail (inr (e, _)) k = rw (ne→==-false p b']' e) refl
cut_prefix-bracket (p ∷ l) (c ∷ id) tail (inl e) (n, _) =
    rw (ne→==-false p c (λ q. n (sym q ∙ e))) refl
cut_prefix-bracket (p ∷ l) (c ∷ id) tail (inr (_, h)) (_, k) =
    matched (p == c) (cut_prefix-bracket l id tail h k)
  where
    matched :
        (b : Bool)
        → starts_group (cut_prefix l (id ++ b']' ∷ tail)) ≡ false
        → starts_group (if b then cut_prefix l (id ++ b']' ∷ tail) else none) ≡ false
    matched true e = e
    matched false e = refl

link-HasSlash : HasSlash link
unfolding link lit
link-HasSlash = inr (
  omega arith,
  inr (
    omega arith,
    inr (
      omega arith,
      inr (omega arith, inr (omega arith, inr (omega arith, inr (omega arith, inl refl)))),
    ),
  ),
)

-- No match starts in the text of a link.
search_from-id :
    (id tail : Text)
    → Lacks b'/' id
    → search_from seeking (id ++ b']' ∷ tail) ≡ search_from seeking (b']' ∷ tail)
unfolding search_from
search_from-id [] tail h = refl
search_from-id (c ∷ id) tail (n, h) =
    ap (λ b. search_from (begin b) (id ++ b']' ∷ tail))
      (cut_prefix-bracket link (c ∷ id) tail link-HasSlash (n, h))
    ∙ search_from-id id tail h

search_from-taking :
    (cur id tail : Text)
    → All (λ c. stops c ≡ false) id
    → search_from (taking cur) (id ++ b')' ∷ tail) ≡ (cur ++ id) ∷ search_from seeking tail
unfolding search_from
search_from-taking cur [] tail h = ap (λ t. t ∷ search_from seeking tail) (rw append-nil)
search_from-taking cur (c ∷ id) tail (s, h) =
    ap (λ b. taken b cur ++ search_from (resume b cur c) (id ++ b')' ∷ tail)) s
    ∙ search_from-taking (cur ++ c ∷ []) id tail h
    ∙ ap (λ t. t ∷ search_from seeking tail) (rw append_assoc)

-- A link is read as its id.
search_from-link :
    (id tail : Text)
    → IsId id
    → search_from seeking (link ++ (id ++ b')' ∷ tail)) ≡ id ∷ search_from seeking tail
unfolding search_from cut_prefix link lit
search_from-link [] tail (h, _, _) = cc
search_from-link (c ∷ id) tail (_, _, (s, h)) =
    ap (λ b. search_from (begin (not b)) (passed ++ (c ∷ (id ++ b')' ∷ tail)))) s
    ∙ search_from-taking (c ∷ []) id tail h

-- The line of a finding lists it.
search_from-body_line :
    (f : Finding) (rest : Text)
    → IsId f.id
    → (out : List Text) × (search_from seeking (body_line f ++ rest)
        ≡ f.id ∷ (out ++ search_from seeking rest))
unfolding search_from cut_prefix link lit
search_from-body_line f rest h =
    let said : Text = if is_empty f.summary then [] else lit ": " <> f.summary in
    let (out, e) = search_from-line seeking said rest tt in
    let id = f.id in
    let end = said ++ lit "\n" in
    let linked = lit ")" ++ end in
    let linking = lit "](https://" ++ (link ++ (id ++ linked)) in
    (
      out,
      ap (search_from seeking) (append_assoc id linking rest)
          ∙ search_from-id id (lit "(https://" ++ (link ++ ((id ++ linked) ++ rest))) ((h.1))
          ∙ ap (λ t. search_from seeking (link ++ t)) (append_assoc id linked rest)
          ∙ search_from-link id (end ++ rest) h
          ∙ ap (λ t. id ∷ search_from seeking t) (append_assoc said (lit "\n") rest)
          ∙ ap (λ xs. id ∷ xs) e,
    )

contains-first : (x : Text) (xs : List Text) → contains (x ∷ xs) x ≡ true
unfolding contains
contains-first x xs = rw ((text_eq_iff x x).1 refl) refl

contains-rest :
    (y : Text) (xs ys : List Text) (x : Text)
    → contains ys x ≡ true
    → contains (y ∷ (xs ++ ys)) x ≡ true
unfolding contains
contains-rest y xs ys x h = ground (arith, contains-append xs ys x)

contains-end : (xs ys : List Text) (x : Text) → contains ys x ≡ true → contains (xs ++ ys) x ≡ true
contains-end xs ys x h = ground (arith, contains-append xs ys x)

body_lines-lists :
    (fs : List Finding)
    → All (λ (f : Finding). IsId f.id) fs
    → All (λ (f : Finding). contains (search_from seeking (body_lines fs)) f.id ≡ true) fs
unfolding body_lines
body_lines-lists [] h = tt
body_lines-lists (f ∷ fs) (k, h) =
    let (out, e) = search_from-body_line f (body_lines fs) k in
    let found = search_from seeking (body_lines fs) in
    (
      subst (λ xs. contains xs f.id ≡ true) (sym e) (contains-first f.id (out ++ found)),
      All-imp
          (λ (g : Finding) p.
            subst (λ xs. contains xs g.id ≡ true) (sym e) (contains-rest f.id out found g.id p))
          fs (body_lines-lists fs h),
    )

-- The ids of a body are read back from it.
body-ids :
    (release : Text) (fs : List Finding) (i : Issue)
    → i.body ≡ body release fs
    → All (λ (f : Finding). IsId f.id) fs
    → All (λ (f : Finding). contains (ids i) f.id ≡ true) fs
unfolding body listed lit
body-ids release fs i e h =
    let lines = body_lines fs in
    let found = search_from seeking lines in
    let (out, s) = search_from-line seeking (body_head release fs) (b'\n' ∷ lines) tt in
    All-imp
      (λ (f : Finding) p.
        subst (λ t. contains (listed t) f.id ≡ true) (sym e)
          (subst (λ xs. contains xs f.id ≡ true) (sym s) (contains-end out found f.id p)))
      fs (body_lines-lists fs h)

-- A closed issue whose body was written for findings asks for nothing, in whatever release, while its
-- package has only findings among them. The ids are texts that a link can hold.
pub keep-closed :
    (release later : Text) (fs now : List Finding) (n : Text) (i : Issue)
    → All (λ (f : Finding). IsId f.id) fs
    → i.body ≡ body release fs
    → is_open i ≡ false
    → All (λ (f : Finding). contains (map (λ (g : Finding). g.id) fs) f.id ≡ true) now
    → keep later now n (some i) ≡ []
keep-closed release later fs now n i ids_ok same closed among =
    let known = body-ids release fs i same ids_ok in
    let P : Text → Type 0 = λ x. contains (ids i) x ≡ true in
    (keep-nothing later now n (some i)).1 (
      inr (
        closed,
        All-imp
            (λ (f : Finding) p.
              contains-All P (map (λ (g : Finding). g.id) fs) f.id p
                ((All-map P (λ (g : Finding). g.id) fs).1 known))
            now among,
      ))
