-- ===== src/Issues/Github.antt =====
-- What the calls of hack/osvissues/main.go make of the issues, by what the GitHub CLI documents.
use mathlib.Core.Path.{subst}
use mathlib.Core.Option.{some-injective}
use spin_machine.Common.{
  ◌≡◌, ◌≢◌, inl, inr, refl, ap, sym, ◌∙◌, Text, lit, Bool, true, false, List, [], ◌∷◌, ◌++◌, map,
  Option, none, some, All, Bool-cases, text_eq, text_eq_iff, ne_of_text_eq, if◌then◌else◌,
}
use spin_machine.Common.Int.{ℤ, eq_ℤ, eq_ℤ_iff}
use spin_machine.Issues.{Issue, Action, create, edit, reopen, close, newest}
use spin_machine.Issues.Newest.{touched, IsChange, newest-map, newest-All, newest-new, newest-other}

-- A change of the issue with a number.
abbrev pub on_number : ℤ → (Issue → Issue) → Issue → Issue
on_number n f i = if eq_ℤ i.number n then f i else i

abbrev pub with_body : Text → Issue → Issue
with_body b i = record i { body = b }

abbrev pub with_state : Text → Issue → Issue
with_state s i = record i { state = s }

-- The calls: a new issue is open and has a number that no other has; the others change the issue of
-- their number, and nothing else.
pub record IsGithub (perform : Action → List Issue → List Issue) : Type 0 where
  pub creates :
      (a : Action) (is : List Issue)
      → a.verb ≡ create
      → (n : ℤ) × All (λ (i : Issue). i.number ≢ n) is
        × (perform a is
            ≡ record { number = n; title = a.title; state = lit "OPEN"; body = a.body } ∷ is)
  pub edits :
      (a : Action) (is : List Issue)
      → a.verb ≡ edit
      → perform a is ≡ map (on_number a.number (with_body a.body)) is
  pub reopens :
      (a : Action) (is : List Issue)
      → a.verb ≡ reopen
      → perform a is ≡ map (on_number a.number (with_state (lit "OPEN"))) is
  pub closes :
      (a : Action) (is : List Issue)
      → a.verb ≡ close
      → perform a is ≡ map (on_number a.number (with_state (lit "CLOSED"))) is

-- The issues after a list of actions.
unfoldable pub carried : (Action → List Issue → List Issue) → List Action → List Issue → List Issue
carried perform [] is = is
carried perform (a ∷ todo) is = carried perform todo (perform a is)

pub carried-append :
    (perform : Action → List Issue → List Issue) (xs ys : List Action) (is : List Issue)
    → carried perform (xs ++ ys) is ≡ carried perform ys (carried perform xs is)
unfolding carried
carried-append perform [] ys is = refl
carried-append perform (x ∷ xs) ys is = carried-append perform xs ys (perform x is)

-- The newest issues of two titles have two numbers.
abbrev pub AreUnique : List Issue → Type 0
AreUnique is =
    (t u : Text) (i j : Issue)
    → newest t none is ≡ some i
    → newest u none is ≡ some j
    → i.number ≡ j.number
    → t ≡ u

touched-some :
    (g : Issue → Issue) (o : Option Issue) (x : Issue)
    → touched g o ≡ some x
    → (i : Issue) × (o ≡ some i) × (g i ≡ x)
touched-some g none x h = absurd (cc h)
touched-some g (some i) x h = (i, refl, some-injective (g i) x h)

change-AreUnique :
    (g : Issue → Issue) (is : List Issue) → IsChange g → AreUnique is → AreUnique (map g is)
change-AreUnique g is h u t t' i j e f same =
    let (i', e', a) = touched-some g (newest t none is) i (sym (newest-map g h t is) ∙ e) in
    let (j', f', b) = touched-some g (newest t' none is) j (sym (newest-map g h t' is) ∙ f) in
    let number : Issue → ℤ = λ x. x.number in
    u t t' i' j' e' f' (sym (h i').0 ∙ ap number a ∙ same ∙ sym (ap number b) ∙ (h j').0)

on_number-IsChange : (n : ℤ) (f : Issue → Issue) → IsChange f → IsChange (on_number n f)
on_number-IsChange n f h i = picked (eq_ℤ i.number n)
  where
    picked :
        (b : Bool)
        → ((if b then f i else i).number ≡ i.number) × ((if b then f i else i).title ≡ i.title)
    picked true = h i
    picked false = (refl, refl)

hit : (n : ℤ) (f : Issue → Issue) (i : Issue) → i.number ≡ n → on_number n f i ≡ f i
hit n f i e = ap (λ b. if b then f i else i) ((eq_ℤ_iff i.number n).1 e)

miss : (n : ℤ) (f : Issue → Issue) (i : Issue) → i.number ≢ n → on_number n f i ≡ i
miss n f i h = elim (Bool-cases (eq_ℤ i.number n)) [
  | inl e ↦ absurd (h ((eq_ℤ_iff i.number n).0 e))
  | inr e ↦ ap (λ b. if b then f i else i) e
]

module _ (perform : Action → List Issue → List Issue) where
  -- Actions that are for one title: they leave the newest issues of the others, and make of its own
  -- what is asked.
  pub record Settles (todo : List Action) (u : Text) (is : List Issue) (Q : Option Issue → Type 0)
      : Type 0 where
    pub unique : AreUnique (carried perform todo is)
    pub others : (t : Text) → t ≢ u → newest t none (carried perform todo is) ≡ newest t none is
    pub made : Q (newest u none (carried perform todo is))

  pub Settles-nil :
      (u : Text) (is : List Issue) (Q : Option Issue → Type 0)
      → AreUnique is
      → Q (newest u none is)
      → Settles [] u is Q
  unfolding carried
  Settles-nil u is Q h q = record { unique = h; others = λ t _. refl; made = q }

  -- An action that changes the newest issue of the title, before the others.
  pub Settles-change :
      (a : Action) (todo : List Action) (u : Text) (is : List Issue) (Q : Option Issue → Type 0)
      (f : Issue → Issue) (j : Issue)
      → IsChange f
      → AreUnique is
      → newest u none is ≡ some j
      → perform a is ≡ map (on_number j.number f) is
      → ((is' : List Issue) → AreUnique is' → newest u none is' ≡ some (f j) → Settles todo u is' Q)
      → Settles (a ∷ todo) u is Q
  unfolding carried
  Settles-change a todo u is Q f j h unique e does rest =
      let g = on_number j.number f in
      let is' = map g is in
      let change = on_number-IsChange j.number f h in
      let found : newest u none is' ≡ some (f j) =
        newest-map g change u is ∙ ap (touched g) e ∙ ap some (hit j.number f j refl) in
      let next = rest is' (change-AreUnique g is change unique) found in
      let same : (t : Text) → t ≢ u → newest t none is' ≡ newest t none is = λ t apart.
        newest-map g change t is
        ∙ left (newest t none is) (λ i e' n. apart (unique t u i j e' e n)) in
      record {
        unique = subst (λ x. AreUnique (carried perform todo x)) (sym does) next.unique;
        others = λ t apart.
            ap (λ x. newest t none (carried perform todo x)) does
            ∙ next.others t apart
            ∙ same t apart;
        made = subst (λ x. Q (newest u none (carried perform todo x))) (sym does) next.made;
      }
    where
      g' : Issue → Issue
      g' = on_number j.number f

      left :
          (o : Option Issue) → ((i : Issue) → o ≡ some i → i.number ≢ j.number) → touched g' o ≡ o
      left none k = refl
      left (some i) k = ap some (miss j.number f i (k i refl))

  -- A new issue of the title, before the others.
  pub Settles-create :
      (a : Action) (u : Text) (is : List Issue) (Q : Option Issue → Type 0)
      → IsGithub perform
      → a.verb ≡ create
      → a.title ≡ u
      → AreUnique is
      → newest u none is ≡ none
      → ((i : Issue) → i.state ≡ lit "OPEN" → i.body ≡ a.body → Q (some i))
      → Settles (a ∷ []) u is Q
  unfolding carried
  Settles-create a u is Q github verb named unique nothing q =
      let (n, fresh, does) = github.creates a is verb in
      let new : Issue = record { number = n; title = a.title; state = lit "OPEN"; body = a.body } in
      let here : newest u none (new ∷ is) ≡ some new =
        subst (λ t. newest t none (new ∷ is) ≡ some new) named
          (newest-new new is (subst (λ t. newest t none is ≡ none) (sym named) nothing)) in
      let same : (t : Text) → t ≢ u → newest t none (new ∷ is) ≡ newest t none is =
        λ t apart. newest-other t new is (λ e. apart (sym e ∙ named)) in
      record {
        unique = subst AreUnique (sym does) (both new fresh here same);
        others = λ t apart. ap (λ x. newest t none x) does ∙ same t apart;
        made = subst (λ x. Q (newest u none x)) (sym does) (subst Q (sym here) (q new refl refl));
      }
    where
      clash :
          (new : Issue)
          → All (λ (i : Issue). i.number ≢ new.number) is
          → newest u none (new ∷ is) ≡ some new
          → ((t : Text) → t ≢ u → newest t none (new ∷ is) ≡ newest t none is)
          → (t t' : Text) (i j : Issue) → t ≡ u
          → t' ≢ u
          → newest t none (new ∷ is) ≡ some i
          → newest t' none (new ∷ is) ≡ some j
          → i.number ≡ j.number
          → ⊥
      clash new fresh here same t t' i j x y e f n =
          let is_new : new ≡ i =
            some-injective new i (sym here ∙ ap (λ v. newest v none (new ∷ is)) (sym x) ∙ e) in
          newest-All (λ (k : Issue). k.number ≢ new.number) t' j is (sym (same t' y) ∙ f) fresh
            (sym n ∙ ap (λ (k : Issue). k.number) (sym is_new))

      both :
          (new : Issue)
          → All (λ (i : Issue). i.number ≢ new.number) is
          → newest u none (new ∷ is) ≡ some new
          → ((t : Text) → t ≢ u → newest t none (new ∷ is) ≡ newest t none is)
          → AreUnique (new ∷ is)
      both new fresh here same t t' i j e f n = elim (Bool-cases (text_eq t u)) [
        | inl x ↦ elim (Bool-cases (text_eq t' u)) [
          | inl y ↦ (text_eq_iff t u).0 x ∙ sym ((text_eq_iff t' u).0 y)
          | inr y ↦ absurd (
              clash new fresh here same t t' i j ((text_eq_iff t u).0 x) (ne_of_text_eq t' u y) e f
                n)
        ]
        | inr x ↦ elim (Bool-cases (text_eq t' u)) [
          | inl y ↦ absurd (
              clash new fresh here same t' t j i ((text_eq_iff t' u).0 y) (ne_of_text_eq t u x) f e
                (sym n))
          | inr y ↦
              unique t t' i j (sym (same t (ne_of_text_eq t u x)) ∙ e)
                (sym (same t' (ne_of_text_eq t' u y)) ∙ f) n
        ]
      ]
