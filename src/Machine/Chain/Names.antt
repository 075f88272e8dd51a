-- ===== src/Machine/Chain/Names.antt =====
-- The node names of `chainArgs` of machine/machine.go: no two nodes of a machine have one name.
use mathlib.Core.Path.{subst}
use spin_machine.Common.{
  ℕ, zero, suc, Text, lit, ◌<>◌, ◌≡◌, ◌≢◌, refl, sym, ap, ◌∙◌, Bool, true, false, List, [], ◌∷◌,
  arith, Lacks, append_assoc, All,
}
use spin_machine.Common.Numeral.{
  decimal, decimal-Lacks, decimal_injective, decimal-IsDigit, IsDigit,
}
use spin_machine.Common.Split.{split_from, split_from-Lacks, split_from_last}
use spin_machine.Machine.Fingerprint.Stream.{cons_injective}
use spin_machine.Machine.Chain.{node_name}

-- The format node of image `j` of disk `i`, or with the flag its file node.
unfoldable pub name : ℕ → ℕ → Bool → Text
name i j false = node_name i j
name i j true = node_name i j <> lit "-file"

-- What stands between the dashes of a name, behind the first piece.
pieces : ℕ → Bool → List Text
pieces zero false = []
pieces zero true = lit "file" ∷ []
pieces (suc j) false = decimal (suc j) ∷ []
pieces (suc j) true = decimal (suc j) ∷ lit "file" ∷ []

dashed :
    (n m : Text)
    → Lacks b'-' n
    → Lacks b'-' m
    → split_from b'-' [] ((lit "blk" <> n <> lit "-" <> m) <> lit "-file")
      ≡ (lit "blk" <> n) ∷ m ∷ lit "file" ∷ []
unfolding split_from lit
dashed n m h k =
    ap (split_from b'-' []) (
      append_assoc (lit "blk") (n <> lit "-" <> m) (lit "-file")
      ∙ ap (λ t. lit "blk" <> t) (append_assoc n (lit "-" <> m) (lit "-file")))
    ∙ rw (split_from-Lacks b'-' _ n _ h, split_from-Lacks b'-' _ m _ k)

name-pieces :
    (i j : ℕ) (b : Bool) → split_from b'-' [] (name i j b) ≡ (lit "blk" <> decimal i) ∷ pieces j b
unfolding name pieces split_from node_name lit
name-pieces i zero false =
    rw (split_from_last b'-' _ (decimal i) (decimal-Lacks b'-' i (omega arith)))
name-pieces i zero true =
    rw (split_from-Lacks b'-' _ (decimal i) _ (decimal-Lacks b'-' i (omega arith)))
name-pieces i (suc j) false = rw (
  split_from-Lacks b'-' _ (decimal i) _ (decimal-Lacks b'-' i (omega arith)),
  split_from_last b'-' _ (decimal (suc j)) (decimal-Lacks b'-' _ (omega arith)),
)
name-pieces i (suc j) true =
    dashed (decimal i) (decimal (suc j)) (decimal-Lacks b'-' _ (omega arith))
      (decimal-Lacks b'-' _ (omega arith))

file-ne_decimal : (n : ℕ) → lit "file" ≢ decimal n
unfolding lit
file-ne_decimal n e = absurd (omega (arith, (subst (All IsDigit) (sym e) (decimal-IsDigit n)).0))

head_injective :
    (i i' : ℕ) (s t : List Text)
    → (lit "blk" <> decimal i) ∷ s ≡ (lit "blk" <> decimal i') ∷ t
    → (i ≡ i') × (s ≡ t)
unfolding lit
head_injective i i' s t e = let r = cons_injective e in (decimal_injective i i' (cc (r.0)), r.1)

rest_injective : (j j' : ℕ) (b b' : Bool) → pieces j b ≡ pieces j' b' → (j ≡ j') × (b ≡ b')
unfolding pieces
rest_injective zero zero false false e = (refl, refl)
rest_injective zero zero true true e = (refl, refl)
rest_injective zero zero false true e = cc
rest_injective zero zero true false e = cc
rest_injective zero (suc j') false false e = cc
rest_injective zero (suc j') false true e = cc
rest_injective zero (suc j') true false e = absurd (file-ne_decimal (suc j') (cc))
rest_injective zero (suc j') true true e = cc
rest_injective (suc j) zero false false e = cc
rest_injective (suc j) zero true false e = cc
rest_injective (suc j) zero false true e = absurd (file-ne_decimal (suc j) (cc))
rest_injective (suc j) zero true true e = cc
rest_injective (suc j) (suc j') false false e = (decimal_injective (suc j) (suc j') (cc), refl)
rest_injective (suc j) (suc j') true true e = (decimal_injective (suc j) (suc j') (cc), refl)
rest_injective (suc j) (suc j') false true e = cc
rest_injective (suc j) (suc j') true false e = cc

-- A name is one node's.
pub name_injective :
    (i i' j j' : ℕ) (b b' : Bool) → name i j b ≡ name i' j' b' → (i ≡ i') × (j ≡ j') × (b ≡ b')
name_injective i i' j j' b b' e =
    let (disk, rest) =
      head_injective i i' (pieces j b) (pieces j' b')
        (sym (name-pieces i j b) ∙ ap (split_from b'-' []) e ∙ name-pieces i' j' b') in
    let (image, kind) = rest_injective j j' b b' rest in (disk, image, kind)
