-- ===== src/Machine/Chain/Writable.antt =====
-- Which images of a chain (`chainArgs` of machine/machine.go) a guest can write.
use mathlib.Core.List.{reverse, reverse-cons}
use spin_machine.Common.{
  ℕ, suc, Text, ◌≡◌, refl, true, false, not, ◌&&◌, List, [], ◌∷◌, ◌++◌, arith, is_empty,
  append_assoc,
}
use spin_machine.Cmdline.{when}
use spin_machine.Machine.Types.{Disk, Image}
use spin_machine.Machine.Chain.{NodePair, chain_nodes}
use spin_machine.Machine.Chain.Names.{name}

-- The names of the nodes that are not opened read-only, in the order they are opened.
unfoldable pub writable : List NodePair → List Text
writable [] = []
writable ((file, format) ∷ ps) =
    when (not file.read_only) (file.node_name ∷ [])
    ++ (when (not format.read_only) (format.node_name ∷ []) ++ writable ps)

writable-append : (ps qs : List NodePair) → writable (ps ++ qs) ≡ writable ps ++ writable qs
unfolding writable
writable-append [] qs = refl
writable-append (p ∷ ps) qs = simp (writable-append ps qs, append_assoc)

below-writable :
    (d : Disk) (i j : ℕ) (imgs : List Image)
    → writable (reverse (chain_nodes d i (suc j) imgs)) ≡ []
unfolding chain_nodes writable
below-writable d i j [] = refl
below-writable d i j (img ∷ rest) =
    rw (reverse-cons, writable-append, below-writable d i (suc j) rest) (ground arith)

-- A chain's only nodes that can be written are those of its top image, and of a disk that is not
-- read-only: every image below the top is as it was.
pub chain_nodes-writable :
    (d : Disk) (i : ℕ)
    → writable (reverse (chain_nodes d i 0 d.chain))
      ≡ when (not d.readonly && not (is_empty d.chain)) (name i 0 true ∷ name i 0 false ∷ [])
unfolding chain_nodes writable name
chain_nodes-writable d i = chain d.chain
  where
    chain :
        (imgs : List Image)
        → writable (reverse (chain_nodes d i 0 imgs))
          ≡ when (not d.readonly && not (is_empty imgs)) (name i 0 true ∷ name i 0 false ∷ [])
    chain [] = ground arith
    chain (img ∷ rest) =
        rw (reverse-cons, writable-append, below-writable d i 0 rest) (ground arith)
