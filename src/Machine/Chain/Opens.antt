-- ===== src/Machine/Chain/Opens.antt =====
-- QEMU opens the block nodes of `chainArgs` of machine/machine.go in the order they are given.
use mathlib.Core.Path.{subst}
use mathlib.Core.List.{flat_map, reverse, reverse-cons}
use spin_machine.Common.{
  ℕ, suc, Text, lit, ◌≡◌, refl, ap, ◌∙◌, sym, Bool, true, false, not, ◌&&◌, List, [], ◌∷◌, ◌++◌,
  arith, All, inl, inr, text_eq, text_eq_iff, contains, is_empty, ◌⊎◌, ◌<◌, ◌≤◌, >>=_iff, ok,
  Bool-cases,
}
use spin_machine.Machine.Types.{Disk, Image, Spec}
use spin_machine.Machine.Chain.{
  absent, null, named, FormatNode, NodePair, chain_nodes, file_node, format_node,
}
use spin_machine.Machine.Validate.{Ids}
use spin_machine.Machine.Validate.Disks.{IsChain, IsDisk}
use spin_machine.Machine.Validate.Sets.{known as known_sets}
use spin_machine.Machine.Validate.Whole.{validate_iff}
use spin_machine.Machine.Validate.{validate}
use spin_machine.Machine.Args.{args}
use spin_machine.Machine.Chain.Nodes.{
  nodes, pair_values, blockdev_values, blockdev_values-command_line,
}
use spin_machine.Machine.Chain.Names.{name, name_injective}

-- Whether the backing of a format node can be taken: a node that is there, none, or for a raw image
-- no option at all. A header is not followed.
abbrev pub backs : List Text → FormatNode → Bool
backs known f = elim f.backing [
  | absent ↦ text_eq f.driver (lit "raw")
  | null ↦ not (text_eq f.driver (lit "raw"))
  | named x ↦ not (text_eq f.driver (lit "raw")) && contains known x
]

-- The names that are there once the nodes have been opened.
unfoldable pub after : List Text → List NodePair → List Text
after known [] = known
after known ((file, format) ∷ ps) = after (format.node_name ∷ file.node_name ∷ known) ps

-- Whether every node can be opened: its name is free, its file is the node just before it, and its
-- backing is there.
unfoldable pub opens : List Text → List NodePair → Bool
opens known [] = true
opens known ((file, format) ∷ ps) =
    not (contains known file.node_name)
    && (not (contains (file.node_name ∷ known) format.node_name)
        && (text_eq format.file file.node_name
            && (backs known format && opens (format.node_name ∷ file.node_name ∷ known) ps)))

after-append :
    (known : List Text) (ps qs : List NodePair) → after known (ps ++ qs) ≡ after (after known ps) qs
unfolding after
after-append known [] qs = refl
after-append known (p ∷ ps) qs = after-append (p.1.node_name ∷ p.0.node_name ∷ known) ps qs

opens-append :
    (known : List Text) (ps qs : List NodePair)
    → opens known (ps ++ qs) ≡ opens known ps && opens (after known ps) qs
unfolding opens after
opens-append known [] qs = refl
opens-append known (p ∷ ps) qs =
    ground (arith, opens-append (p.1.node_name ∷ p.0.node_name ∷ known) ps qs)

-- The names of the disks from `i` on are free.
abbrev Free : ℕ → List Text → Type 0
Free i known = (i' k : ℕ) (b : Bool) → i ≤ i' → contains known (name i' k b) ≡ false

-- So are those of the images above `j`.
abbrev Above : ℕ → ℕ → List Text → Type 0
Above i j known =
    (i' k : ℕ) (b : Bool) → (i < i') ⊎ (i ≡ i') × (k < j) → contains known (name i' k b) ≡ false

qcow2-differs : text_eq (lit "qcow2") (lit "raw") ≡ false
unfolding text_eq lit
qcow2-differs = refl

other_name :
    (i i' j j' : ℕ) (b b' : Bool)
    → ¬ ((i ≡ i') × (j ≡ j') × (b ≡ b'))
    → text_eq (name i j b) (name i' j' b') ≡ false
other_name i i' j j' b b' h = elim (Bool-cases (text_eq (name i j b) (name i' j' b'))) [
  | inl e ↦ absurd (h (name_injective i i' j j' b b' ((text_eq_iff _ _).0 e)))
  | inr e ↦ e
]

Above-step :
    (i j : ℕ) (known : List Text)
    → Above i (suc j) known
    → Above i j (name i j false ∷ name i j true ∷ known)
unfolding contains
Above-step i j known h i' k b p =
    rw
      (
        other_name i i' j k false b (λ e. omega (arith, p, e.0, e.1)),
        other_name i i' j k true b (λ e. omega (arith, p, e.0, e.1)),
      )
      (h i' k b (omega (arith, p)))

backs-format_node :
    (known : List Text) (d : Disk) (i j : ℕ) (img : Image) (last : Bool)
    → (last ≡ false → (img.format ≡ lit "qcow2") × (contains known (name i (suc j) false) ≡ true))
    → backs known (format_node d i j img last) ≡ true
unfolding format_node name
backs-format_node known d i j img true below = ground arith
backs-format_node known d i j img false below =
    let (qcow2, there) = below refl in rw (qcow2, qcow2-differs, there) refl

opens-pair :
    (known : List Text) (d : Disk) (i j : ℕ) (img : Image) (last : Bool)
    → Above i (suc j) known
    → (last ≡ false → (img.format ≡ lit "qcow2") × (contains known (name i (suc j) false) ≡ true))
    → opens known ((file_node d i j img, format_node d i j img last) ∷ []) ≡ true
unfolding opens contains file_node format_node name
opens-pair known d i j img last h below =
    rw
      (
        h i j true (inr (refl, omega arith)),
        h i j false (inr (refl, omega arith)),
        other_name i i j j true false (λ e. cc),
        (text_eq_iff (name i j true) (name i j true)).1 refl,
        backs-format_node known d i j img last below,
      )
      refl

IsChain-rest :
    (sets : Ids) (img : Image) (rest : List Image) → IsChain sets (img ∷ rest) → IsChain sets rest
IsChain-rest sets img [] c = tt
IsChain-rest sets img (_ ∷ _) c = c.2

IsChain-qcow2 :
    (sets : Ids) (img : Image) (rest : List Image)
    → IsChain sets (img ∷ rest)
    → is_empty rest ≡ false
    → img.format ≡ lit "qcow2"
IsChain-qcow2 sets img [] c e = cc
IsChain-qcow2 sets img (_ ∷ _) c e = c.1

top-contained : (x : Text) (xs : List Text) → contains (x ∷ xs) x ≡ true
unfolding contains
top-contained x xs = rw ((text_eq_iff x x).1 refl)

-- The whole of a chain from image `j` on, whose names and those of later disks are free: it opens,
-- the names before it stay free, and its top is there.
opens-chain :
    (sets : Ids) (known : List Text) (d : Disk) (i j : ℕ) (imgs : List Image)
    → IsChain sets imgs
    → Free i known
    → (opens known (reverse (chain_nodes d i j imgs)) ≡ true)
      × Above i j (after known (reverse (chain_nodes d i j imgs)))
      × (is_empty imgs ≡ false
          → contains (after known (reverse (chain_nodes d i j imgs))) (name i j false) ≡ true)
unfolding chain_nodes opens after name
opens-chain sets known d i j [] c h = (refl, λ i' k b p. h i' k b (omega (arith, p)), λ e. cc)
opens-chain sets known d i j (img ∷ rest) c h =
    let (o, above, top) =
      opens-chain sets known d i (suc j) rest (IsChain-rest sets img rest c) h in
    let pair =
      opens-pair _ d i j img (is_empty rest) above
        (λ e. (IsChain-qcow2 sets img rest c e, top e)) in
    rw (reverse-cons, opens-append, after-append)
      (rw o pair, Above-step i j _ above, λ _. top-contained _ _)

DiskChain : (sets : Ids) (d : Disk) → IsDisk sets d → IsChain sets d.chain
DiskChain sets d (inl (_, c, _)) = subst (IsChain sets) (sym c) tt
DiskChain sets d (inr (_, _, _, c)) = c

opens-nodes :
    (sets : Ids) (known : List Text) (i : ℕ) (ds : List Disk)
    → All (IsDisk sets) ds
    → Free i known
    → opens known (nodes i ds) ≡ true
unfolding opens nodes
opens-nodes sets known i [] _ h = refl
opens-nodes sets known i (d ∷ ds) (v, vs) h =
    let (o, above, _) = opens-chain sets known d i 0 d.chain (DiskChain sets d v) h in
    rw (opens-append, o)
      (opens-nodes sets (after known (reverse (chain_nodes d i 0 d.chain))) (suc i) ds vs
        (λ i' k b p. above i' k b (inl (omega (arith, p)))))

-- Where `Args` gives a command line, the values of its `-blockdev` options are those of the nodes of
-- every image of every disk, each disk's base first, and QEMU can open the nodes in that order: each
-- name is free over all disks, each format node's file is the node before it, each backing is a node
-- that is there already, and no image that can have a backing is left without a word on it.
pub args-opens :
    (s : Spec) {a : List Text}
    → args s ≡ ok a
    → (blockdev_values a ≡ flat_map pair_values (nodes 0 s.disks))
      × (opens [] (nodes 0 s.disks) ≡ true)
unfolding args contains
args-opens s e =
    let (_, valid, same) = (>>=_iff (validate s) _).0 e in
    (
      ap blockdev_values (cc same) ∙ blockdev_values-command_line s,
      opens-nodes (known_sets s.fd_sets) [] 0 s.disks ((validate_iff s).0 valid).disks
          (λ _ _ _ _. refl),
    )
