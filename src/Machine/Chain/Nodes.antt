-- ===== src/Machine/Chain/Nodes.antt =====
-- Which block nodes a command line of machine/machine.go opens, and in which order.
use mathlib.Core.List.{flat_map, reverse}
use spin_machine.Common.{
  ℕ, suc, Text, lit, ◌≡◌, refl, ap, ◌∙◌, List, [], ◌∷◌, ◌++◌, Bool, true, false, is_empty,
  append_assoc, append-nil, Bool-cases, inl, inr, text_eq, if◌then◌else◌,
}
use spin_machine.Common.Int.{ℤ, is_zero}
use spin_machine.Cmdline.{when}
use spin_machine.Cmdline.Words.{flat_map-append}
use spin_machine.Machine.Types.{Spec, Disk, Nic, Monitor, FdSet, Fd, Image}
use spin_machine.Machine.Chain.{
  NodePair, chain_args, chain_nodes, pair_args, encode_file, encode_format,
}
use spin_machine.Machine.Command.{
  chipset_args, boot_args, device_args, disk_args, nic_args, each_args, one_disk_args, one_nic_args,
  disk_device,
}
use spin_machine.Machine.Args.{
  head_args, console_args, monitor_args, one_monitor_args, one_fd_args, one_set_args, fd_set_args,
  incoming_args, command_line,
}
use spin_machine.Machine.Slots.{stands_alone}

-- The arguments of the `-blockdev` options of a command line, in its order.
unfoldable pub blockdev_values : List Text → List Text
unfolding stands_alone text_eq
blockdev_values [] = []
blockdev_values (a ∷ []) = []
blockdev_values (a ∷ v ∷ rest) =
    let next = blockdev_values (v ∷ rest) in
    let node = v ∷ blockdev_values rest in
    let other = blockdev_values rest in
    if stands_alone a then next else if text_eq a (lit "-blockdev") then node else other

-- What is said of the two nodes of an image.
abbrev pub pair_values : NodePair → List Text
pair_values (file, format) = encode_file file ∷ encode_format format ∷ []

-- The nodes of the disks from `i` on: of each disk the base first.
unfoldable pub nodes : ℕ → List Disk → List NodePair
nodes i [] = []
nodes i (d ∷ ds) = reverse (chain_nodes d i 0 d.chain) ++ nodes (suc i) ds

past_head :
    (s : Spec) (rest : List Text) → blockdev_values (head_args s ++ rest) ≡ blockdev_values rest
unfolding blockdev_values lit head_args
past_head s rest = refl

past_chipset : (rest : List Text) → blockdev_values (chipset_args ++ rest) ≡ blockdev_values rest
unfolding blockdev_values lit chipset_args
past_chipset [] = refl
past_chipset (x ∷ rest) = refl

past_boot :
    (s : Spec) (rest : List Text) → blockdev_values (boot_args s ++ rest) ≡ blockdev_values rest
unfolding blockdev_values lit boot_args
past_boot s rest = elim (Bool-cases (is_empty s.initrd)) [ inl e ↦ rw e | inr e ↦ rw e ]

past_device :
    (v : Text) (rest : List Text)
    → blockdev_values (lit "-device" ∷ v ∷ rest) ≡ blockdev_values rest
unfolding blockdev_values lit
past_device v rest = refl

past_when :
    (b : Bool) (v : Text) (rest : List Text)
    → blockdev_values (when b (lit "-device" ∷ v ∷ []) ++ rest) ≡ blockdev_values rest
past_when true v rest = past_device v rest
past_when false v rest = refl

past_when_object :
    (b : Bool) (o v : Text) (rest : List Text)
    → blockdev_values (when b (lit "-object" ∷ o ∷ lit "-device" ∷ v ∷ []) ++ rest)
      ≡ blockdev_values rest
unfolding blockdev_values lit
past_when_object true o v rest = refl
past_when_object false o v rest = refl

past_devices :
    (s : Spec) (rest : List Text) → blockdev_values (device_args s ++ rest) ≡ blockdev_values rest
unfolding device_args
past_devices s rest = simp (append_assoc, past_device, past_when, past_when_object)

at_pairs :
    (ps : List NodePair) (rest : List Text)
    → blockdev_values (flat_map pair_args ps ++ rest)
      ≡ flat_map pair_values ps ++ blockdev_values rest
unfolding flat_map pair_args blockdev_values lit
at_pairs [] rest = refl
at_pairs ((file, format) ∷ ps) rest =
    ap (λ vs. encode_file file ∷ encode_format format ∷ vs) (at_pairs ps rest)

at_empty :
    (d : Disk) (i : ℕ) (chain : List Image)
    → is_empty chain ≡ true
    → flat_map pair_values (reverse (chain_nodes d i 0 chain)) ≡ []
unfolding chain_nodes flat_map
at_empty d i [] e = refl
at_empty d i (img ∷ rest) e = cc

at_one_disk :
    (i : ℕ) (d : Disk) (rest : List Text)
    → blockdev_values (one_disk_args i d ++ rest)
      ≡ flat_map pair_values (reverse (chain_nodes d i 0 d.chain)) ++ blockdev_values rest
unfolding one_disk_args chain_args
at_one_disk i d rest = elim (Bool-cases (is_empty d.chain)) [
  | inl e ↦ rw (e, at_empty d i d.chain e) (unfold blockdev_values lit in refl)
  | inr e ↦
      rw (e, append_assoc, at_pairs)
        (ap (λ vs. flat_map pair_values (reverse (chain_nodes d i 0 d.chain)) ++ vs)
          (past_device (disk_device d i) rest))
]

at_disks :
    (i : ℕ) (ds : List Disk) (rest : List Text)
    → blockdev_values (each_args one_disk_args i ds ++ rest)
      ≡ flat_map pair_values (nodes i ds) ++ blockdev_values rest
unfolding each_args nodes flat_map
at_disks i [] rest = refl
at_disks i (d ∷ ds) rest =
    rw (append_assoc, at_one_disk, at_disks (suc i) ds rest, nodes, flat_map-append, append_assoc)
      refl

past_nics :
    (i : ℕ) (ns : List Nic) (rest : List Text)
    → blockdev_values (each_args one_nic_args i ns ++ rest) ≡ blockdev_values rest
unfolding each_args one_nic_args blockdev_values lit
past_nics i [] rest = refl
past_nics i (n ∷ ns) rest = past_nics (suc i) ns rest

past_console :
    (s : Spec) (rest : List Text) → blockdev_values (console_args s ++ rest) ≡ blockdev_values rest
unfolding console_args blockdev_values lit
past_console s rest = elim (Bool-cases (is_zero s.serial_fd_set)) [
  | inl e ↦ elim (Bool-cases (is_empty s.serial)) [ inl f ↦ rw (e, f) | inr f ↦ rw (e, f) ]
  | inr e ↦ rw e
]

past_monitors :
    (i : ℕ) (ms : List Monitor) (rest : List Text)
    → blockdev_values (each_args one_monitor_args i ms ++ rest) ≡ blockdev_values rest
unfolding each_args
past_monitors i [] rest = refl
past_monitors i (m ∷ ms) rest = rw append_assoc (past_one i m _ ∙ past_monitors (suc i) ms rest)
  where
    past_one :
        (i : ℕ) (m : Monitor) (rest : List Text)
        → blockdev_values (one_monitor_args i m ++ rest) ≡ blockdev_values rest
    past_one i m rest = elim (Bool-cases (is_empty m.socket)) [
      | inl e ↦ unfold one_monitor_args blockdev_values lit in rw e
      | inr e ↦ unfold one_monitor_args blockdev_values lit in rw e
    ]

past_fds :
    (id : ℤ) (fds : List Fd) (rest : List Text)
    → blockdev_values (flat_map (one_fd_args id) fds ++ rest) ≡ blockdev_values rest
unfolding flat_map one_fd_args blockdev_values lit
past_fds id [] rest = refl
past_fds id (fd ∷ fds) rest = past_fds id fds rest

past_set :
    (t : FdSet) (rest : List Text) → blockdev_values (one_set_args t ++ rest) ≡ blockdev_values rest
unfolding one_set_args
past_set t rest = past_fds t.id t.fds rest

past_sets :
    (ss : List FdSet) (rest : List Text)
    → blockdev_values (flat_map one_set_args ss ++ rest) ≡ blockdev_values rest
unfolding flat_map
past_sets [] rest = refl
past_sets (t ∷ ss) rest = rw append_assoc (past_set t _ ∙ past_sets ss rest)

past_incoming : (s : Spec) → blockdev_values (incoming_args s) ≡ []
unfolding incoming_args blockdev_values lit
past_incoming s = elim (Bool-cases (is_empty s.incoming)) [ inl e ↦ rw e | inr e ↦ rw e ]

-- The nodes that a whole command line opens.
pub blockdev_values-command_line :
    (s : Spec) → blockdev_values (command_line s) ≡ flat_map pair_values (nodes 0 s.disks)
unfolding command_line disk_args nic_args monitor_args fd_set_args
blockdev_values-command_line s = rw (
  past_head s,
  past_chipset,
  past_boot s,
  past_devices s,
  at_disks 0 s.disks,
  past_nics 0 s.nics,
  past_console s,
  past_monitors 0 s.monitors,
  past_sets s.fd_sets,
  past_incoming s,
  append-nil,
)
