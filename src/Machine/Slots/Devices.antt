-- ===== src/Machine/Slots/Devices.antt =====
-- Which devices a command line of machine/machine.go has.
use mathlib.Core.List.{flat_map, reverse}
use spin_machine.Common.{
  ℕ, suc, Text, lit, ◌≡◌, refl, ap, ◌∙◌, List, [], ◌∷◌, ◌++◌, Bool, true, false, not, is_empty,
  append_assoc, Bool-cases, inl, inr,
}
use spin_machine.Common.Int.{ℤ, pos, is_zero, ltb_ℤ}
use spin_machine.Cmdline.{when}
use spin_machine.Machine.Types.{Spec, Disk, Nic, Monitor, FdSet, Fd}
use spin_machine.Machine.Chain.{NodePair, chain_args, chain_nodes, pair_args}
use spin_machine.Machine.Command.{
  chipset_args, boot_args, device_args, disk_args, nic_args, each_args, one_disk_args, one_nic_args,
  rng_device, balloon_device, vsock_device, mem_device, hotplug_device, disk_device, nic_device,
}
use spin_machine.Machine.Args.{
  head_args, console_args, monitor_args, one_monitor_args, one_fd_args, one_set_args, fd_set_args,
  incoming_args, command_line,
}
use spin_machine.Machine.Slots.{device_values}

on_head : (s : Spec) (rest : List Text) → device_values (head_args s ++ rest) ≡ device_values rest
unfolding device_values lit head_args
on_head s rest = refl

on_chipset : (rest : List Text) → device_values (chipset_args ++ rest) ≡ device_values rest
unfolding device_values lit chipset_args
on_chipset [] = refl
on_chipset (x ∷ rest) = refl

on_boot : (s : Spec) (rest : List Text) → device_values (boot_args s ++ rest) ≡ device_values rest
unfolding device_values lit boot_args
on_boot s rest = elim (Bool-cases (is_empty s.initrd)) [ inl e ↦ rw e | inr e ↦ rw e ]

on_device :
    (v : Text) (rest : List Text)
    → device_values (lit "-device" ∷ v ∷ rest) ≡ v ∷ device_values rest
unfolding device_values lit
on_device v rest = refl

on_when :
    (b : Bool) (v : Text) (rest : List Text)
    → device_values (when b (lit "-device" ∷ v ∷ []) ++ rest)
      ≡ when b (v ∷ []) ++ device_values rest
on_when true v rest = on_device v rest
on_when false v rest = refl

on_when_object :
    (b : Bool) (o v : Text) (rest : List Text)
    → device_values (when b (lit "-object" ∷ o ∷ lit "-device" ∷ v ∷ []) ++ rest)
      ≡ when b (v ∷ []) ++ device_values rest
unfolding device_values lit
on_when_object true o v rest = refl
on_when_object false o v rest = refl

on_devices :
    (s : Spec) (rest : List Text)
    → device_values (device_args s ++ rest) ≡ (
        lit "vmgenid,guid=auto"
          ∷ rng_device
          ∷ balloon_device
          ∷ when (not (is_zero s.vsock_cid)) (vsock_device s ∷ [])
        ++ (when (ltb_ℤ s.memory.size_mb s.memory.max_mb) (mem_device ∷ [])
            ++ (when (ltb_ℤ (pos 0) s.hotplug_disks) (hotplug_device ∷ []) ++ device_values rest)))
unfolding device_args
on_devices s rest = simp (append_assoc, on_device, on_when, on_when_object)

on_nodes :
    (ps : List NodePair) (rest : List Text)
    → device_values (flat_map pair_args ps ++ rest) ≡ device_values rest
unfolding flat_map pair_args device_values lit
on_nodes [] rest = refl
on_nodes (p ∷ ps) rest = on_nodes ps rest

on_chain :
    (d : Disk) (i : ℕ) (rest : List Text)
    → device_values (chain_args d i ++ rest) ≡ device_values rest
unfolding chain_args
on_chain d i rest = on_nodes (reverse (chain_nodes d i 0 d.chain)) rest

on_one_disk :
    (i : ℕ) (d : Disk) (rest : List Text)
    → device_values (one_disk_args i d ++ rest) ≡ disk_device d i ∷ device_values rest
unfolding one_disk_args
on_one_disk i d rest = elim (Bool-cases (is_empty d.chain)) [
  | inl e ↦ rw e (unfold device_values lit in refl)
  | inr e ↦ rw (e, append_assoc, on_chain) (on_device (disk_device d i) rest)
]

unfoldable pub disk_devices : ℕ → List Disk → List Text
disk_devices i [] = []
disk_devices i (d ∷ ds) = disk_device d i ∷ disk_devices (suc i) ds

on_disks :
    (i : ℕ) (ds : List Disk) (rest : List Text)
    → device_values (each_args one_disk_args i ds ++ rest) ≡ disk_devices i ds ++ device_values rest
unfolding each_args disk_devices
on_disks i [] rest = refl
on_disks i (d ∷ ds) rest = rw (append_assoc, on_one_disk, on_disks (suc i) ds rest)

unfoldable pub nic_devices : ℕ → List Nic → List Text
nic_devices i [] = []
nic_devices i (n ∷ ns) = nic_device i n ∷ nic_devices (suc i) ns

on_nics :
    (i : ℕ) (ns : List Nic) (rest : List Text)
    → device_values (each_args one_nic_args i ns ++ rest) ≡ nic_devices i ns ++ device_values rest
unfolding each_args nic_devices one_nic_args device_values lit
on_nics i [] rest = refl
on_nics i (n ∷ ns) rest = ap (λ vs. nic_device i n ∷ vs) (on_nics (suc i) ns rest)

on_console :
    (s : Spec) (rest : List Text) → device_values (console_args s ++ rest) ≡ device_values rest
unfolding console_args device_values lit
on_console s rest = elim (Bool-cases (is_zero s.serial_fd_set)) [
  | inl e ↦ elim (Bool-cases (is_empty s.serial)) [ inl f ↦ rw (e, f) | inr f ↦ rw (e, f) ]
  | inr e ↦ rw e
]

on_monitors :
    (i : ℕ) (ms : List Monitor) (rest : List Text)
    → device_values (each_args one_monitor_args i ms ++ rest) ≡ device_values rest
unfolding each_args
on_monitors i [] rest = refl
on_monitors i (m ∷ ms) rest = rw append_assoc (on_one i m _ ∙ on_monitors (suc i) ms rest)
  where
    on_one :
        (i : ℕ) (m : Monitor) (rest : List Text)
        → device_values (one_monitor_args i m ++ rest) ≡ device_values rest
    on_one i m rest = elim (Bool-cases (is_empty m.socket)) [
      | inl e ↦ unfold one_monitor_args device_values lit in rw e
      | inr e ↦ unfold one_monitor_args device_values lit in rw e
    ]

on_fds :
    (id : ℤ) (fds : List Fd) (rest : List Text)
    → device_values (flat_map (one_fd_args id) fds ++ rest) ≡ device_values rest
unfolding flat_map one_fd_args device_values lit
on_fds id [] rest = refl
on_fds id (fd ∷ fds) rest = on_fds id fds rest

on_set :
    (t : FdSet) (rest : List Text) → device_values (one_set_args t ++ rest) ≡ device_values rest
unfolding one_set_args
on_set t rest = on_fds t.id t.fds rest

on_sets :
    (ss : List FdSet) (rest : List Text)
    → device_values (flat_map one_set_args ss ++ rest) ≡ device_values rest
unfolding flat_map
on_sets [] rest = refl
on_sets (t ∷ ss) rest = rw append_assoc (on_set t _ ∙ on_sets ss rest)

on_incoming : (s : Spec) → device_values (incoming_args s) ≡ []
unfolding incoming_args device_values lit
on_incoming s = elim (Bool-cases (is_empty s.incoming)) [ inl e ↦ rw e | inr e ↦ rw e ]

-- The devices of a whole command line: nothing but what `appendDevices`, `appendDisks` and
-- `appendNICs` name, whatever the values of the other options are.
pub device_values-command_line :
    (s : Spec)
    → device_values (command_line s) ≡ (
        lit "vmgenid,guid=auto"
          ∷ rng_device
          ∷ balloon_device
          ∷ when (not (is_zero s.vsock_cid)) (vsock_device s ∷ [])
        ++ (when (ltb_ℤ s.memory.size_mb s.memory.max_mb) (mem_device ∷ [])
            ++ (when (ltb_ℤ (pos 0) s.hotplug_disks) (hotplug_device ∷ [])
                ++ (disk_devices 0 s.disks ++ (nic_devices 0 s.nics ++ [])))))
unfolding command_line disk_args nic_args monitor_args fd_set_args
device_values-command_line s = rw (
  on_head s,
  on_chipset,
  on_boot s,
  on_devices s,
  on_disks 0 s.disks,
  on_nics 0 s.nics,
  on_console s,
  on_monitors 0 s.monitors,
  on_sets s.fd_sets,
  on_incoming s,
)
