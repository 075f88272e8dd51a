-- ===== src/Machine/Slots/Distinct.antt =====
-- No two devices of a valid machine of machine/machine.go are on one PCI slot.
use mathlib.Core.List.{flat_map, map-append}
use spin_machine.Common.{
  ℕ, suc, ◌+◌, ◌≤◌, Text, ◌≡◌, refl, ap, List, [], ◌∷◌, ◌++◌, map, arith, Bool, true, false, not,
  append-nil, Lacks, All, All-imp, length, ok, >>=_iff,
}
use spin_machine.Common.Int.{pos, is_zero, ltb_ℤ}
use spin_machine.Cmdline.{when}
use spin_machine.Cmdline.Words.{flat_map-append}
use spin_machine.Machine.Types.{
  Spec, Disk, Nic, slot_vsock, slot_rng, slot_balloon, slot_disk_base, slot_nic_base, slot_hotplug,
  slot_mem,
}
use spin_machine.Machine.Mac.{is_mac48-Lacks}
use spin_machine.Machine.Validate.{validate}
use spin_machine.Machine.Validate.Whole.{validate_iff}
use spin_machine.Machine.Command.{vsock_device, mem_device, hotplug_device}
use spin_machine.Machine.Args.{command_line, args}
use spin_machine.Machine.Slots.{address, addresses}
use spin_machine.Machine.Slots.Layout.{
  slots_from, fixed_slots, slots, Distinct, all_slots, all_slots-Distinct, all_slots-inside,
}
use spin_machine.Machine.Slots.Devices.{disk_devices, nic_devices, device_values-command_line}
use spin_machine.Machine.Slots.Addresses.{
  address_of, address_of-disk, address_of-nic, address_of-vsock, constant_addresses,
}

addresses_when :
    (b : Bool) (v : Text) (n : ℕ)
    → address_of v ≡ address n ∷ []
    → flat_map address_of (when b (v ∷ [])) ≡ map address (when b (n ∷ []))
unfolding flat_map
addresses_when true v n h = rw h
addresses_when false v n h = refl

addresses_disks :
    (i : ℕ) (ds : List Disk)
    → flat_map address_of (disk_devices i ds)
      ≡ map address (slots_from (slot_disk_base + i) (length ds))
unfolding flat_map disk_devices
addresses_disks i [] = refl
addresses_disks i (d ∷ ds) =
    let next : slot_disk_base + suc i ≡ suc (slot_disk_base + i) = omega arith in
    rw (address_of-disk d i)
      (ap (λ r. address (slot_disk_base + i) ∷ r) (rw next at (addresses_disks (suc i) ds)))

addresses_nics :
    (i : ℕ) (ns : List Nic)
    → All (λ n. Lacks b',' n.mac) ns
    → flat_map address_of (nic_devices i ns)
      ≡ map address (slots_from (slot_nic_base + i) (length ns))
unfolding flat_map nic_devices
addresses_nics i [] h = refl
addresses_nics i (n ∷ ns) (h, hs) =
    let next : slot_nic_base + suc i ≡ suc (slot_nic_base + i) = omega arith in
    rw (address_of-nic i n h)
      (ap (λ r. address (slot_nic_base + i) ∷ r) (rw next at (addresses_nics (suc i) ns hs)))

map-fixed_slots :
    (v m h : Bool) (rest : List ℕ)
    → map address (fixed_slots v m h ++ rest) ≡ (
        address slot_rng ∷ address slot_balloon ∷ map address (when v (slot_vsock ∷ []))
        ++ (map address (when m (slot_mem ∷ []))
            ++ (map address (when h (slot_hotplug ∷ [])) ++ map address rest)))
map-fixed_slots true true true rest = refl
map-fixed_slots true true false rest = refl
map-fixed_slots true false true rest = refl
map-fixed_slots true false false rest = refl
map-fixed_slots false true true rest = refl
map-fixed_slots false true false rest = refl
map-fixed_slots false false true rest = refl
map-fixed_slots false false false rest = refl

addresses-command_line :
    (s : Spec)
    → All (λ n. Lacks b',' n.mac) s.nics
    → addresses (command_line s) ≡ map address (slots s)
unfolding addresses flat_map
addresses-command_line s h =
    rw
      (
        device_values-command_line,
        map-fixed_slots (not (is_zero s.vsock_cid)) (ltb_ℤ s.memory.size_mb s.memory.max_mb)
            (ltb_ℤ (pos 0) s.hotplug_disks),
      )
      (simp (
        flat_map-append,
        map-append,
        constant_addresses.1,
        constant_addresses.2,
        addresses_when (not (is_zero s.vsock_cid)) (vsock_device s) slot_vsock (address_of-vsock s),
        addresses_when (ltb_ℤ s.memory.size_mb s.memory.max_mb) mem_device slot_mem
            constant_addresses.3,
        addresses_when (ltb_ℤ (pos 0) s.hotplug_disks) hotplug_device slot_hotplug
            constant_addresses.4,
        addresses_disks 0 s.disks,
        addresses_nics 0 s.nics h,
        append-nil,
      ))

-- The command line of a valid machine puts every device that has an address on a slot of its own:
-- the addresses are those of a list of slots with no two equal, none of which is one that the
-- machine keeps (0x00, 0x01 and 0x1f) or lies beyond the bus.
pub args-Distinct :
    (s : Spec) {a : List Text}
    → args s ≡ ok a
    → (addresses a ≡ map address (slots s))
      × Distinct (slots s)
      × All (λ x. (2 ≤ x) × (x ≤ 0x1e)) (slots s)
unfolding args all_slots
args-Distinct s {a} e =
    let (_, valid, line) = (>>=_iff (validate s) _).0 e in
    let v = (validate_iff s).0 valid in
    let macs = All-imp (λ n h. is_mac48-Lacks n.mac h.mac) s.nics v.nics in
    let same : a ≡ command_line s = cc in
    (
      rw same (addresses-command_line s macs),
      all_slots-Distinct _ _ _ _ _ v.machine.disks v.machine.nics,
      all_slots-inside _ _ _ _ _ v.machine.disks v.machine.nics,
    )
