-- ===== src/Machine/Contract/Closed.antt =====
-- What `withoutTheVMs` leaves of each device of machine/machine.go.
use spin_machine.Common.{
  ℕ, suc, All, ◌||◌, ◌+◌, Text, lit, ◌<>◌, ◌≡◌, refl, Bool, true, false, not, List, [], ◌∷◌, ◌++◌,
  arith, Lacks, inl, inr, text_eq, contains, join, Bool-cases, append-nil, append_assoc, is_empty,
}
use spin_machine.Common.Int.{pos, ltb_ℤ, is_zero}
use spin_machine.Common.Numeral.{decimal, hex, itoa, decimal-Lacks, hex-Lacks, itoa-Lacks}
use spin_machine.Common.Split.{split, split_from, split_from-Lacks, split_from_last, cut_before}
use spin_machine.Machine.Types.{Nic, Spec, slot_vsock, slot_mem, slot_hotplug, slot_nic_base}
use spin_machine.Cmdline.{when}
use spin_machine.Machine.Command.{
  nic_device, vsock_device, at_slot, virtio_modern, text_when, rng_device, balloon_device,
  mem_device, mem_object, hotplug_device, hotplug_controller, virtio_mem_id, mem_growth_id, netdev,
  chipset_args, device_args, nic_args, one_nic_args, each_args,
}
use spin_machine.Machine.Contract.{without_the_vms, contract_loop, contract, vm_properties}

-- A NIC as the contract describes it: its slot, and its MTU where one is announced.
unfoldable pub nic_contract : ℕ → Nic → Text
nic_contract i n =
    lit "virtio-net-pci,romfile=,"
    <> at_slot (slot_nic_base + i)
    <> text_when (ltb_ℤ (pos 0) n.mtu) (lit ",host_mtu=" <> itoa n.mtu)

pub nic_device-without_the_vms :
    (i : ℕ) (n : Nic) → Lacks b',' n.mac → without_the_vms (nic_device i n) ≡ nic_contract i n
unfolding without_the_vms split split_from nic_device nic_contract virtio_modern lit vm_properties
    contains cut_before join
nic_device-without_the_vms i n h = elim (Bool-cases (ltb_ℤ (pos 0) n.mtu)) [
  | inl e ↦ rw (
    e,
    split_from-Lacks b',' _ (decimal i) _ (decimal-Lacks b',' i (omega arith)),
    split_from-Lacks b',' _ n.mac _ h,
    split_from-Lacks b',' _ (hex (slot_nic_base + i)) _ (hex-Lacks b',' _ (omega arith)),
    split_from_last b',' _ (itoa n.mtu) (itoa-Lacks b',' _ (omega arith)),
  )
  | inr e ↦ rw (
    e,
    split_from-Lacks b',' _ (decimal i) _ (decimal-Lacks b',' i (omega arith)),
    split_from-Lacks b',' _ n.mac _ h,
    split_from-Lacks b',' _ (hex (slot_nic_base + i)) _ (hex-Lacks b',' _ (omega arith)),
    append-nil (hex (slot_nic_base + i)),
  )
]

-- The vsock without its context id and its descriptor.
pub vsock_device-without_the_vms :
    (s : Spec) → without_the_vms (vsock_device s) ≡ lit "vhost-vsock-pci," <> at_slot slot_vsock
unfolding without_the_vms split split_from vsock_device virtio_modern lit vm_properties contains
    cut_before join hex
vsock_device-without_the_vms s = elim (Bool-cases (is_zero s.vsock_fd)) [
  | inl e ↦ rw (e, split_from-Lacks b',' _ (itoa s.vsock_cid) _ (itoa-Lacks b',' _ (omega arith)))
  | inr e ↦ rw (
    e,
    split_from-Lacks b',' _ (itoa s.vsock_cid) _ (itoa-Lacks b',' _ (omega arith)),
    split_from_last b',' _ (itoa s.vsock_fd) (itoa-Lacks b',' _ (omega arith)),
  )
]

constant_devices :
    (without_the_vms (lit "vmgenid,guid=auto") ≡ lit "vmgenid,guid=auto")
    × (without_the_vms rng_device ≡ rng_device)
    × (without_the_vms balloon_device ≡ balloon_device)
    × (without_the_vms mem_device ≡ lit "virtio-mem-pci,requested-size=0," <> at_slot slot_mem)
    × (without_the_vms hotplug_device ≡ lit "virtio-scsi-pci," <> at_slot slot_hotplug)
unfolding without_the_vms split rng_device balloon_device mem_device mem_growth_id virtio_mem_id
    hotplug_device hotplug_controller virtio_modern lit vm_properties contains cut_before join hex
constant_devices = (refl, refl, refl, refl, refl)

-- The devices of each NIC, from position `i` on.
unfoldable pub nics_contract : ℕ → List Nic → List Text
nics_contract i [] = []
nics_contract i (n ∷ ns) = (lit "device " <> nic_contract i n) ∷ nics_contract (suc i) ns

-- The contract in closed form: what of a spec it depends on is what this names.
unfoldable pub machine_contract : Spec → List Text
unfolding nics_contract
machine_contract s =
    lit "global ICH9-LPC.disable_s3=1"
      ∷ lit "global ICH9-LPC.disable_s4=1"
      ∷ lit "global ICH9-LPC.acpi-pci-hotplug-with-bridge-support=off"
      ∷ (lit "device " <> lit "vmgenid,guid=auto")
      ∷ (lit "device " <> rng_device)
      ∷ (lit "device " <> balloon_device)
      ∷ when (not (is_zero s.vsock_cid))
          ((lit "device " <> lit "vhost-vsock-pci," <> at_slot slot_vsock) ∷ [])
    ++ (when (ltb_ℤ s.memory.size_mb s.memory.max_mb)
          ((lit "device " <> lit "virtio-mem-pci,requested-size=0," <> at_slot slot_mem) ∷ [])
        ++ (when (ltb_ℤ (pos 0) s.hotplug_disks)
              ((lit "device " <> lit "virtio-scsi-pci," <> at_slot slot_hotplug) ∷ [])
            ++ (nics_contract 0 s.nics
                ++ when (not (is_empty s.serial) || not (is_zero s.serial_fd_set))
                    (lit "serial isa-serial" ∷ []))))

loop-device :
    (v : Text) (rest : List Text)
    → contract_loop (lit "-device" ∷ v ∷ rest)
      ≡ (lit "device " <> without_the_vms v) ∷ contract_loop rest
unfolding contract_loop lit text_eq
loop-device v rest = refl

loop-netdev :
    (i : ℕ) (n : Nic) (v : Text) (rest : List Text)
    → contract_loop (lit "-netdev" ∷ netdev i n ∷ lit "-device" ∷ v ∷ rest)
      ≡ (lit "device " <> without_the_vms v) ∷ contract_loop rest
unfolding contract_loop lit text_eq netdev
loop-netdev i n v rest = refl

loop-object :
    (s : Spec) (v : Text) (rest : List Text)
    → contract_loop (lit "-object" ∷ mem_object s ∷ lit "-device" ∷ v ∷ rest)
      ≡ (lit "device " <> without_the_vms v) ∷ contract_loop rest
unfolding contract_loop lit text_eq mem_object
loop-object s v rest = refl

loop-nics :
    (i : ℕ) (ns : List Nic)
    → All (λ n. Lacks b',' n.mac) ns
    → contract_loop (each_args one_nic_args i ns) ≡ nics_contract i ns
unfolding each_args nics_contract one_nic_args
loop-nics i [] h = unfold contract_loop in refl
loop-nics i (n ∷ ns) (h, hs) =
    rw (loop-netdev, nic_device-without_the_vms i n h, loop-nics (suc i) ns hs)

loop-chipset :
    (rest : List Text)
    → contract_loop (chipset_args ++ rest) ≡ (
        lit "global ICH9-LPC.disable_s3=1"
        ∷ lit "global ICH9-LPC.disable_s4=1"
        ∷ lit "global ICH9-LPC.acpi-pci-hotplug-with-bridge-support=off"
        ∷ contract_loop rest)
unfolding contract_loop lit text_eq chipset_args
loop-chipset [] = refl
loop-chipset (x ∷ rest) = refl

loop_when-device :
    (b : Bool) (v : Text) (rest : List Text)
    → contract_loop (when b (lit "-device" ∷ v ∷ []) ++ rest)
      ≡ when b ((lit "device " <> without_the_vms v) ∷ []) ++ contract_loop rest
loop_when-device true v rest = loop-device v rest
loop_when-device false v rest = refl

loop_when-object :
    (s : Spec) (b : Bool) (v : Text) (rest : List Text)
    → contract_loop (when b (lit "-object" ∷ mem_object s ∷ lit "-device" ∷ v ∷ []) ++ rest)
      ≡ when b ((lit "device " <> without_the_vms v) ∷ []) ++ contract_loop rest
loop_when-object s true v rest = loop-object s v rest
loop_when-object s false v rest = refl

loop-devices :
    (s : Spec) (rest : List Text)
    → contract_loop (device_args s ++ rest) ≡ (
        (lit "device " <> without_the_vms (lit "vmgenid,guid=auto"))
          ∷ (lit "device " <> without_the_vms rng_device)
          ∷ (lit "device " <> without_the_vms balloon_device)
          ∷ when
              (not (is_zero s.vsock_cid))
              ((lit "device " <> without_the_vms (vsock_device s)) ∷ [])
        ++ (when
              (ltb_ℤ s.memory.size_mb s.memory.max_mb)
              ((lit "device " <> without_the_vms mem_device) ∷ [])
            ++ (when
                  (ltb_ℤ (pos 0) s.hotplug_disks)
                  ((lit "device " <> without_the_vms hotplug_device) ∷ [])
                ++ contract_loop rest)))
unfolding device_args
loop-devices s rest = simp (append_assoc, loop-device, loop_when-device, loop_when-object)

-- Where no NIC's MAC has a comma, the contract is the closed form: the id, the backend, the MAC, the
-- context id and the descriptor of every device are gone, and its model, its properties and its slot
-- are there.
pub contract_closed :
    (s : Spec) → All (λ n. Lacks b',' n.mac) s.nics → contract s ≡ machine_contract s
unfolding contract machine_contract nic_args
contract_closed s h = simp (
  loop-chipset,
  loop-devices,
  loop-nics 0 s.nics h,
  vsock_device-without_the_vms,
  constant_devices.0,
  constant_devices.1,
  constant_devices.2,
  constant_devices.3,
  constant_devices.4,
  append_assoc,
)
