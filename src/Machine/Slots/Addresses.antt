-- ===== src/Machine/Slots/Addresses.antt =====
-- The address of each device of machine/machine.go.
use spin_machine.Common.{
  ℕ, ◌+◌, Text, lit, ◌<>◌, ◌≡◌, refl, List, [], ◌∷◌, arith, Bool, true, false, not, is_empty,
  Bool-cases, inl, inr, Lacks,
}
use spin_machine.Common.Int.{ℤ, pos, is_zero, ltb_ℤ}
use spin_machine.Common.Numeral.{decimal, hex, itoa, decimal-Lacks, hex-Lacks, itoa-Lacks}
use spin_machine.Cmdline.{when}
use spin_machine.Machine.Types.{
  Spec, Disk, Nic, slot_vsock, slot_rng, slot_balloon, slot_disk_base, slot_nic_base, slot_hotplug,
  slot_mem,
}
use spin_machine.Machine.Options.{
  comma, options, options_from, options_lem, options_from-Lacks, options_from_last,
}
use spin_machine.Machine.Command.{
  rng_device, balloon_device, vsock_device, mem_device, hotplug_device, disk_device, nic_device,
  virtio_modern, text_when, hotplug_controller, virtio_mem_id, mem_growth_id,
}
use spin_machine.Machine.Values.{options-disk_device}
use spin_machine.Machine.Slots.{address, address_options}

abbrev pub address_of : Text → List Text
address_of v = address_options (options v)

pub address_of-disk :
    (d : Disk) (i : ℕ) → address_of (disk_device d i) ≡ address (slot_disk_base + i) ∷ []
address_of-disk d i = rw options-disk_device (serial_case (is_empty d.serial))
  where
    serial_case :
        (b : Bool)
        → address_options (
            lit "virtio-blk-pci"
            ∷ (lit "drive=blk" <> decimal i)
            ∷ lit "disable-legacy=on"
            ∷ (lit "addr=0x" <> hex (slot_disk_base + i))
            ∷ when (not b) ((lit "serial=" <> d.serial) ∷ []))
          ≡ address (slot_disk_base + i) ∷ []
    serial_case true = unfold address_options address lit in refl
    serial_case false = unfold address_options address lit in refl

nic_fixed :
    (n mac slot rest : Text)
    → Lacks comma n
    → Lacks comma mac
    → Lacks comma slot
    → options_from [] (
        lit "virtio-net-pci,netdev=net"
        <> n
        <> lit ",mac="
        <> mac
        <> lit ",romfile=,"
        <> (virtio_modern <> lit ",addr=0x" <> slot)
        <> rest)
      ≡ lit "virtio-net-pci"
        ∷ (lit "netdev=net" <> n)
        ∷ (lit "mac=" <> mac)
        ∷ lit "romfile="
        ∷ lit "disable-legacy=on"
        ∷ options_from (lit "addr=0x" <> slot) rest
unfolding options_from lit virtio_modern
nic_fixed n mac slot rest h k l =
    rw (options_from-Lacks _ n _ h, options_from-Lacks _ mac _ k, options_from-Lacks _ slot _ l)

nic_mtu :
    (cur : Text) (b : Bool) (mtu : ℤ)
    → options_from cur (text_when b (lit ",host_mtu=" <> itoa mtu))
      ≡ cur ∷ when b ((lit "host_mtu=" <> itoa mtu) ∷ [])
unfolding options_from lit
nic_mtu cur true mtu = rw (options_from_last _ (itoa mtu) (itoa-Lacks comma mtu (omega arith)))
nic_mtu cur false mtu = refl

-- Where a NIC's MAC has no comma, its device's options are these: the backend, the MAC, the slot of
-- its position and, where it announces one, the MTU.
pub options-nic_device :
    (i : ℕ) (n : Nic)
    → Lacks comma n.mac
    → options (nic_device i n)
      ≡ lit "virtio-net-pci"
        ∷ (lit "netdev=net" <> decimal i)
        ∷ (lit "mac=" <> n.mac)
        ∷ lit "romfile="
        ∷ lit "disable-legacy=on"
        ∷ (lit "addr=0x" <> hex (slot_nic_base + i))
        ∷ when (ltb_ℤ (pos 0) n.mtu) ((lit "host_mtu=" <> itoa n.mtu) ∷ [])
unfolding nic_device
options-nic_device i n h = rw (
  options_lem,
  nic_fixed (decimal i) n.mac (hex (slot_nic_base + i)) _ (decimal-Lacks comma i (omega arith)) h
      (hex-Lacks comma _ (omega arith)),
  nic_mtu _ (ltb_ℤ (pos 0) n.mtu) n.mtu,
)

pub address_of-nic :
    (i : ℕ) (n : Nic)
    → Lacks comma n.mac
    → address_of (nic_device i n) ≡ address (slot_nic_base + i) ∷ []
address_of-nic i n h = rw (options-nic_device i n h) (mtu_case (ltb_ℤ (pos 0) n.mtu))
  where
    mtu_case :
        (b : Bool)
        → address_options (
            lit "virtio-net-pci"
            ∷ (lit "netdev=net" <> decimal i)
            ∷ (lit "mac=" <> n.mac)
            ∷ lit "romfile="
            ∷ lit "disable-legacy=on"
            ∷ (lit "addr=0x" <> hex (slot_nic_base + i))
            ∷ when b ((lit "host_mtu=" <> itoa n.mtu) ∷ []))
          ≡ address (slot_nic_base + i) ∷ []
    mtu_case true = unfold address_options address lit in refl
    mtu_case false = unfold address_options address lit in refl

pub constant_addresses :
    (address_of (lit "vmgenid,guid=auto") ≡ [])
    × (address_of rng_device ≡ address slot_rng ∷ [])
    × (address_of balloon_device ≡ address slot_balloon ∷ [])
    × (address_of mem_device ≡ address slot_mem ∷ [])
    × (address_of hotplug_device ≡ address slot_hotplug ∷ [])
unfolding address_options options address rng_device balloon_device mem_device mem_growth_id
    virtio_mem_id hotplug_device hotplug_controller virtio_modern lit hex
constant_addresses = (refl, refl, refl, refl, refl)

pub address_of-vsock : (s : Spec) → address_of (vsock_device s) ≡ address slot_vsock ∷ []
unfolding address_options options options_from address vsock_device virtio_modern lit hex
address_of-vsock s = elim (Bool-cases (is_zero s.vsock_fd)) [
  | inl e ↦ rw (e, options_from-Lacks _ (itoa s.vsock_cid) _ (itoa-Lacks comma _ (omega arith)))
  | inr e ↦ rw (
    e,
    options_from-Lacks _ (itoa s.vsock_cid) _ (itoa-Lacks comma _ (omega arith)),
    options_from_last _ (itoa s.vsock_fd) (itoa-Lacks comma _ (omega arith)),
  )
]
