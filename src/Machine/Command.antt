-- ===== src/Machine/Command.antt =====
-- The QEMU command line: `Spec.Args` of machine/machine.go. Each `append...` function of the source
-- is here the list that it appends.
use spin_machine.Common.{
  ℕ, suc, ◌+◌, Text, lit, ◌<>◌, Bool, not, List, [], ◌∷◌, ◌++◌, is_empty, if◌then◌else◌,
}
use spin_machine.Common.Int.{pos, ltb_ℤ, is_zero, sub_int}
use spin_machine.Common.Numeral.{decimal, hex, itoa}
use spin_machine.Cmdline.{when, render}
use spin_machine.Machine.Types.{
  Disk, Nic, Spec, slot_vsock, slot_rng, slot_balloon, slot_disk_base, slot_nic_base, slot_hotplug,
  slot_mem,
}
use spin_machine.Machine.Options.{qemu_opt}
use spin_machine.Machine.Chain.{chain_args}

-- `hotplugController`, `hotplugBus`, `virtioModern`, `memGrowthID`, `VirtioMemID`, `DefaultBIOS`.
unfoldable pub hotplug_controller : Text
hotplug_controller = lit "scsi0"

unfoldable pub hotplug_bus : Text
unfolding hotplug_controller
hotplug_bus = hotplug_controller <> lit ".0"

unfoldable pub virtio_modern : Text
virtio_modern = lit "disable-legacy=on"

unfoldable pub mem_growth_id : Text
mem_growth_id = lit "mem.growth"

unfoldable pub virtio_mem_id : Text
virtio_mem_id = lit "vmem0"

unfoldable pub default_bios : Text
default_bios = lit "qboot.bin"

-- `Spec.bios`.
unfoldable pub bios : Spec → Text
bios s = if is_empty s.bios then default_bios else s.bios

-- What an `if` appends to a text.
abbrev pub text_when : Bool → Text → Text
text_when b t = if b then t else []

-- `,disable-legacy=on,addr=0x...`, which ends every virtio device's fixed part.
abbrev pub at_slot : ℕ → Text
at_slot slot = virtio_modern <> lit ",addr=0x" <> hex slot

-- `appendChipset`.
unfoldable pub chipset_args : List Text
chipset_args =
    lit "-global"
    ∷ lit "ICH9-LPC.disable_s3=1"
    ∷ lit "-global"
    ∷ lit "ICH9-LPC.disable_s4=1"
    ∷ lit "-global"
    ∷ lit "ICH9-LPC.acpi-pci-hotplug-with-bridge-support=off"
    ∷ lit "-no-reboot"
    ∷ []

-- `appendBoot`.
unfoldable pub boot_args : Spec → List Text
boot_args s =
    lit "-kernel" ∷ s.kernel ∷ when (not (is_empty s.initrd)) (lit "-initrd" ∷ s.initrd ∷ [])
    ++ (lit "-append" ∷ render s.cmdline ∷ [])

-- The devices of `appendDevices`, one definition each.
unfoldable pub rng_device : Text
rng_device = lit "virtio-rng-pci," <> at_slot slot_rng

unfoldable pub balloon_device : Text
balloon_device =
    lit "virtio-balloon-pci,free-page-reporting=on,deflate-on-oom=on," <> at_slot slot_balloon

unfoldable pub vsock_device : Spec → Text
vsock_device s =
    lit "vhost-vsock-pci,guest-cid="
    <> itoa s.vsock_cid
    <> lit ","
    <> at_slot slot_vsock
    <> text_when (not (is_zero s.vsock_fd)) (lit ",vhostfd=" <> itoa s.vsock_fd)

unfoldable pub mem_object : Spec → Text
mem_object s =
    lit "memory-backend-ram,id="
    <> mem_growth_id
    <> lit ",size="
    <> itoa (sub_int s.memory.max_mb s.memory.size_mb)
    <> lit "M"

unfoldable pub mem_device : Text
mem_device =
    lit "virtio-mem-pci,id="
    <> virtio_mem_id
    <> lit ",memdev="
    <> mem_growth_id
    <> lit ",requested-size=0,"
    <> at_slot slot_mem

unfoldable pub hotplug_device : Text
hotplug_device = lit "virtio-scsi-pci,id=" <> hotplug_controller <> lit "," <> at_slot slot_hotplug

-- `appendDevices`.
unfoldable pub device_args : Spec → List Text
device_args s =
    lit "-device"
      ∷ lit "vmgenid,guid=auto"
      ∷ lit "-device"
      ∷ rng_device
      ∷ lit "-device"
      ∷ balloon_device
      ∷ when (not (is_zero s.vsock_cid)) (lit "-device" ∷ vsock_device s ∷ [])
    ++ (when (ltb_ℤ s.memory.size_mb s.memory.max_mb)
          (lit "-object" ∷ mem_object s ∷ lit "-device" ∷ mem_device ∷ [])
        ++ when (ltb_ℤ (pos 0) s.hotplug_disks) (lit "-device" ∷ hotplug_device ∷ []))

-- `driveArg`.
unfoldable pub drive_arg : Disk → ℕ → Text
drive_arg d i =
    lit "file="
    <> qemu_opt d.path
    <> lit ",if=none,id=blk"
    <> decimal i
    <> lit ",format="
    <> d.format
    <> lit ",aio=io_uring,discard=unmap,file.drop-cache=off"
    <> text_when d.direct_over_backing (lit ",cache.direct=on,backing.cache.direct=off")
    <> text_when d.readonly (lit ",readonly=on")
    <> text_when d.locking (lit ",file.locking=on")

unfoldable pub disk_device : Disk → ℕ → Text
disk_device d i =
    lit "virtio-blk-pci,drive=blk"
    <> decimal i
    <> lit ","
    <> at_slot (slot_disk_base + i)
    <> text_when (not (is_empty d.serial)) (lit ",serial=" <> qemu_opt d.serial)

-- One round of `appendDisks`.
unfoldable pub one_disk_args : ℕ → Disk → List Text
one_disk_args i d =
    (if not (is_empty d.chain) then chain_args d i else lit "-drive" ∷ drive_arg d i ∷ [])
    ++ (lit "-device" ∷ disk_device d i ∷ [])

-- `for i, x := range xs`, appending a list each round.
unfoldable pub each_args {ℓ} : {A : Type ℓ} → (ℕ → A → List Text) → ℕ → List A → List Text
each_args f i [] = []
each_args f i (x ∷ xs) = f i x ++ each_args f (suc i) xs

-- `appendDisks`.
unfoldable pub disk_args : Spec → List Text
disk_args s = each_args one_disk_args 0 s.disks

unfoldable pub nic_device : ℕ → Nic → Text
nic_device i n =
    lit "virtio-net-pci,netdev=net"
    <> decimal i
    <> lit ",mac="
    <> n.mac
    <> lit ",romfile=,"
    <> at_slot (slot_nic_base + i)
    <> text_when (ltb_ℤ (pos 0) n.mtu) (lit ",host_mtu=" <> itoa n.mtu)

unfoldable pub netdev : ℕ → Nic → Text
netdev i n =
    lit "tap,id=net"
    <> decimal i
    <> lit ",fd="
    <> itoa n.tap_fd
    <> lit ",vhost=on"
    <> text_when (not (is_zero n.vhost_fd)) (lit ",vhostfd=" <> itoa n.vhost_fd)

-- One round of `appendNICs`.
unfoldable pub one_nic_args : ℕ → Nic → List Text
one_nic_args i n = lit "-netdev" ∷ netdev i n ∷ lit "-device" ∷ nic_device i n ∷ []

-- `appendNICs`.
unfoldable pub nic_args : Spec → List Text
nic_args s = each_args one_nic_args 0 s.nics
