-- ===== src/Machine/Types.antt =====
-- The data of machine/machine.go: a machine, its parts, and the fixed PCI slots.
use spin_machine.Common.{ℕ, ◌+◌, ◌-◌, Text, Bool, List}
use spin_machine.Common.Int.{ℤ}
use spin_machine.Cmdline.{Cmdline}

abbrev pub slot_vsock : ℕ
slot_vsock = 0x02

abbrev pub slot_rng : ℕ
slot_rng = 0x03

abbrev pub slot_balloon : ℕ
slot_balloon = 0x04

abbrev pub slot_disk_base : ℕ
slot_disk_base = 0x05

abbrev pub slot_disk_max : ℕ
slot_disk_max = 0x0f

abbrev pub slot_nic_base : ℕ
slot_nic_base = 0x10

abbrev pub slot_nic_max : ℕ
slot_nic_max = 0x19

abbrev pub slot_hotplug : ℕ
slot_hotplug = 0x1a

abbrev pub slot_mem : ℕ
slot_mem = 0x1e

abbrev pub max_disks : ℕ
max_disks = slot_disk_max - slot_disk_base + 1

abbrev pub max_nics : ℕ
max_nics = slot_nic_max - slot_nic_base + 1

abbrev pub max_hotplug_disks : ℕ
max_hotplug_disks = 256

-- `Image`: one image of a disk's chain.
pub record Image : Type 0 where
  pub fd_set : ℤ
  pub format : Text

-- `Disk`: a path or a chain of images, the top first.
pub record Disk : Type 0 where
  pub path : Text
  pub chain : List Image
  pub format : Text
  pub readonly : Bool
  pub serial : Text
  pub locking : Bool
  pub direct_over_backing : Bool

-- `FD`: a descriptor in the QEMU process.
pub record Fd : Type 0 where
  pub num : ℤ
  pub opaque : Text

pub record FdSet : Type 0 where
  pub id : ℤ
  pub fds : List Fd

pub record Nic : Type 0 where
  pub tap_fd : ℤ
  pub vhost_fd : ℤ
  pub mac : Text
  pub mtu : ℤ

pub record Memory : Type 0 where
  pub size_mb : ℤ
  pub max_mb : ℤ

pub record Monitor : Type 0 where
  pub socket : Text
  pub fd : ℤ

pub record Spec : Type 0 where
  pub qemu : Text
  pub kernel : Text
  pub initrd : Text
  pub firmware : Text
  pub bios : Text
  pub boot_cpus : ℤ
  pub max_cpus : ℤ
  pub memory : Memory
  pub cpu : Text
  pub accel : Text
  pub disks : List Disk
  pub nics : List Nic
  pub hotplug_disks : ℤ
  pub vsock_cid : ℤ
  pub vsock_fd : ℤ
  pub kvm_fd_set : ℤ
  pub monitors : List Monitor
  pub fd_sets : List FdSet
  pub serial_fd_set : ℤ
  pub serial : Text
  pub cmdline : Cmdline
  pub incoming : Text

-- The arguments that decide what machine a guest sees.
pub record Shape : Type 0 where
  pub machine : Text
  pub accel : Text
  pub cpu : Text
  pub smp : Text
  pub memory : Text
