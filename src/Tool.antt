-- ===== src/Tool.antt =====
-- The machine that the flags of boot, args and fingerprint describe (cmd/spin-machine/main.go).
pub mod Machines
pub mod Reports
pub mod Commands
use spin_machine.Common.{
  ℕ, Text, lit, Bool, true, false, not, ◌&&◌, List, [], ◌∷◌, ◌++◌, Result, ok, err, ◌>>=◌, is_empty,
  text_eq, if◌then◌else◌,
}
use spin_machine.Common.Int.{ℤ, pos}
use spin_machine.Cmdline.{Cmdline, default_cmdline, profiling}
use spin_machine.Machine.Types.{Disk, Monitor, Spec}
use spin_machine.Machine.Validate.{SpecError}
use spin_machine.Machine.Args
use spin_machine.Release
use spin_machine.Release.{Release, ReleaseError, Files, open_release, qemu_tcg, rootfs}

-- `machineFlags`.
pub record MachineFlags : Type 0 where
  pub release : Text
  pub qemu : Text
  pub kernel : Text
  pub initrd : Text
  pub firmware : Text
  pub bios : Text
  pub disk : Text
  pub disk_format : Text
  pub readonly : Bool
  pub serial : Text
  pub direct_over_backing : Bool
  pub memory_mb : ℤ
  pub max_mem_mb : ℤ
  pub cpu_model : Text
  pub accel : Text
  pub cpus : ℤ
  pub max_cpus : ℤ
  pub hotplug_disks : ℤ
  pub vsock_cid : ℤ
  pub qmp : Text
  pub console : Text
  pub incoming : Text
  pub init : Text
  pub root : Text
  pub profile : Bool
  pub extra : Text

-- The defaults that `machineFlags.register` sets.
abbrev pub default_flags : MachineFlags
default_flags = record {
  release = lit "_output";
  qemu = [];
  kernel = [];
  initrd = [];
  firmware = [];
  bios = [];
  disk = [];
  disk_format = lit "qcow2";
  readonly = false;
  serial = [];
  direct_over_backing = false;
  memory_mb = pos 2048;
  max_mem_mb = pos 0;
  cpu_model = [];
  accel = [];
  cpus = pos 2;
  max_cpus = pos 0;
  hotplug_disks = pos 0;
  vsock_cid = pos 0;
  qmp = [];
  console = lit "mon:stdio";
  incoming = [];
  init = [];
  root = lit "/dev/vda";
  profile = false;
  extra = [];
}

-- `scratch`.
abbrev pub scratch : MachineFlags → Bool
scratch o = is_empty o.disk

-- `or`.
abbrev pub or_text : Text → Text → Text
or_text [] fallback = fallback
or_text (c ∷ v) fallback = c ∷ v

-- The QEMU of a release, by whether the TCG build is wanted.
abbrev pub release_qemu : Bool → Files → Release → Result ReleaseError Text
release_qemu true files r = qemu_tcg files r
release_qemu false files r = ok (Release.qemu r)

-- The path of the disk, by whether it is the base image.
abbrev pub disk_path : Bool → Files → Release → Text → Result ReleaseError Text
disk_path true files r disk = rootfs files r
disk_path false files r disk = ok disk

-- `disk != "-"`.
abbrev pub has_disk : Text → Bool
has_disk disk = not (text_eq disk (lit "-"))

-- The disk of the machine.
abbrev pub disk_of : MachineFlags → Text → Disk
disk_of o disk = record {
  path = disk;
  chain = [];
  format = o.disk_format;
  readonly = o.readonly;
  serial = o.serial;
  locking = false;
  direct_over_backing = o.direct_over_backing;
}

-- The kernel command line, before profiling.
abbrev pub root_line : MachineFlags → Text → Cmdline
root_line o disk = record default_cmdline {
  init = o.init;
  root = if has_disk disk then o.root else [];
  root_readonly = if has_disk disk then o.readonly else false;
}

abbrev pub profiled : Bool → Cmdline → Cmdline
profiled true c = profiling c
profiled false c = c

-- `strings.Fields` of the standard library is `words`.
module _ (words : Text → List Text) (files : Files) where
  -- The kernel command line.
  abbrev pub line_of : MachineFlags → Text → Cmdline
  line_of o disk =
      let c = profiled o.profile (root_line o disk) in
      record c {
        console = if is_empty o.console then [] else c.console;
        extra = if is_empty o.extra then c.extra else c.extra ++ words o.extra;
      }

  -- The spec, of a release, its QEMU and the path of the disk.
  abbrev pub spec_of : MachineFlags → Release → Text → Text → Spec
  spec_of o r qemu disk = record (Release.spec r) {
    qemu = or_text o.qemu qemu;
    kernel = or_text o.kernel (Release.kernel r);
    initrd = o.initrd;
    firmware = or_text o.firmware (Release.firmware r);
    bios = o.bios;
    boot_cpus = o.cpus;
    max_cpus = o.max_cpus;
    memory = record { size_mb = o.memory_mb; max_mb = o.max_mem_mb };
    cpu = o.cpu_model;
    accel = o.accel;
    disks = if has_disk disk then disk_of o disk ∷ [] else [];
    hotplug_disks = o.hotplug_disks;
    vsock_cid = o.vsock_cid;
    monitors = if is_empty o.qmp then [] else record { socket = o.qmp; fd = pos 0 } ∷ [];
    serial = o.console;
    cmdline = line_of o disk;
    incoming = o.incoming;
  }

  -- `machineFlags.spec`.
  unfoldable pub spec : MachineFlags → Result ReleaseError Spec
  spec o = do
    r ← open_release files o.release
    qemu ← release_qemu (text_eq o.accel (lit "tcg") && is_empty o.qemu) files r
    disk ← disk_path (scratch o) files r o.disk
    ok (spec_of o r qemu disk)

-- The arguments of a machine, with `-snapshot` when its disk is the base image.
abbrev pub with_snapshot : Bool → List Text → List Text
with_snapshot true args = args ++ lit "-snapshot" ∷ []
with_snapshot false args = args

-- `qemuArgs`.
unfoldable pub qemu_args : Spec → Bool → Result SpecError (List Text)
qemu_args s scratch = do
  args ← Args.args s
  ok (with_snapshot (scratch && not (is_empty s.disks)) args)
