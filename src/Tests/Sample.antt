-- ===== src/Tests/Sample.antt =====
-- Machines of machine/machine.go to try the model on, and runs of it.
use spin_machine.Common.{lit, ◌≡◌, refl, [], ◌∷◌, true, false, ok}
use spin_machine.Common.Int.{pos}
use spin_machine.Cmdline
use spin_machine.Cmdline.{Cmdline}
use spin_machine.Machine.Types.{Disk, Nic, Spec}
use spin_machine.Machine.Validate.{
  validate, validate_head, validate_monitor, fd_sets, validate_descriptors, validate_nic,
  validate_disk, validate_image, disk_formats,
}
use spin_machine.Machine.Mac.{is_mac48}
use spin_machine.Common.{switch, each, contains, text_eq, has_byte, join}
use spin_machine.Common.Numeral.{itoa}
use spin_machine.Machine.Args.{args, command_line}

abbrev pub line : Cmdline
line = record {
  console = lit "ttyS0";
  quiet = true;
  log_level = pos 3;
  init = lit "/sbin/init";
  root = lit "/dev/vda";
  root_readonly = false;
  extra = lit "mitigations=off nokaslr" ∷ [];
}

abbrev pub overlay : Disk
overlay = record {
  path = lit "/vm/a,readonly=off";
  chain = [];
  format = lit "qcow2";
  readonly = false;
  serial = lit "root,1";
  locking = true;
  direct_over_backing = true;
}

abbrev pub layered : Disk
layered = record {
  path = [];
  chain =
      record { fd_set = pos 1; format = lit "qcow2" }
      ∷ record { fd_set = pos 2; format = lit "raw" }
      ∷ [];
  format = [];
  readonly = false;
  serial = [];
  locking = true;
  direct_over_backing = false;
}

abbrev pub nic : Nic
nic = record { tap_fd = pos 5; vhost_fd = pos 6; mac = lit "52:54:00:12:34:56"; mtu = pos 1450 }

abbrev pub sample : Spec
sample = record {
  qemu = lit "/rel/bin/qemu-system-x86_64";
  kernel = lit "/rel/kernel/vmlinux";
  initrd = [];
  firmware = lit "/rel/qemu";
  bios = [];
  boot_cpus = pos 2;
  max_cpus = pos 4;
  memory = record { size_mb = pos 1024; max_mb = pos 4096 };
  cpu = [];
  accel = [];
  disks = overlay ∷ layered ∷ [];
  nics = nic ∷ [];
  hotplug_disks = pos 4;
  vsock_cid = pos 7;
  vsock_fd = pos 8;
  kvm_fd_set = pos 3;
  monitors =
      record { socket = lit "/run/q,mp"; fd = pos 0 } ∷ record { socket = []; fd = pos 9 } ∷ [];
  fd_sets =
      record { id = pos 1; fds = record { num = pos 10; opaque = lit "/a,b" } ∷ [] }
      ∷ record { id = pos 2; fds = record { num = pos 11; opaque = [] } ∷ [] }
      ∷ record { id = pos 3; fds = record { num = pos 12; opaque = [] } ∷ [] }
      ∷ [];
  serial_fd_set = pos 0;
  serial = lit "file:/console.log";
  cmdline = line;
  incoming = [];
}

pub line_passes : Cmdline.validate line ≡ ok tt
unfolding Cmdline.validate Cmdline.check_parameter Cmdline.check_extra Cmdline.render Cmdline.parts
    Cmdline.fixed_parts Cmdline.fields Cmdline.has_space Cmdline.is_space each contains text_eq
    has_byte join itoa lit
line_passes = refl

pub sample_passes : validate sample ≡ ok tt
unfolding validate validate_head validate_monitor fd_sets validate_descriptors validate_nic
    validate_disk validate_image disk_formats is_mac48 switch each contains text_eq has_byte lit
    join itoa Cmdline.validate Cmdline.check_parameter Cmdline.check_extra Cmdline.render
    Cmdline.parts Cmdline.fixed_parts Cmdline.fields Cmdline.has_space Cmdline.is_space
sample_passes = refl

pub sample-args : args sample ≡ ok (command_line sample)
unfolding args
sample-args = rw sample_passes
