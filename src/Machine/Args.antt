-- ===== src/Machine/Args.antt =====
-- The end of the command line and `Spec.Args` of machine/machine.go.
use mathlib.Core.List.{flat_map}
use spin_machine.Common.{
  ℕ, Text, lit, ◌<>◌, not, List, [], ◌∷◌, ◌++◌, Result, ok, Option, none, some, ◌>>=◌, is_empty,
  if◌then◌else◌,
}
use spin_machine.Common.Int.{ℤ, is_zero}
use spin_machine.Common.Numeral.{decimal, itoa}
use spin_machine.Cmdline.{when}
use spin_machine.Machine.Types.{Fd, FdSet, Monitor, Spec}
use spin_machine.Machine.Options.{qemu_opt}
use spin_machine.Machine.Shape.{shape, accel_arg}
use spin_machine.Machine.Validate.{SpecError, validate}
use spin_machine.Machine.Command.{
  hotplug_bus, bios, text_when, chipset_args, boot_args, device_args, each_args, disk_args,
  nic_args,
}

-- `appendConsole`.
unfoldable pub console_args : Spec → List Text
console_args s =
    if not (is_zero s.serial_fd_set)
    then lit "-chardev"
      ∷ (lit "file,id=serial0,path=/dev/fdset/" <> itoa s.serial_fd_set <> lit ",append=on")
      ∷ lit "-serial"
      ∷ lit "chardev:serial0"
      ∷ []
    else if not (is_empty s.serial)
    then lit "-serial" ∷ s.serial ∷ []
    else lit "-serial" ∷ lit "none" ∷ []

unfoldable pub monitor_id : ℕ → Text
monitor_id i = lit "qmp" <> decimal i

unfoldable pub socket_monitor : Monitor → Text
socket_monitor m = lit "unix:" <> qemu_opt m.socket <> lit ",server=on,wait=off"

-- One round of `appendMonitors`.
unfoldable pub one_monitor_args : ℕ → Monitor → List Text
unfolding socket_monitor monitor_id
one_monitor_args i m =
    if not (is_empty m.socket)
    then lit "-qmp" ∷ socket_monitor m ∷ []
    else lit "-chardev"
      ∷ (lit "socket,id=" <> monitor_id i <> lit ",fd=" <> itoa m.fd <> lit ",server=on,wait=off")
      ∷ lit "-object"
      ∷ (lit "monitor-qmp,id=mon-" <> monitor_id i <> lit ",chardev=" <> monitor_id i)
      ∷ []

-- `appendMonitors`.
unfoldable pub monitor_args : Spec → List Text
unfolding one_monitor_args
monitor_args s = each_args one_monitor_args 0 s.monitors

unfoldable pub add_fd : ℤ → Fd → Text
add_fd id fd =
    lit "fd="
    <> itoa fd.num
    <> lit ",set="
    <> itoa id
    <> text_when (not (is_empty fd.opaque)) (lit ",opaque=" <> qemu_opt fd.opaque)

-- The rounds of `appendFDSets`.
unfoldable pub one_fd_args : ℤ → Fd → List Text
one_fd_args id fd = lit "-add-fd" ∷ add_fd id fd ∷ []

unfoldable pub one_set_args : FdSet → List Text
unfolding flat_map one_fd_args
one_set_args set = flat_map (one_fd_args set.id) set.fds

-- `appendFDSets`.
unfoldable pub fd_set_args : Spec → List Text
unfolding flat_map one_set_args
fd_set_args s = flat_map one_set_args s.fd_sets

-- `appendIncoming`.
unfoldable pub incoming_args : Spec → List Text
incoming_args s = when (not (is_empty s.incoming)) (lit "-incoming" ∷ s.incoming ∷ [])

-- What `Args` starts with.
unfoldable pub head_args : Spec → List Text
head_args s =
    lit "-L"
    ∷ s.firmware
    ∷ lit "-bios"
    ∷ bios s
    ∷ lit "-nodefaults"
    ∷ lit "-nographic"
    ∷ lit "-sandbox"
    ∷ lit "on,obsolete=deny,elevateprivileges=deny,spawn=deny,resourcecontrol=deny"
    ∷ lit "-machine"
    ∷ (shape s).machine
    ∷ lit "-accel"
    ∷ accel_arg (shape s).accel s.kvm_fd_set
    ∷ lit "-cpu"
    ∷ (shape s).cpu
    ∷ lit "-smp"
    ∷ (shape s).smp
    ∷ lit "-m"
    ∷ (shape s).memory
    ∷ []

-- The whole command line of a spec that passed `validate`.
unfoldable pub command_line : Spec → List Text
command_line s =
    head_args s
    ++ (chipset_args
        ++ (boot_args s
            ++ (device_args s
                ++ (disk_args s
                    ++ (nic_args s
                        ++ (console_args s
                            ++ (monitor_args s ++ (fd_set_args s ++ incoming_args s))))))))

-- `Spec.Args`.
unfoldable pub args : Spec → Result SpecError (List Text)
args s = validate s >>= λ _. ok (command_line s)

-- `HotplugDisk`: the `device_add` arguments, `lun` 0. An empty serial is left out.
pub record DeviceAdd : Type 0 where
  pub driver : Text
  pub id : Text
  pub drive : Text
  pub bus : Text
  pub scsi_id : ℤ
  pub lun : ℕ
  pub serial : Option Text

unfoldable pub hotplug_disk : ℤ → Text → Text → Text → DeviceAdd
hotplug_disk i id node serial = record {
  driver = lit "scsi-hd";
  id = id;
  drive = node;
  bus = hotplug_bus;
  scsi_id = i;
  lun = 0;
  serial = if is_empty serial then none else some serial;
}
