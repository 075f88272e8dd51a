-- ===== src/Machine/Shape.antt =====
-- `Spec.Shape` of machine/machine.go and the arguments it is made of.
use spin_machine.Common.{Text, lit, ◌<>◌, Bool, not, ◌&&◌, ◌||◌, if◌then◌else◌, is_empty, text_eq}
use spin_machine.Common.Int.{ℤ, pos, ltb_ℤ, eq_ℤ, is_zero}
use spin_machine.Common.Numeral.{itoa}
use spin_machine.Machine.Types.{Spec, Shape}

-- `MachineType`.
unfoldable pub machine_type : Text
machine_type = lit "pc-q35-11.1"

-- `machineOpts`.
unfoldable pub machine_opts : Text
machine_opts = machine_type <> lit ",kernel-irqchip=on,hpet=off,acpi=on,sata=off,smbus=off"

-- `Spec.accel`.
unfoldable pub accel : Spec → Text
accel s = if is_empty s.accel then lit "kvm" else s.accel

-- `derivedFromHost`.
unfoldable pub derived_from_host : Text → Bool
derived_from_host model = text_eq model (lit "host") || text_eq model (lit "max")

-- The model of `Shape`: the one the spec names, or the accelerator's default.
unfoldable pub cpu_model : Spec → Text
cpu_model s =
    if is_empty s.cpu
    then if not (text_eq (accel s) (lit "kvm")) then lit "max" else lit "host"
    else s.cpu

-- The whole `-cpu` value: the model and the options that are the machine's.
unfoldable pub cpu_arg : Spec → Text
cpu_arg s =
    let cpu = cpu_model s in
    cpu
    <> (if derived_from_host cpu then lit ",migratable=on" else lit ",enforce=on")
    <> lit ",-vmx,-svm"

-- `smpArg`.
unfoldable pub smp_arg : ℤ → ℤ → Text
smp_arg boot_cpus max_cpus =
    if ltb_ℤ (pos 0) max_cpus && not (eq_ℤ max_cpus boot_cpus)
    then itoa boot_cpus <> lit ",maxcpus=" <> itoa max_cpus
    else itoa boot_cpus

-- `memoryArg`.
unfoldable pub memory_arg : ℤ → ℤ → Text
memory_arg size_mb max_mb =
    if ltb_ℤ size_mb max_mb
    then itoa size_mb <> lit ",maxmem=" <> itoa max_mb <> lit "M"
    else itoa size_mb

-- `Spec.Shape`.
unfoldable pub shape : Spec → Shape
shape s = record {
  machine = machine_opts;
  accel = accel s;
  cpu = cpu_arg s;
  smp = smp_arg s.boot_cpus s.max_cpus;
  memory = memory_arg s.memory.size_mb s.memory.max_mb;
}

-- `accelArg`.
unfoldable pub accel_arg : Text → ℤ → Text
accel_arg name kvm_fd_set =
    if is_zero kvm_fd_set then name else name <> lit ",device=/dev/fdset/" <> itoa kvm_fd_set
