-- ===== src/Tests/Machines.antt =====
-- The theorems on whole machines at the sample, and at one that differs in what is one VM's.
use spin_machine.Common.{
  ℕ, ◌≤◌, Text, lit, ◌≡◌, refl, ap, ◌↔◌, List, [], ◌∷◌, ◌++◌, map, not, ◌&&◌, is_empty, true, false,
  ok, arith, Lacks, All,
}
use spin_machine.Common.Int.{pos, ltb_ℤ, is_zero}
use spin_machine.Cmdline.{when}
use spin_machine.Machine.Types.{Spec}
use spin_machine.Machine.Shape.{shape}
use spin_machine.Machine.Validate.{validate}
use spin_machine.Machine.Validate.Whole.{IsValid, validate_iff}
use spin_machine.Machine.Command.{
  rng_device, balloon_device, vsock_device, mem_device, hotplug_device,
}
use spin_machine.Machine.Args.{command_line}
use spin_machine.Machine.Contract.{contract}
use spin_machine.Machine.Contract.Closed.{machine_contract, contract_closed}
use spin_machine.Machine.Slots.{address, addresses, device_values}
use spin_machine.Machine.Slots.Devices.{disk_devices, nic_devices, device_values-command_line}
use spin_machine.Machine.Slots.Layout.{slots, Distinct}
use spin_machine.Machine.Slots.Distinct.{args-Distinct}
use spin_machine.Machine.Fingerprint.{fingerprint, stream, shows_host}
use spin_machine.Machine.Fingerprint.Machine.{entries_injective}
use spin_machine.Machine.Fingerprint.Same.{
  IsSameMachine, contract_same, entries_same, fingerprint_same,
}
use mathlib.Core.List.{flat_map, reverse}
use spin_machine.Machine.Chain.{chain_nodes}
use spin_machine.Machine.Chain.Names.{name}
use spin_machine.Machine.Chain.Opens.{opens, args-opens}
use spin_machine.Machine.Chain.Nodes.{nodes, pair_values, blockdev_values}
use spin_machine.Machine.Chain.Writable.{writable, chain_nodes-writable}
use spin_machine.Machine.Contract.Hardware.{announced, has_serial, contract_hardware}
use spin_machine.Tests.Sample.{sample, sample-args, nic, overlay, layered}

args-Distinct_example :
    (addresses (command_line sample) ≡ map address (slots sample))
    × Distinct (slots sample)
    × All (λ x. (2 ≤ x) × (x ≤ 0x1e)) (slots sample)
args-Distinct_example = args-Distinct sample sample-args

validate_iff_example : (validate sample ≡ ok tt) ↔ IsValid sample
validate_iff_example = validate_iff sample

-- The sample on another host: other files, disks, descriptors and names.
abbrev moved : Spec
moved = record sample {
  qemu = lit "/new/bin/qemu-system-x86_64";
  kernel = lit "/new/kernel/vmlinux";
  disks = overlay ∷ [];
  nics = record nic { tap_fd = pos 30; mac = lit "52:54:00:00:00:01" } ∷ [];
  hotplug_disks = pos 1;
  vsock_cid = pos 99;
  monitors = [];
}

sample-Lacks : All (λ n. Lacks b',' n.mac) sample.nics
unfolding lit
sample-Lacks = omega arith

moved-Lacks : All (λ n. Lacks b',' n.mac) moved.nics
unfolding lit
moved-Lacks = omega arith

moved-IsSameMachine : IsSameMachine sample moved
moved-IsSameMachine = record {
  boot_cpus = refl;
  max_cpus = refl;
  memory = refl;
  cpu = refl;
  accel = refl;
  has_vsock = refl;
  takes_disks = refl;
  mtus = refl;
  has_serial = refl;
}

entries_injective_example :
    (◌≡◌ {A = ℕ} 5 5)
    × (shape sample ≡ shape moved)
    × (contract sample ≡ contract moved)
    × (shows_host sample ≡ shows_host moved)
    × (shows_host sample ≡ true → lit "EPYC" ≡ lit "EPYC")
entries_injective_example = entries_injective sample moved 5 5 (lit "EPYC") (lit "EPYC") (
    ap (λ (es : Text → List (Text × Text)). stream (es (lit "EPYC")))
      (entries_same sample moved moved-IsSameMachine
        (contract_same sample moved moved-IsSameMachine sample-Lacks moved-Lacks) 5))

fingerprint_same_example :
    fingerprint (λ dir name. ok 65536) (λ s. s) sample (ok (lit "EPYC"))
    ≡ fingerprint (λ dir name. ok 65536) (λ s. s) moved (ok (lit "EPYC"))
fingerprint_same_example =
    fingerprint_same sample moved moved-IsSameMachine (λ dir name. ok 65536) (λ s. s)
      (ok (lit "EPYC")) sample-Lacks moved-Lacks refl

contract_hardware_example :
    (is_zero sample.vsock_cid ≡ is_zero moved.vsock_cid)
    × (ltb_ℤ sample.memory.size_mb sample.memory.max_mb
        ≡ ltb_ℤ moved.memory.size_mb moved.memory.max_mb)
    × (ltb_ℤ (pos 0) sample.hotplug_disks ≡ ltb_ℤ (pos 0) moved.hotplug_disks)
    × (announced sample.nics ≡ announced moved.nics)
    × (has_serial sample ≡ has_serial moved)
contract_hardware_example =
    contract_hardware sample moved sample-Lacks moved-Lacks
      (contract_same sample moved moved-IsSameMachine sample-Lacks moved-Lacks)

contract_closed_example : contract sample ≡ machine_contract sample
contract_closed_example = contract_closed sample sample-Lacks

device_values-command_line_example : device_values (command_line sample) ≡ (
    lit "vmgenid,guid=auto"
      ∷ rng_device
      ∷ balloon_device
      ∷ when (not (is_zero sample.vsock_cid)) (vsock_device sample ∷ [])
    ++ (when (ltb_ℤ sample.memory.size_mb sample.memory.max_mb) (mem_device ∷ [])
        ++ (when (ltb_ℤ (pos 0) sample.hotplug_disks) (hotplug_device ∷ [])
            ++ (disk_devices 0 sample.disks ++ (nic_devices 0 sample.nics ++ [])))))
device_values-command_line_example = device_values-command_line sample

args-opens_example :
    (blockdev_values (command_line sample) ≡ flat_map pair_values (nodes 0 sample.disks))
    × (opens [] (nodes 0 sample.disks) ≡ true)
args-opens_example = args-opens sample sample-args

chain_nodes-writable_example :
    writable (reverse (chain_nodes layered 1 0 layered.chain))
    ≡ when
        (not layered.readonly && not (is_empty layered.chain))
        (name 1 0 true ∷ name 1 0 false ∷ [])
chain_nodes-writable_example = chain_nodes-writable layered 1
