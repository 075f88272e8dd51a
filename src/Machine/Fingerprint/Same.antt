-- ===== src/Machine/Fingerprint/Same.antt =====
-- Specs that differ only in what is one VM's have one fingerprint (machine/machine.go).
use spin_machine.Common.{
  ℕ, suc, Text, ◌≡◌, refl, sym, ◌∙◌, List, [], ◌∷◌, Lacks, All, ◌||◌, not, is_empty, Result,
}
use mathlib.Core.Path.{fun_ext}
use spin_machine.Common.Int.{ℤ, pos, ltb_ℤ, is_zero}
use spin_machine.Machine.Types.{Spec, Nic}
use spin_machine.Machine.Shape.{shape, accel, cpu_arg, cpu_model}
use spin_machine.Machine.Command.{bios}
use spin_machine.Machine.Contract.{contract}
use spin_machine.Machine.Contract.Closed.{
  machine_contract, contract_closed, nics_contract, nic_contract,
}
use spin_machine.Machine.Fingerprint.{entries, machine_entries, shows_host, fingerprint}
use spin_machine.Machine.Fingerprint.Stream.{cons_injective}

abbrev announced : List Nic → List ℤ
announced [] = []
announced (n ∷ ns) = n.mtu ∷ announced ns

-- What of a spec the hardware is made of, and nothing of what is one VM's: no path, no disk, no
-- descriptor, no monitor, no MAC, no context id, no count of later disks, no command line.
pub record IsSameMachine (s t : Spec) : Type 0 where
  pub boot_cpus : s.boot_cpus ≡ t.boot_cpus
  pub max_cpus : s.max_cpus ≡ t.max_cpus
  pub memory : s.memory ≡ t.memory
  pub cpu : s.cpu ≡ t.cpu
  pub accel : s.accel ≡ t.accel
  pub has_vsock : is_zero s.vsock_cid ≡ is_zero t.vsock_cid
  pub takes_disks : ltb_ℤ (pos 0) s.hotplug_disks ≡ ltb_ℤ (pos 0) t.hotplug_disks
  pub mtus : announced s.nics ≡ announced t.nics
  pub has_serial :
      (not (is_empty s.serial) || not (is_zero s.serial_fd_set))
      ≡ (not (is_empty t.serial) || not (is_zero t.serial_fd_set))

nics_contract_congr :
    (i : ℕ) (ms ns : List Nic)
    → announced ms ≡ announced ns
    → nics_contract i ms ≡ nics_contract i ns
unfolding nics_contract nic_contract
nics_contract_congr i [] [] h = refl
nics_contract_congr i [] (n ∷ ns) h = cc
nics_contract_congr i (m ∷ ms) [] h = cc
nics_contract_congr i (m ∷ ms) (n ∷ ns) h =
    let (mtu, rest) = cons_injective h in rw (mtu, nics_contract_congr (suc i) ms ns rest)

module _ (s t : Spec) (same : IsSameMachine s t) where
  shape_same : shape s ≡ shape t
  unfolding shape accel cpu_arg cpu_model
  shape_same = cc (same.boot_cpus, same.max_cpus, same.memory, same.cpu, same.accel)

  closed_same : machine_contract s ≡ machine_contract t
  unfolding machine_contract
  closed_same = simp (
    same.memory,
    same.has_vsock,
    same.takes_disks,
    same.has_serial,
    nics_contract_congr 0 s.nics t.nics same.mtus,
  )

  pub contract_same :
      All (λ n. Lacks b',' n.mac) s.nics
      → All (λ n. Lacks b',' n.mac) t.nics
      → contract s ≡ contract t
  contract_same h h' = contract_closed s h ∙ closed_same ∙ sym (contract_closed t h')

  shows_same : shows_host s ≡ shows_host t
  unfolding shows_host
  shows_same = rw shape_same

  pub entries_same : contract s ≡ contract t → (n : ℕ) → entries s n ≡ entries t n
  unfolding entries machine_entries
  entries_same e n = fun_ext λ host. cc (shape_same, shows_same, e)

  -- The fingerprint of two specs of the same machine is one, whatever the rest of each holds, where
  -- no MAC of either has a comma and the firmware files that they name have one size.
  pub fingerprint_same :
      (file_size : Text → Text → Result Text ℕ) (hash : Text → Text) (host_cpu : Result Text Text)
      → All (λ n. Lacks b',' n.mac) s.nics
      → All (λ n. Lacks b',' n.mac) t.nics
      → file_size s.firmware (bios s) ≡ file_size t.firmware (bios t)
      → fingerprint file_size hash s host_cpu ≡ fingerprint file_size hash t host_cpu
  unfolding fingerprint
  fingerprint_same file_size hash host_cpu h h' size =
      simp (size, entries_same (contract_same h h'), shows_same)
