-- ===== src/Machine/Validate/Parts.antt =====
-- Which monitors and NICs `validate` of machine/machine.go passes.
use spin_machine.Common.{◌≡◌, ◌≢◌, refl, ◌↔◌, ◌⊎◌, List, [], ◌∷◌, arith, true, ok, switch, is_empty}
use spin_machine.Common.Int.{ℤ, pos, ◌≤ℤ◌}
use spin_machine.Machine.Mac.{is_mac48}
use spin_machine.Machine.Types.{Monitor, Nic}
use spin_machine.Machine.Validate.{validate_monitor, validate_nic}

-- A socket path or a descriptor that is none of the standard three, and not both.
abbrev pub IsMonitor : Monitor → Type 0
IsMonitor m = (m.socket ≢ []) × (m.fd ≡ pos 0) ⊎ (m.socket ≡ []) × (pos 3 ≤ℤ m.fd)

pub is_empty_iff {ℓ} : {A : Type ℓ} (xs : List A) → (is_empty xs ≡ true) ↔ (xs ≡ [])
is_empty_iff [] = (λ _. refl, λ _. refl)
is_empty_iff (x ∷ xs) = (λ h. cc, λ h. cc)

pub validate_monitor_iff : (m : Monitor) → (validate_monitor m ≡ ok tt) ↔ IsMonitor m
unfolding validate_monitor switch
validate_monitor_iff m = ground (arith, is_empty_iff m.socket)

-- A descriptor that is absent, or none of the standard three.
abbrev pub IsOptional : ℤ → Type 0
IsOptional fd = (fd ≡ pos 0) ⊎ (pos 3 ≤ℤ fd)

pub record IsNic (n : Nic) : Type 0 where
  pub tap : pos 3 ≤ℤ n.tap_fd
  pub vhost : IsOptional n.vhost_fd
  pub mac : is_mac48 n.mac ≡ true

pub validate_nic_iff : (n : Nic) → (validate_nic n ≡ ok tt) ↔ IsNic n
unfolding validate_nic switch
validate_nic_iff n = ground arith
