-- ===== src/Qmp/Sizes.antt =====
-- The numbers that the commands of cmd/spin-machine/main.go take.
use mathlib.Core.Path.{subst}
use spin_machine.Common.{
  ap, sym, ℕ, ◌+◌, ◌*◌, ◌/◌, ◌^◌, ◌<◌, ◌≡◌, refl, true, false, not, ◌||◌, arith, ◌↔◌, Bool,
}
use spin_machine.Common.Int.{ℤ, pos, negsuc, ltb_ℤ, pos_part}
use spin_machine.Machine.Types.{max_hotplug_disks}
use spin_machine.Qmp.Wire.{Conn}
use spin_machine.Qmp.Session.{QmpError, require, bad_target}
use spin_machine.Qmp.Run.{is_done}
use spin_machine.Qmp.Commands.{wanted_bytes, check_target}

-- The bytes asked for are those of the size exactly, below 2^44 MiB, and they say the same MiB back;
-- from there on they wrap, so that a size and the size that is 2^44 MiB larger ask for the same bytes.
pub wanted_bytes-wraps :
    (n : ℕ)
    → (n < 2 ^ 44 → (wanted_bytes (pos n) ≡ n * 2 ^ 20) × (wanted_bytes (pos n) / 2 ^ 20 ≡ n))
      × (wanted_bytes (pos (n + 2 ^ 44)) ≡ wanted_bytes (pos n))
unfolding wanted_bytes
wanted_bytes-wraps n = ((λ h. (omega arith, omega arith)), omega arith)

require-is_done :
    (b : Bool) (e : QmpError) (c : Conn) → (is_done (require b e c) ≡ true) ↔ (b ≡ false)
require-is_done true e c = (λ h. cc, λ h. cc)
require-is_done false e c = (λ h. refl, λ h. refl)

pos-target :
    (n : ℕ)
    → ((ltb_ℤ (pos n) (pos 0) || not (ltb_ℤ (pos n) (pos max_hotplug_disks))) ≡ false) ↔ (n < 256)
pos-target n = ground arith

negsuc-target :
    (n : ℕ) → (ltb_ℤ (negsuc n) (pos 0) || not (ltb_ℤ (negsuc n) (pos max_hotplug_disks))) ≡ true
negsuc-target n = ground arith

-- A target is taken exactly when it is one of 0 to 255.
pub check_target_iff :
    (target : ℤ) (c : Conn)
    → (is_done (check_target target c) ≡ true) ↔ ((n : ℕ) × (target ≡ pos n) × (n < 256))
unfolding check_target
check_target_iff (pos n) c =
    let (to, from) =
      require-is_done (ltb_ℤ (pos n) (pos 0) || not (ltb_ℤ (pos n) (pos max_hotplug_disks)))
        (bad_target (pos n)) c in
    (
      λ h. (n, refl, (pos-target n).0 (to h)),
      λ (k, e, l). from ((pos-target n).1 (subst (λ k. k < 256) (sym (ap pos_part e)) l)),
    )
check_target_iff (negsuc n) c =
    let (to, from) =
      require-is_done (ltb_ℤ (negsuc n) (pos 0) || not (ltb_ℤ (negsuc n) (pos max_hotplug_disks)))
        (bad_target (negsuc n)) c in
    (λ h. (let f = to h in let t = negsuc-target n in cc), λ (k, e, l). cc)
