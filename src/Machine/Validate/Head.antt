-- ===== src/Machine/Validate/Head.antt =====
-- What the first switch of `validate` in machine/machine.go asks for.
use spin_machine.Common.{
  ℕ, ◌≤◌, Text, lit, ◌≡◌, ◌≢◌, refl, ◌↔◌, ◌⊎◌, List, [], ◌∷◌, arith, false, not, ◌||◌, ◌&&◌, ok,
  is_empty, switch_ok, text_eq, text_eq_iff, length, Lacks, has_byte, has_byte-Lacks, ltb,
}
use spin_machine.Common.Int.{ℤ, pos, ◌≤ℤ◌, ltb_ℤ, is_zero}
use spin_machine.Machine.Types.{Spec, max_disks, max_nics, max_hotplug_disks}
use spin_machine.Machine.Validate.{validate_head}
use spin_machine.Machine.Validate.Parts.{is_empty_iff}

-- What the first switch asks for.
pub record IsMachine (s : Spec) : Type 0 where
  pub qemu : s.qemu ≢ []
  pub kernel : s.kernel ≢ []
  pub firmware : s.firmware ≢ []
  pub bios : Lacks b'/' s.bios
  pub accel : (s.accel ≡ []) ⊎ (s.accel ≡ lit "kvm") ⊎ (s.accel ≡ lit "tcg")
  pub cpu : Lacks b',' s.cpu × Lacks b' ' s.cpu × Lacks 9 s.cpu × Lacks 10 s.cpu
  pub boot_cpus : pos 1 ≤ℤ s.boot_cpus
  pub max_cpus : (s.max_cpus ≡ pos 0) ⊎ (s.boot_cpus ≤ℤ s.max_cpus)
  pub max_mb : (s.memory.max_mb ≡ pos 0) ⊎ (s.memory.size_mb ≤ℤ s.memory.max_mb)
  pub size_mb : pos 1 ≤ℤ s.memory.size_mb
  pub disks : length s.disks ≤ max_disks
  pub nics : length s.nics ≤ max_nics
  pub hotplug_disks : (pos 0 ≤ℤ s.hotplug_disks) × (s.hotplug_disks ≤ℤ pos max_hotplug_disks)

pub nonempty_iff {ℓ} : {A : Type ℓ} (xs : List A) → (is_empty xs ≡ false) ↔ (xs ≢ [])
nonempty_iff [] = (λ h. cc, λ h. absurd (h refl))
nonempty_iff (x ∷ xs) = (λ _. cc, λ _. refl)

accel_iff :
    (a : Text)
    → ((not (is_empty a) && not (text_eq a (lit "kvm")) && not (text_eq a (lit "tcg"))) ≡ false)
      ↔ ((a ≡ []) ⊎ (a ≡ lit "kvm") ⊎ (a ≡ lit "tcg"))
accel_iff a = ground (arith, is_empty_iff a, text_eq_iff a (lit "kvm"), text_eq_iff a (lit "tcg"))

cpu_iff :
    (c : Text)
    → ((has_byte b',' c || has_byte b' ' c || has_byte 9 c || has_byte 10 c) ≡ false)
      ↔ (Lacks b',' c × Lacks b' ' c × Lacks 9 c × Lacks 10 c)
cpu_iff c =
    ground
      (arith, has_byte-Lacks b',' c, has_byte-Lacks b' ' c, has_byte-Lacks 9 c, has_byte-Lacks 10 c)

lt_iff : (a b : ℤ) → (ltb_ℤ a b ≡ false) ↔ (b ≤ℤ a)
lt_iff a b = ground arith

ceiling_iff :
    (max base : ℤ)
    → ((not (is_zero max) && ltb_ℤ max base) ≡ false) ↔ ((max ≡ pos 0) ⊎ (base ≤ℤ max))
ceiling_iff max base = ground arith

count_iff : (n k : ℕ) → (ltb n k ≡ false) ↔ (k ≤ n)
count_iff n k = ground arith

range_iff : (a lo hi : ℤ) → ((ltb_ℤ a lo || ltb_ℤ hi a) ≡ false) ↔ ((lo ≤ℤ a) × (a ≤ℤ hi))
range_iff a lo hi = ground arith

pub validate_head_iff : (s : Spec) → (validate_head s ≡ ok tt) ↔ IsMachine s
unfolding validate_head
validate_head_iff s = (
  λ h.
      let (q, (k, (f, (b, (a, (c, (n, (x, (y, (z, (d, (e, (g, _))))))))))))) = (switch_ok _).0 h in
      record {
        qemu = (nonempty_iff s.qemu).0 q;
        kernel = (nonempty_iff s.kernel).0 k;
        firmware = (nonempty_iff s.firmware).0 f;
        bios = (has_byte-Lacks b'/' s.bios).0 b;
        accel = (accel_iff s.accel).0 a;
        cpu = (cpu_iff s.cpu).0 c;
        boot_cpus = (lt_iff s.boot_cpus (pos 1)).0 n;
        max_cpus = (ceiling_iff s.max_cpus s.boot_cpus).0 x;
        max_mb = (ceiling_iff s.memory.max_mb s.memory.size_mb).0 y;
        size_mb = (lt_iff s.memory.size_mb (pos 1)).0 z;
        disks = (count_iff max_disks (length s.disks)).0 d;
        nics = (count_iff max_nics (length s.nics)).0 e;
        hotplug_disks = (range_iff s.hotplug_disks (pos 0) (pos max_hotplug_disks)).0 g;
      },
  λ v. (switch_ok _).1 (
    (nonempty_iff s.qemu).1 v.qemu,
    (
      (nonempty_iff s.kernel).1 v.kernel,
      (
        (nonempty_iff s.firmware).1 v.firmware,
        (
          (has_byte-Lacks b'/' s.bios).1 v.bios,
          (
            (accel_iff s.accel).1 v.accel,
            (
              (cpu_iff s.cpu).1 v.cpu,
              (
                (lt_iff s.boot_cpus (pos 1)).1 v.boot_cpus,
                (
                  (ceiling_iff s.max_cpus s.boot_cpus).1 v.max_cpus,
                  (
                    (ceiling_iff s.memory.max_mb s.memory.size_mb).1 v.max_mb,
                    (
                      (lt_iff s.memory.size_mb (pos 1)).1 v.size_mb,
                      (
                        (count_iff max_disks (length s.disks)).1 v.disks,
                        (
                          (count_iff max_nics (length s.nics)).1 v.nics,
                          (
                            (range_iff s.hotplug_disks (pos 0) (pos max_hotplug_disks)).1
                                v.hotplug_disks,
                            tt,
                          ),
                        ),
                      ),
                    ),
                  ),
                ),
              ),
            ),
          ),
        ),
      ),
    ),
  ),
)
