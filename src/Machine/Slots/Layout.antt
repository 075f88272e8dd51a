-- ===== src/Machine/Slots/Layout.antt =====
-- The slots that machine/machine.go lays its devices out on: no two are equal, and none is the
-- machine's own.
use spin_machine.Common.{
  ℕ, zero, suc, ◌+◌, ◌<◌, ◌≤◌, ◌≢◌, ◌⊎◌, List, [], ◌∷◌, ◌++◌, arith, Bool, true, false, not, All,
  All-append, All-imp, length,
}
use spin_machine.Common.Int.{pos, is_zero, ltb_ℤ}
use spin_machine.Cmdline.{when}
use spin_machine.Machine.Types.{
  Spec, slot_vsock, slot_rng, slot_balloon, slot_disk_base, slot_nic_base, slot_hotplug, slot_mem,
  max_disks, max_nics,
}

-- `k` slots from `base` on.
abbrev pub slots_from : ℕ → ℕ → List ℕ
slots_from base zero = []
slots_from base (suc k) = base ∷ slots_from (suc base) k

-- The slots of the devices that are there whatever disks and NICs a machine has.
abbrev pub fixed_slots : Bool → Bool → Bool → List ℕ
fixed_slots vsock mem hotplug =
    slot_rng ∷ slot_balloon ∷ when vsock (slot_vsock ∷ [])
    ++ (when mem (slot_mem ∷ []) ++ when hotplug (slot_hotplug ∷ []))

-- The slots of a machine, in the order of its devices on the command line.
abbrev pub slots : Spec → List ℕ
slots s =
    fixed_slots (not (is_zero s.vsock_cid)) (ltb_ℤ s.memory.size_mb s.memory.max_mb)
      (ltb_ℤ (pos 0) s.hotplug_disks)
    ++ (slots_from slot_disk_base (length s.disks) ++ slots_from slot_nic_base (length s.nics))

abbrev pub Distinct : List ℕ → Type 0
Distinct [] = Unit
Distinct (x ∷ xs) = All (λ y. x ≢ y) xs × Distinct xs

append-Distinct :
    (xs ys : List ℕ)
    → Distinct xs
    → Distinct ys
    → All (λ x. All (λ y. x ≢ y) ys) xs
    → Distinct (xs ++ ys)
append-Distinct [] ys _ h _ = h
append-Distinct (x ∷ xs) ys (p, hx) hy (q, c) =
    (All-append _ xs ys p q, append-Distinct xs ys hx hy c)

slots_from-Between : (base k : ℕ) → All (λ n. (base ≤ n) × (n < base + k)) (slots_from base k)
slots_from-Between base zero = tt
slots_from-Between base (suc k) =
    (omega arith, All-imp (λ n h. omega arith) _ (slots_from-Between (suc base) k))

slots_from-Distinct : (base k : ℕ) → Distinct (slots_from base k)
slots_from-Distinct base zero = tt
slots_from-Distinct base (suc k) = (
  All-imp (λ n h. omega arith) _ (slots_from-Between (suc base) k),
  slots_from-Distinct (suc base) k,
)

All-ne :
    (x : ℕ) (ys : List ℕ) (lo hi : ℕ)
    → (x < lo) ⊎ (hi ≤ x)
    → All (λ y. (lo ≤ y) × (y < hi)) ys
    → All (λ y. x ≢ y) ys
All-ne x ys lo hi o h = All-imp (λ y b. omega arith) ys h

fixed_slots-Distinct : (v m h : Bool) → Distinct (fixed_slots v m h)
fixed_slots-Distinct true true true = omega arith
fixed_slots-Distinct true true false = omega arith
fixed_slots-Distinct true false true = omega arith
fixed_slots-Distinct true false false = omega arith
fixed_slots-Distinct false true true = omega arith
fixed_slots-Distinct false true false = omega arith
fixed_slots-Distinct false false true = omega arith
fixed_slots-Distinct false false false = omega arith

-- The fixed devices are outside the range of the disks and the NICs, and inside the bus.
fixed_slots-outside :
    (v m h : Bool) → All (λ x. ((2 ≤ x) × (x < 5)) ⊎ ((0x1a ≤ x) × (x ≤ 0x1e))) (fixed_slots v m h)
fixed_slots-outside true true true = omega arith
fixed_slots-outside true true false = omega arith
fixed_slots-outside true false true = omega arith
fixed_slots-outside true false false = omega arith
fixed_slots-outside false true true = omega arith
fixed_slots-outside false true false = omega arith
fixed_slots-outside false false true = omega arith
fixed_slots-outside false false false = omega arith

ranges-Distinct :
    (k n : ℕ)
    → k ≤ max_disks
    → n ≤ max_nics
    → Distinct (slots_from slot_disk_base k ++ slots_from slot_nic_base n)
ranges-Distinct k n hk hn =
    append-Distinct _ _ (slots_from-Distinct slot_disk_base k) (slots_from-Distinct slot_nic_base n)
      (All-imp
        (λ x h.
          All-ne x _ slot_nic_base (slot_nic_base + n) (omega arith)
            (slots_from-Between slot_nic_base n))
        _ (slots_from-Between slot_disk_base k))

ranges-Between :
    (k n : ℕ)
    → k ≤ max_disks
    → n ≤ max_nics
    → All (λ x. (5 ≤ x) × (x < 0x1a)) (slots_from slot_disk_base k ++ slots_from slot_nic_base n)
ranges-Between k n hk hn =
    All-append _ (slots_from slot_disk_base k) _
      (All-imp (λ x h. omega arith) _ (slots_from-Between slot_disk_base k))
      (All-imp (λ x h. omega arith) _ (slots_from-Between slot_nic_base n))

outside_ne :
    (x : ℕ) (ys : List ℕ)
    → All (λ y. (5 ≤ y) × (y < 0x1a)) ys
    → ((2 ≤ x) × (x < 5)) ⊎ ((0x1a ≤ x) × (x ≤ 0x1e))
    → All (λ y. x ≢ y) ys
outside_ne x ys h o = All-ne x ys 5 0x1a (omega arith) h

module _ (v m h : Bool) (k n : ℕ) (hk : k ≤ max_disks) (hn : n ≤ max_nics) where
  unfoldable pub all_slots : List ℕ
  all_slots = fixed_slots v m h ++ (slots_from slot_disk_base k ++ slots_from slot_nic_base n)

  pub all_slots-Distinct : Distinct all_slots
  unfolding all_slots
  all_slots-Distinct =
      append-Distinct (fixed_slots v m h) _ (fixed_slots-Distinct v m h) (ranges-Distinct k n hk hn)
        (All-imp (λ x. outside_ne x _ (ranges-Between k n hk hn)) (fixed_slots v m h)
          (fixed_slots-outside v m h))

  pub all_slots-inside : All (λ x. (2 ≤ x) × (x ≤ 0x1e)) all_slots
  unfolding all_slots
  all_slots-inside =
      All-append _ (fixed_slots v m h) _
        (All-imp (λ x o. omega arith) (fixed_slots v m h) (fixed_slots-outside v m h))
        (All-imp (λ x o. omega arith) _ (ranges-Between k n hk hn))
