-- ===== src/Machine/Contract/Hardware.antt =====
-- What of a machine its contract (`Spec.Contract` of machine/machine.go) tells apart.
use mathlib.Core.Path.{ap₂}
use spin_machine.Common.{
  ℕ, suc, Text, lit, ◌<>◌, ◌≡◌, refl, sym, ap, ◌∙◌, Bool, true, false, not, ◌&&◌, ◌||◌, ◌==◌, List,
  [], ◌∷◌, ◌++◌, arith, if◌then◌else◌, append-nil, is_empty, Lacks, All, ◌+◌, Option, some, none,
}
use spin_machine.Common.Int.{ℤ, pos, ltb_ℤ, is_zero}
use spin_machine.Common.Numeral.{itoa, itoa_injective}
use spin_machine.Cmdline.{when}
use spin_machine.Machine.Types.{Spec, Nic, slot_nic_base, slot_vsock, slot_mem, slot_hotplug}
use spin_machine.Machine.Command.{at_slot, text_when, rng_device, balloon_device}
use spin_machine.Machine.Fingerprint.Stream.{cons_injective}
use spin_machine.Machine.Contract.{contract}
use spin_machine.Machine.Contract.Closed.{
  machine_contract, contract_closed, nics_contract, nic_contract,
}

starts : Text → Text → Bool
starts [] s = true
starts (p ∷ ps) [] = false
starts (p ∷ ps) (c ∷ s) = p == c && starts ps s

-- The entries that start with `p`.
picked : Text → List Text → List Text
picked p [] = []
picked p (c ∷ cs) = let rest = picked p cs in if starts p c then c ∷ rest else rest

picked-append : (p : Text) (cs ds : List Text) → picked p (cs ++ ds) ≡ picked p cs ++ picked p ds
unfolding picked
picked-append p [] ds = refl
picked-append p (c ∷ cs) ds = ground (arith, picked-append p cs ds)

picked-when :
    (p x : Text) (b : Bool) → picked p (when b (x ∷ [])) ≡ when (starts p x) (when b (x ∷ []))
unfolding picked
picked-when p x true = refl
picked-when p x false = ground arith

when_injective : (x : Text) (b b' : Bool) → when b (x ∷ []) ≡ when b' (x ∷ []) → b ≡ b'
when_injective x true true e = refl
when_injective x false false e = refl
when_injective x true false e = cc
when_injective x false true e = cc

picked-other :
    (p : Text) (i : ℕ) (ns : List Nic)
    → ((k : ℕ) (n : Nic) → starts p (lit "device " <> nic_contract k n) ≡ false)
    → picked p (nics_contract i ns) ≡ []
unfolding picked nics_contract
picked-other p i [] h = refl
picked-other p i (n ∷ ns) h = rw (h i n) (picked-other p (suc i) ns h)

picked-nics :
    (i : ℕ) (ns : List Nic)
    → picked (lit "device virtio-net") (nics_contract i ns) ≡ nics_contract i ns
unfolding picked starts nics_contract nic_contract lit
picked-nics i [] = refl
picked-nics i (n ∷ ns) =
    ap (λ cs. (lit "device " <> nic_contract i n) ∷ cs) (picked-nics (suc i) ns)

abbrev vsock_text : Text
vsock_text = lit "device " <> lit "vhost-vsock-pci," <> at_slot slot_vsock

abbrev hotplug_text : Text
hotplug_text = lit "device " <> lit "virtio-scsi-pci," <> at_slot slot_hotplug

-- Whether the machine has a serial port.
abbrev pub has_serial : Spec → Bool
has_serial s = not (is_empty s.serial) || not (is_zero s.serial_fd_set)

abbrev mem_text : Text
mem_text = lit "device " <> lit "virtio-mem-pci,requested-size=0," <> at_slot slot_mem

abbrev fixed_texts : List Text
fixed_texts =
    lit "global ICH9-LPC.disable_s3=1"
    ∷ lit "global ICH9-LPC.disable_s4=1"
    ∷ lit "global ICH9-LPC.acpi-pci-hotplug-with-bridge-support=off"
    ∷ (lit "device " <> lit "vmgenid,guid=auto")
    ∷ (lit "device " <> rng_device)
    ∷ (lit "device " <> balloon_device)
    ∷ []

picked_contract :
    (p : Text) (s : Spec)
    → picked p (machine_contract s)
      ≡ picked p fixed_texts
        ++ (when (starts p vsock_text) (when (not (is_zero s.vsock_cid)) (vsock_text ∷ []))
            ++ (when
                  (starts p mem_text)
                  (when (ltb_ℤ s.memory.size_mb s.memory.max_mb) (mem_text ∷ []))
                ++ (when
                      (starts p hotplug_text)
                      (when (ltb_ℤ (pos 0) s.hotplug_disks) (hotplug_text ∷ []))
                    ++ (picked p (nics_contract 0 s.nics)
                        ++ when
                            (starts p (lit "serial isa-serial"))
                            (when (has_serial s) (lit "serial isa-serial" ∷ []))))))
unfolding machine_contract
picked_contract p s =
    picked-append p fixed_texts _
    ∙ ap (λ cs. picked p fixed_texts ++ cs) (simp (picked-append, picked-when))

vsock_of :
    (s : Spec)
    → picked (lit "device vhost-vsock") (machine_contract s)
      ≡ when (not (is_zero s.vsock_cid)) (vsock_text ∷ [])
unfolding lit rng_device balloon_device picked starts nic_contract
vsock_of s =
    picked_contract (lit "device vhost-vsock") s
    ∙ rw (picked-other (lit "device vhost-vsock") 0 s.nics (λ _ _. refl), append-nil)

mem_of :
    (s : Spec)
    → picked (lit "device virtio-mem") (machine_contract s)
      ≡ when (ltb_ℤ s.memory.size_mb s.memory.max_mb) (mem_text ∷ [])
unfolding lit rng_device balloon_device picked starts nic_contract
mem_of s =
    picked_contract (lit "device virtio-mem") s
    ∙ rw (picked-other (lit "device virtio-mem") 0 s.nics (λ _ _. refl), append-nil)

hotplug_of :
    (s : Spec)
    → picked (lit "device virtio-scsi") (machine_contract s)
      ≡ when (ltb_ℤ (pos 0) s.hotplug_disks) (hotplug_text ∷ [])
unfolding lit rng_device balloon_device picked starts nic_contract
hotplug_of s =
    picked_contract (lit "device virtio-scsi") s
    ∙ rw (picked-other (lit "device virtio-scsi") 0 s.nics (λ _ _. refl), append-nil)

serial_of :
    (s : Spec)
    → picked (lit "serial") (machine_contract s)
      ≡ when (has_serial s) (lit "serial isa-serial" ∷ [])
unfolding lit rng_device balloon_device picked starts nic_contract
serial_of s =
    picked_contract (lit "serial") s ∙ rw (picked-other (lit "serial") 0 s.nics (λ _ _. refl))

nics_of :
    (s : Spec) → picked (lit "device virtio-net") (machine_contract s) ≡ nics_contract 0 s.nics
unfolding lit rng_device balloon_device picked starts
nics_of s = picked_contract (lit "device virtio-net") s ∙ rw (picked-nics 0 s.nics, append-nil)

-- The MTUs that the NICs announce, none for a NIC without one.
abbrev pub announced : List Nic → List (Option ℤ)
announced [] = []
announced (n ∷ ns) = (if ltb_ℤ (pos 0) n.mtu then some n.mtu else none) ∷ announced ns

append_cancel : (s t u : Text) → s ++ t ≡ s ++ u → t ≡ u
append_cancel [] t u e = e
append_cancel (c ∷ s) t u e = append_cancel s t u (cc)

mtu_injective :
    (u v : Bool) (a b : ℤ)
    → text_when u (lit ",host_mtu=" <> itoa a) ≡ text_when v (lit ",host_mtu=" <> itoa b)
    → (if u then some a else none) ≡ (if v then some b else none)
unfolding lit
mtu_injective true true a b e =
    ap some (itoa_injective a b (append_cancel (lit ",host_mtu=") (itoa a) (itoa b) e))
mtu_injective true false a b e = cc
mtu_injective false true a b e = cc
mtu_injective false false a b e = refl

nic_injective :
    (i : ℕ) (m n : Nic)
    → lit "device " <> nic_contract i m ≡ lit "device " <> nic_contract i n
    → (if ltb_ℤ (pos 0) m.mtu then some m.mtu else none)
      ≡ (if ltb_ℤ (pos 0) n.mtu then some n.mtu else none)
unfolding nic_contract
nic_injective i m n e = mtu_injective _ _ m.mtu n.mtu (
    append_cancel (at_slot (slot_nic_base + i)) _ _
      (append_cancel (lit "virtio-net-pci,romfile=,") _ _ (append_cancel (lit "device ") _ _ e)))

nics_injective :
    (i : ℕ) (ms ns : List Nic)
    → nics_contract i ms ≡ nics_contract i ns
    → announced ms ≡ announced ns
unfolding nics_contract
nics_injective i [] [] e = refl
nics_injective i [] (n ∷ ns) e = cc
nics_injective i (m ∷ ms) [] e = cc
nics_injective i (m ∷ ms) (n ∷ ns) e =
    let (first, rest) = cons_injective e in
    ap₂ ◌∷◌ (nic_injective i m n first) (nics_injective (suc i) ms ns rest)

not_injective : (a b : Bool) → not a ≡ not b → a ≡ b
not_injective a b e = ground arith

-- Equal contracts have the same entries of a kind.
told :
    (p : Text) {cs ds xs ys : List Text} → cs ≡ ds → picked p cs ≡ xs → picked p ds ≡ ys → xs ≡ ys
told p e l r = sym l ∙ ap (picked p) e ∙ r

-- Where no MAC has a comma, machines of one contract have the same devices: both or neither have a
-- vsock, room to grow, a controller for later disks and a serial port, and their NICs, as many, announce
-- the same MTUs.
pub contract_hardware :
    (s t : Spec)
    → All (λ n. Lacks b',' n.mac) s.nics
    → All (λ n. Lacks b',' n.mac) t.nics
    → contract s ≡ contract t
    → (is_zero s.vsock_cid ≡ is_zero t.vsock_cid)
      × (ltb_ℤ s.memory.size_mb s.memory.max_mb ≡ ltb_ℤ t.memory.size_mb t.memory.max_mb)
      × (ltb_ℤ (pos 0) s.hotplug_disks ≡ ltb_ℤ (pos 0) t.hotplug_disks)
      × (announced s.nics ≡ announced t.nics)
      × (has_serial s ≡ has_serial t)
contract_hardware s t h h' e =
    let same = sym (contract_closed s h) ∙ e ∙ contract_closed t h' in
    (
      not_injective _ _ (
          when_injective vsock_text _ _
            (told (lit "device vhost-vsock") same (vsock_of s) (vsock_of t))),
      when_injective mem_text _ _ (told (lit "device virtio-mem") same (mem_of s) (mem_of t)),
      when_injective hotplug_text _ _
          (told (lit "device virtio-scsi") same (hotplug_of s) (hotplug_of t)),
      nics_injective 0 s.nics t.nics (told (lit "device virtio-net") same (nics_of s) (nics_of t)),
      when_injective (lit "serial isa-serial") _ _
          (told (lit "serial") same (serial_of s) (serial_of t)),
    )
