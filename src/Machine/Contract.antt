-- ===== src/Machine/Contract.antt =====
-- `Spec.Contract` and the fingerprint of machine/machine.go.
pub mod Closed
pub mod Hardware
use spin_machine.Common.{
  ℕ, zero, suc, Text, lit, ◌<>◌, Bool, true, false, not, ◌||◌, List, [], ◌∷◌, ◌++◌, Result, ok, err,
  ◌>>=◌, is_empty, text_eq, contains, join, length, if◌then◌else◌,
}
use spin_machine.Common.Int.{ℤ, is_zero}
use spin_machine.Common.Numeral.{decimal}
use spin_machine.Common.Split.{split, cut_before}
use spin_machine.Cmdline.{when}
use spin_machine.Machine.Types.{Spec}
use spin_machine.Machine.Shape.{shape, derived_from_host}
use spin_machine.Machine.Command.{bios, chipset_args, device_args, nic_args}

-- `vmProperties`.
unfoldable pub vm_properties : List Text
vm_properties =
    lit "id" ∷ lit "netdev" ∷ lit "memdev" ∷ lit "mac" ∷ lit "guest-cid" ∷ lit "vhostfd" ∷ []

-- The loop of `withoutTheVMs`.
unfoldable pub keep_machine : List Text → List Text
keep_machine [] = []
keep_machine (p ∷ ps) =
    let rest = keep_machine ps in
    if not (contains vm_properties (cut_before p b'=')) then p ∷ rest else rest

-- `parts[:1]` and what is kept of the others. A split has at least one part.
unfoldable pub keep_first : List Text → List Text
unfolding keep_machine
keep_first [] = []
keep_first (p ∷ ps) = p ∷ keep_machine ps

-- `withoutTheVMs`.
unfoldable pub without_the_vms : Text → Text
unfolding keep_first
without_the_vms dev = join (lit ",") (keep_first (split dev b','))

-- The loop of `Contract` over the arguments: a value that was read is skipped.
unfoldable pub contract_loop : List Text → List Text
contract_loop [] = []
contract_loop (a ∷ []) = []
contract_loop (a ∷ v ∷ rest) =
    let global = (lit "global " <> v) ∷ contract_loop rest in
    let device = (lit "device " <> without_the_vms v) ∷ contract_loop rest in
    let other = contract_loop (v ∷ rest) in
    if text_eq a (lit "-global")
    then global
    else if text_eq a (lit "-device")
    then device
    else other

-- `Spec.Contract`.
unfoldable pub contract : Spec → List Text
contract s =
    contract_loop (chipset_args ++ (device_args s ++ nic_args s))
    ++ when (not (is_empty s.serial) || not (is_zero s.serial_fd_set))
        (lit "serial isa-serial" ∷ [])
