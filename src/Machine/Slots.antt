-- ===== src/Machine/Slots.antt =====
-- The PCI slots on a command line of machine/machine.go, as QEMU reads it.
pub mod Devices
pub mod Addresses
pub mod Layout
pub mod Distinct
use mathlib.Core.List.{flat_map}
use spin_machine.Common.{
  ℕ, Text, lit, ◌<>◌, Bool, true, false, List, [], ◌∷◌, contains, text_eq, if◌then◌else◌,
}
use spin_machine.Common.Numeral.{hex}
use spin_machine.Common.Split.{cut_before}
use spin_machine.Machine.Options.{options}

-- The options of the command line that take no argument.
unfoldable pub stands_alone : Text → Bool
unfolding contains lit
stands_alone a = contains (lit "-nodefaults" ∷ lit "-nographic" ∷ lit "-no-reboot" ∷ []) a

-- The arguments of the `-device` options.
unfoldable pub device_values : List Text → List Text
unfolding stands_alone text_eq
device_values [] = []
device_values (a ∷ []) = []
device_values (a ∷ v ∷ rest) =
    let next = device_values (v ∷ rest) in
    let device = v ∷ device_values rest in
    let other = device_values rest in
    if stands_alone a then next else if text_eq a (lit "-device") then device else other

-- The options of a device that give its address.
unfoldable pub address_options : List Text → List Text
unfolding cut_before text_eq
address_options [] = []
address_options (o ∷ os) =
    let rest = address_options os in
    if text_eq (cut_before o b'=') (lit "addr") then o ∷ rest else rest

-- Every address that the command line gives a device.
unfoldable pub addresses : List Text → List Text
unfolding device_values address_options flat_map options
addresses args = flat_map (λ v. address_options (options v)) (device_values args)

-- A device's address option, as the source writes it.
unfoldable pub address : ℕ → Text
address slot = lit "addr=0x" <> hex slot
