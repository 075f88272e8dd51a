-- ===== src/Machine/Validate/Disks.antt =====
-- The disks that `validate` of machine/machine.go passes.
use spin_machine.Common.{
  ℕ, suc, ◌+◌, Text, lit, ◌≡◌, ◌≢◌, refl, ◌↔◌, ◌⊎◌, inl, inr, List, [], ◌∷◌, arith, true, ok,
  switch, each, >>_iff, contains, text_eq, text_eq_iff, ne_of_text_eq, length,
}
use spin_machine.Machine.Types.{Image, Disk}
use spin_machine.Machine.Validate.{Ids, disk_formats, validate_image, validate_disk}
use spin_machine.Machine.Validate.Parts.{is_empty_iff}

-- One of the two formats of this machine's images.
abbrev pub IsFormat : Text → Type 0
IsFormat f = (f ≡ lit "qcow2") ⊎ (f ≡ lit "raw")

-- Every image is in a known set and of a known format, and only the last may be raw.
abbrev pub IsChain : Ids → List Image → Type 0
IsChain sets [] = Unit
IsChain sets (img ∷ []) = (sets img.fd_set ≡ true) × IsFormat img.format
IsChain sets (img ∷ img' ∷ rest) =
    (sets img.fd_set ≡ true) × (img.format ≡ lit "qcow2") × IsChain sets (img' ∷ rest)

-- A path with its format, or a chain that carries one format for each image.
abbrev pub IsDisk : Ids → Disk → Type 0
IsDisk sets d =
    (d.path ≢ []) × (d.chain ≡ []) × IsFormat d.format
    ⊎ (d.path ≡ []) × (d.chain ≢ []) × (d.format ≡ []) × IsChain sets d.chain

contains-disk_formats : (f : Text) → (contains disk_formats f ≡ true) ↔ IsFormat f
unfolding contains disk_formats
contains-disk_formats f = ground (arith, text_eq_iff (lit "qcow2") f, text_eq_iff (lit "raw") f)

IsFormat-ne-nil : (f : Text) → IsFormat f → f ≢ []
unfolding lit
IsFormat-ne-nil f h e = elim h [ inl p ↦ cc | inr p ↦ cc ]

qcow2-ne-raw : lit "qcow2" ≢ lit "raw"
unfolding lit text_eq
qcow2-ne-raw = ne_of_text_eq _ _ refl

validate_image_iff :
    (sets : Ids) (n j : ℕ) (img : Image)
    → (validate_image sets n j img ≡ ok tt) ↔ (
        (sets img.fd_set ≡ true) × IsFormat img.format × ((suc j ≡ n) ⊎ (img.format ≡ lit "qcow2")))
unfolding validate_image switch
validate_image_iff sets n j img = ground (
  arith,
  is_empty_iff img.format,
  contains-disk_formats img.format,
  IsFormat-ne-nil img.format,
  text_eq_iff img.format (lit "raw"),
  qcow2-ne-raw,
)

validate-IsChain_iff :
    (sets : Ids) (n j : ℕ) (imgs : List Image)
    → j + length imgs ≡ n
    → (each (validate_image sets n) j imgs ≡ ok tt) ↔ IsChain sets imgs
unfolding each
validate-IsChain_iff sets n j [] h = (λ _. tt, λ _. refl)
validate-IsChain_iff sets n j (img ∷ []) h =
    let one =
      >>_iff {Q = Unit {0}} (validate_image sets n j img) (ok tt) {b = tt}
        (validate_image_iff sets n j img) (λ _. tt, λ _. refl) in
    (λ e. let ((k, f, _), _) = one.0 e in (k, f), λ c. one.1 ((c.0, c.1, inl (omega arith)), tt))
validate-IsChain_iff sets n j (img ∷ img' ∷ rest) h =
    let all =
      >>_iff (validate_image sets n j img) (each (validate_image sets n) (suc j) (img' ∷ rest))
        (validate_image_iff sets n j img)
        (validate-IsChain_iff sets n (suc j) (img' ∷ rest) (omega arith)) in
    (
      λ e. let ((k, f, l), r) = all.0 e in (k, ground arith, r),
      λ c. all.1 ((c.0, inl c.1, inr c.1), c.2),
    )

-- `Disk.validate` passes exactly the disks that are either a path with a known format, or a chain
-- without a format of its own, whose images are in known sets, have known formats, and are raw only
-- at the end.
pub validate_disk_iff : (sets : Ids) (d : Disk) → (validate_disk sets d ≡ ok tt) ↔ IsDisk sets d
unfolding validate_disk switch
validate_disk_iff sets d = ground (
  arith,
  is_empty_iff d.path,
  is_empty_iff d.chain,
  is_empty_iff d.format,
  contains-disk_formats d.format,
  IsFormat-ne-nil d.format,
  validate-IsChain_iff sets (length d.chain) 0 d.chain,
)
