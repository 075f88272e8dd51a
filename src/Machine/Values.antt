-- ===== src/Machine/Values.antt =====
-- QEMU reads each free-form value of the command line of machine/machine.go as one value.
use spin_machine.Common.{
  ℕ, ◌+◌, Text, lit, ◌<>◌, ◌≡◌, refl, ap, ◌∙◌, Bool, true, false, not, [], ◌∷◌, ◌++◌, arith, Lacks,
  is_empty,
}
use spin_machine.Common.Int.{ℤ}
use spin_machine.Common.Numeral.{decimal, hex, itoa, decimal-Lacks, hex-Lacks, itoa-Lacks}
use spin_machine.Cmdline.{when}
use spin_machine.Machine.Types.{Disk, Fd, Monitor, slot_disk_base}
use spin_machine.Machine.Options.{
  comma, options, options_from, qemu_opt, options_lem, options_from-Lacks, options_from-qemu_opt,
  options_from-qemu_opt_last,
}
use spin_machine.Machine.Command.{drive_arg, disk_device, virtio_modern, text_when}
use spin_machine.Machine.Args.{socket_monitor, add_fd}

drive_flags :
    (direct readonly locking : Bool) (cur : Text)
    → options_from cur (
        text_when direct (lit ",cache.direct=on,backing.cache.direct=off")
        <> text_when readonly (lit ",readonly=on")
        <> text_when locking (lit ",file.locking=on"))
      ≡ cur ∷ when direct (lit "cache.direct=on" ∷ lit "backing.cache.direct=off" ∷ [])
        ++ (when readonly (lit "readonly=on" ∷ []) ++ when locking (lit "file.locking=on" ∷ []))
unfolding options_from lit
drive_flags true true true cur = refl
drive_flags true true false cur = refl
drive_flags true false true cur = refl
drive_flags true false false cur = refl
drive_flags false true true cur = refl
drive_flags false true false cur = refl
drive_flags false false true cur = refl
drive_flags false false false cur = refl

drive_fixed :
    (d : Disk) (i : ℕ) (rest : Text)
    → Lacks comma d.format
    → options_from [] (
        lit "file="
        <> qemu_opt d.path
        <> lit ",if=none,id=blk"
        <> decimal i
        <> lit ",format="
        <> d.format
        <> lit ",aio=io_uring,discard=unmap,file.drop-cache=off"
        <> rest)
      ≡ (lit "file=" <> d.path)
        ∷ lit "if=none"
        ∷ (lit "id=blk" <> decimal i)
        ∷ (lit "format=" <> d.format)
        ∷ lit "aio=io_uring"
        ∷ lit "discard=unmap"
        ∷ options_from (lit "file.drop-cache=off") rest
unfolding options_from lit
drive_fixed d i rest h = rw (
  options_from-qemu_opt,
  options_from-Lacks _ (decimal i) _ (decimal-Lacks comma i (omega arith)),
  options_from-Lacks _ d.format _ h,
)

-- Where the format has no comma, a drive's options are its own: the path, whatever commas it holds,
-- is the file's name, and no part of it is another option. The others are the fixed ones, and those
-- that the disk asks for.
pub options-drive_arg :
    (d : Disk) (i : ℕ)
    → Lacks comma d.format
    → options (drive_arg d i)
      ≡ (lit "file=" <> d.path)
          ∷ lit "if=none"
          ∷ (lit "id=blk" <> decimal i)
          ∷ (lit "format=" <> d.format)
          ∷ lit "aio=io_uring"
          ∷ lit "discard=unmap"
          ∷ lit "file.drop-cache=off"
          ∷ when d.direct_over_backing (lit "cache.direct=on" ∷ lit "backing.cache.direct=off" ∷ [])
        ++ (when d.readonly (lit "readonly=on" ∷ []) ++ when d.locking (lit "file.locking=on" ∷ []))
unfolding drive_arg
options-drive_arg d i h =
    rw (options_lem, drive_fixed d i _ h, drive_flags d.direct_over_backing d.readonly d.locking)

device_fixed :
    (n slot rest : Text)
    → Lacks comma n
    → Lacks comma slot
    → options_from [] (
        lit "virtio-blk-pci,drive=blk"
        <> n
        <> lit ","
        <> (virtio_modern <> lit ",addr=0x" <> slot)
        <> rest)
      ≡ lit "virtio-blk-pci"
        ∷ (lit "drive=blk" <> n)
        ∷ lit "disable-legacy=on"
        ∷ options_from (lit "addr=0x" <> slot) rest
unfolding options_from lit virtio_modern
device_fixed n slot rest h k = rw (options_from-Lacks _ n _ h, options_from-Lacks _ slot _ k)

device_serial :
    (cur serial : Text)
    → options_from cur (text_when (not (is_empty serial)) (lit ",serial=" <> qemu_opt serial))
      ≡ cur ∷ when (not (is_empty serial)) ((lit "serial=" <> serial) ∷ [])
unfolding options_from lit
device_serial cur [] = refl
device_serial cur (c ∷ serial) = rw (options_from-qemu_opt_last _ (c ∷ serial))

-- A disk's device: the serial, whatever commas it holds, is the disk's name, and the slot stands.
pub options-disk_device :
    (d : Disk) (i : ℕ)
    → options (disk_device d i)
      ≡ lit "virtio-blk-pci"
        ∷ (lit "drive=blk" <> decimal i)
        ∷ lit "disable-legacy=on"
        ∷ (lit "addr=0x" <> hex (slot_disk_base + i))
        ∷ when (not (is_empty d.serial)) ((lit "serial=" <> d.serial) ∷ [])
unfolding disk_device
options-disk_device d i =
    options_lem _
    ∙ device_fixed (decimal i) (hex (slot_disk_base + i)) _ (decimal-Lacks comma i (omega arith))
        (hex-Lacks comma _ (omega arith))
    ∙ ap
        (λ os. lit "virtio-blk-pci" ∷ (lit "drive=blk" <> decimal i) ∷ lit "disable-legacy=on" ∷ os)
        (device_serial (lit "addr=0x" <> hex (slot_disk_base + i)) d.serial)

-- A monitor's socket is one value.
pub options-socket_monitor :
    (m : Monitor)
    → options (socket_monitor m) ≡ (lit "unix:" <> m.socket) ∷ lit "server=on" ∷ lit "wait=off" ∷ []
unfolding options socket_monitor options_from lit
options-socket_monitor m = rw options_from-qemu_opt

fd_fixed :
    (n set rest : Text)
    → Lacks comma n
    → Lacks comma set
    → options_from [] (lit "fd=" <> n <> lit ",set=" <> set <> rest)
      ≡ (lit "fd=" <> n) ∷ options_from (lit "set=" <> set) rest
unfolding options_from lit
fd_fixed n set rest h k = rw (options_from-Lacks _ n _ h, options_from-Lacks _ set _ k)

fd_opaque :
    (cur opaque : Text)
    → options_from cur (text_when (not (is_empty opaque)) (lit ",opaque=" <> qemu_opt opaque))
      ≡ cur ∷ when (not (is_empty opaque)) ((lit "opaque=" <> opaque) ∷ [])
unfolding options_from lit
fd_opaque cur [] = refl
fd_opaque cur (c ∷ opaque) = rw (options_from-qemu_opt_last _ (c ∷ opaque))

-- A descriptor's opaque name is one value, behind its number and its set.
pub options-add_fd :
    (id : ℤ) (fd : Fd)
    → options (add_fd id fd)
      ≡ (lit "fd=" <> itoa fd.num)
        ∷ (lit "set=" <> itoa id)
        ∷ when (not (is_empty fd.opaque)) ((lit "opaque=" <> fd.opaque) ∷ [])
unfolding add_fd
options-add_fd id fd =
    options_lem _
    ∙ fd_fixed (itoa fd.num) (itoa id) _ (itoa-Lacks comma _ (omega arith))
        (itoa-Lacks comma _ (omega arith))
    ∙ ap (λ os. (lit "fd=" <> itoa fd.num) ∷ os) (fd_opaque (lit "set=" <> itoa id) fd.opaque)
