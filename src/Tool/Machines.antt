-- ===== src/Tool/Machines.antt =====
-- The machine of the flags of cmd/spin-machine/main.go: what no flags at all give, and how the base
-- image is kept.
use mathlib.Core.Path.{subst}
use spin_machine.Common.{
  if◌then◌else◌, Text, lit, ◌≡◌, refl, sym, ap, ◌∙◌, Bool, true, false, not, ◌&&◌, List, [], ◌∷◌,
  ◌++◌, Result, ok, is_empty, text_eq, wrap, arith, switch, each, has_byte, join, contains,
  Bool-cases, inl, inr, >>_ok, >>=_iff,
}
use spin_machine.Machine.Types.{Spec, Disk}
use spin_machine.Machine.Validate
use spin_machine.Machine.Args
use spin_machine.Release.Manifest
use spin_machine.Cmdline
use spin_machine.Cmdline.{check_parameter, has_space, render, parts, fixed_parts}
use spin_machine.Common.Numeral.{itoa}
use spin_machine.Machine.Validate.{
  validate_head, validate_descriptors, validate_disk, fd_sets, disk_formats,
}
use spin_machine.Release
use spin_machine.Release.{
  Release, Files, not_in_release, open_release, rootfs, rootfs_name, join_path,
}
use spin_machine.Tool.{
  MachineFlags, default_flags, scratch, disk_path, release_qemu, has_disk, with_snapshot, spec,
  spec_of, disk_of, qemu_args,
}

-- Nothing of a release is in the machine but its paths.
abbrev nothing : Release
nothing = record { dir = []; env = [] }

abbrev nowhere : Files
nowhere = record { abs = λ p. ok p; stat = λ _. ok tt; read = λ _. Manifest.missing }

-- A path in a directory is neither empty nor a dash.
in_directory :
    (dir name : Text)
    → (is_empty (dir ++ b'/' ∷ name) ≡ false) × (text_eq (dir ++ b'/' ∷ name) (lit "-") ≡ false)
unfolding text_eq lit
in_directory [] name = (refl, refl)
in_directory (c ∷ []) name = (refl, ground arith)
in_directory (c ∷ d ∷ dir) name = (refl, ground arith)

join_path-given :
    (dir name : Text)
    → (is_empty (join_path dir name) ≡ false) × (text_eq (join_path dir name) (lit "-") ≡ false)
unfolding join_path lit
join_path-given dir name = elim (Bool-cases (text_eq dir (lit "/"))) [
  | inl e ↦ rw e (in_directory [] name)
  | inr e ↦ rw e (in_directory dir name)
]

-- The machine of no flags, with these paths of its parts.
abbrev machine : Text → Text → Text → Text → Spec
machine q k f d = record (spec_of (λ t. t ∷ []) nowhere default_flags nothing q d) {
  kernel = k;
  firmware = f;
}

machine-valid :
    (q k f d : Text)
    → is_empty q ≡ false
    → is_empty k ≡ false
    → is_empty f ≡ false
    → is_empty d ≡ false
    → text_eq d (lit "-") ≡ false
    → Validate.validate (machine q k f d) ≡ ok tt
unfolding Validate.validate validate_head validate_descriptors validate_disk fd_sets disk_formats
    switch each lit Cmdline.validate check_parameter has_space has_byte render parts fixed_parts
    join itoa contains text_eq
machine-valid [] k f d hq hk hf hd h = cc
machine-valid (_ ∷ _) [] f d hq hk hf hd h = cc
machine-valid (_ ∷ _) (_ ∷ _) [] d hq hk hf hd h = cc
machine-valid (_ ∷ _) (_ ∷ _) (_ ∷ _) [] hq hk hf hd h = cc
machine-valid (_ ∷ _) (_ ∷ _) (_ ∷ _) (_ ∷ _) hq hk hf hd h = rw h refl

pub default-valid :
    (words : Text → List Text) (files : Files) (r : Release)
    → Validate.validate
        (spec_of words files default_flags r (Release.qemu r) (join_path r.dir rootfs_name))
      ≡ ok tt
default-valid words files r =
    let (disk, dash) = join_path-given r.dir rootfs_name in
    machine-valid (Release.qemu r) (Release.kernel r) (Release.firmware r)
      (join_path r.dir rootfs_name) (join_path-given r.dir Release.qemu_name).0
      (join_path-given r.dir Release.kernel_name).0 (join_path-given r.dir Release.firmware_dir).0
      disk dash

-- Without a flag, a release that opens and holds the base image gives a machine that passes every
-- check of the specification.
pub spec-default_flags :
    (words : Text → List Text) (files : Files) (r : Release)
    → open_release files (lit "_output") ≡ ok r
    → files.stat (join_path r.dir rootfs_name) ≡ ok tt
    → (s : Spec) × (spec words files default_flags ≡ ok s) × (Validate.validate s ≡ ok tt)
unfolding spec text_eq join_path lit Release.optional
spec-default_flags words files r e h = (
  spec_of words files default_flags r (Release.qemu r) (join_path r.dir rootfs_name),
  rw (e, h) refl,
  default-valid words files r,
)

ok-injective : {E A : Type 0} {a b : A} → Path (Result E A) (ok a) (ok b) → a ≡ b
ok-injective e = cc

scratch-path :
    (files : Files) (r : Release) (b : Bool) (disk d : Text)
    → b ≡ true
    → disk_path b files r disk ≡ ok d
    → join_path r.dir rootfs_name ≡ d
unfolding Release.optional
scratch-path files r false disk d h e = cc
scratch-path files r true disk d h e =
    (let both =
        (>>_ok
            (wrap (not_in_release (lit "the base image"))
              (files.stat (join_path r.dir rootfs_name)))
            (ok (join_path r.dir rootfs_name))).0
          e in
      ok-injective both.1)

-- The machine of flags, by its release and the path of its disk.
spec-parts :
    (words : Text → List Text) (files : Files) (o : MachineFlags) (s : Spec)
    → spec words files o ≡ ok s
    → (r : Release) × (d : Text) × (open_release files o.release ≡ ok r)
      × (disk_path (scratch o) files r o.disk ≡ ok d)
      × (s.disks ≡ (if has_disk d then disk_of o d ∷ [] else []))
unfolding spec
spec-parts words files o s e =
    let (r, opened, e1) = (>>=_iff (open_release files o.release) _).0 e in
    let (q, chosen, e2) =
      (>>=_iff (release_qemu (text_eq o.accel (lit "tcg") && is_empty o.qemu) files r) _).0 e1 in
    let (d, found, e3) = (>>=_iff (disk_path (scratch o) files r o.disk) _).0 e2 in
    (r, d, opened, found, ap (λ (s : Spec). s.disks) (sym (ok-injective e3)))

base-disks :
    (o : MachineFlags) (r : Release) (d : Text) (disks : List Disk)
    → join_path r.dir rootfs_name ≡ d
    → disks ≡ (if has_disk d then disk_of o d ∷ [] else [])
    → disks ≡ disk_of o (join_path r.dir rootfs_name) ∷ []
base-disks o r d disks same e =
    subst
      (λ d.
        disks ≡ (if has_disk d then disk_of o d ∷ [] else [])
        → disks ≡ disk_of o (join_path r.dir rootfs_name) ∷ [])
      same (λ h. h ∙ rw ((join_path-given r.dir rootfs_name).1) refl) e

snapshot-taken :
    (b : Bool) (disks : List Disk) (d : Disk) (rest line : List Text)
    → b ≡ true
    → disks ≡ d ∷ []
    → with_snapshot (b && not (is_empty disks)) rest ≡ line
    → line ≡ rest ++ lit "-snapshot" ∷ []
snapshot-taken b [] d rest line h e l = cc
snapshot-taken false (_ ∷ _) d rest line h e l = cc
snapshot-taken true (_ ∷ _) d rest line h e l = sym l

kept :
    (b c : Bool) (rest line : List Text)
    → b ≡ false
    → with_snapshot (b && c) rest ≡ line
    → rest ≡ line
kept true c rest line h l = cc
kept false c rest line h l = l

-- Where no disk is given, the disk of the machine is the base image of the release, and QEMU is told
-- to keep its writes in a snapshot, after the arguments of the machine. Where one is given, the
-- arguments are those of the machine alone.
pub qemu_args-snapshot :
    (words : Text → List Text) (files : Files) (o : MachineFlags) (s : Spec) (line : List Text)
    → spec words files o ≡ ok s
    → qemu_args s (scratch o) ≡ ok line
    → (is_empty o.disk ≡ true
        → (r : Release) × (rest : List Text) × (open_release files o.release ≡ ok r)
          × (s.disks ≡ disk_of o (join_path r.dir rootfs_name) ∷ [])
          × (Args.args s ≡ ok rest)
          × (line ≡ rest ++ lit "-snapshot" ∷ []))
      × (is_empty o.disk ≡ false → Args.args s ≡ ok line)
unfolding spec qemu_args
qemu_args-snapshot words files o s line e h =
    let (rest, made, l) = (>>=_iff (Args.args s) _).0 h in
    let (r, d, opened, found, disks) = spec-parts words files o s e in
    (
      (λ b.
          let base =
            base-disks o r d s.disks (scratch-path files r (scratch o) o.disk d b found) disks in
          (
            r,
            rest,
            opened,
            base,
            made,
            snapshot-taken (scratch o) s.disks (disk_of o (join_path r.dir rootfs_name)) rest line b
                base (ok-injective l),
          )),
      (λ b. made ∙ ap ok (kept (scratch o) (not (is_empty s.disks)) rest line b (ok-injective l))),
    )
