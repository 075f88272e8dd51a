-- ===== src/Release.antt =====
-- machine/release.go: an unpacked release, which files it must hold, and its manifest. The file
-- system is a parameter: the absolute path of a directory, whether a file is there, and its bytes.
pub mod Trim
pub mod Manifest
pub mod Written
pub mod Whole
use spin_machine.Common.{
  ℕ, Text, lit, ◌<>◌, Bool, true, false, List, [], ◌∷◌, Option, none, some, Result, ok, err, ◌>>=◌,
  ◌>>◌, Checked, each, wrap, text_eq, if◌then◌else◌,
}
use spin_machine.Common.Int.{pos}
use spin_machine.Machine.Types.{Spec}
use spin_machine.Machine.Command.{default_bios}
use Manifest.{Env, ManifestError, File, read_env, value_of}

abbrev pub qemu_name : Text
qemu_name = lit "bin/qemu-system-x86_64"

abbrev pub qemu_tcg_name : Text
qemu_tcg_name = lit "bin/qemu-system-x86_64-tcg"

abbrev pub qemu_img_name : Text
qemu_img_name = lit "bin/qemu-img"

abbrev pub firmware_dir : Text
firmware_dir = lit "qemu"

abbrev pub kernel_name : Text
kernel_name = lit "kernel/vmlinux"

abbrev pub rootfs_name : Text
rootfs_name = lit "image/rootfs.qcow2"

abbrev pub manifest : Text
manifest = lit "machine.env"

-- `filepath.Join` of a clean absolute directory and a clean relative name.
unfoldable pub join_path : Text → Text → Text
join_path dir name = if text_eq dir (lit "/") then lit "/" <> name else dir <> lit "/" <> name

-- `Release`.
pub record Release : Type 0 where
  pub dir : Text
  pub env : Env

pub data ReleaseError : Type 0 where
  no_directory : Text → Text → ReleaseError
  not_whole : Text → Text → ReleaseError
  bad_manifest : ManifestError → ReleaseError
  not_in_release : Text → Text → ReleaseError

-- The files that a release must hold.
unfoldable pub wanted : List Text
wanted =
    qemu_name
    ∷ qemu_img_name
    ∷ kernel_name
    ∷ join_path firmware_dir (lit "pvh.bin")
    ∷ join_path firmware_dir default_bios
    ∷ []

-- What is asked of the file system.
pub record Files : Type 0 where
  pub abs : Text → Result Text Text
  pub stat : Text → Checked Text
  pub read : Text → File

-- `OpenRelease`.
unfoldable pub open_release : Files → Text → Result ReleaseError Release
open_release files dir = do
  abs ← wrap (no_directory dir) (files.abs dir)
  each (λ _ want. wrap (not_whole abs) (files.stat (join_path abs want))) 0 wanted
  env ← wrap bad_manifest (read_env (files.read (join_path abs manifest)))
  ok (record { dir = abs; env = env })

abbrev pub qemu : Release → Text
qemu r = join_path r.dir qemu_name

abbrev pub qemu_img : Release → Text
qemu_img r = join_path r.dir qemu_img_name

abbrev pub firmware : Release → Text
firmware r = join_path r.dir firmware_dir

abbrev pub kernel : Release → Text
kernel r = join_path r.dir kernel_name

-- `optional`.
unfoldable pub optional : Files → Release → Text → Text → Result ReleaseError Text
optional files r name what =
    let path = join_path r.dir name in do wrap (not_in_release what) (files.stat path); ok path

abbrev pub qemu_tcg : Files → Release → Result ReleaseError Text
qemu_tcg files r = optional files r qemu_tcg_name (lit "the TCG build of QEMU")

abbrev pub rootfs : Files → Release → Result ReleaseError Text
rootfs files r = optional files r rootfs_name (lit "the base image")

-- `Version`: empty without a manifest, or where the manifest has none.
unfoldable pub version : Release → Text
version r = value_of r.env (lit "version")

-- `Release.Spec`: the fields that a release supplies, and the others empty.
abbrev pub spec : Release → Spec
spec r = record {
  qemu = qemu r;
  kernel = kernel r;
  initrd = [];
  firmware = firmware r;
  bios = [];
  boot_cpus = pos 0;
  max_cpus = pos 0;
  memory = record { size_mb = pos 0; max_mb = pos 0 };
  cpu = [];
  accel = [];
  disks = [];
  nics = [];
  hotplug_disks = pos 0;
  vsock_cid = pos 0;
  vsock_fd = pos 0;
  kvm_fd_set = pos 0;
  monitors = [];
  fd_sets = [];
  serial_fd_set = pos 0;
  serial = [];
  cmdline = record {
    console = [];
    quiet = false;
    log_level = pos 0;
    init = [];
    root = [];
    root_readonly = false;
    extra = [];
  };
  incoming = [];
}
