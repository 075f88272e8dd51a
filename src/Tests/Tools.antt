-- ===== src/Tests/Tools.antt =====
-- The flags of cmd/spin-machine/main.go and the issues of hack/osvissues/main.go, and the theorems at
-- them.
use spin_machine.Issues.Listing.{keep-closed}
use spin_machine.Common.{
  some, has_byte-Lacks, map, join, contains, text_eq, has_byte, Text, lit, each, ◌≡◌, refl, [], ◌∷◌,
  ◌++◌, List, true, false, ok, is_empty,
}
use spin_machine.Common.Int.{pos}
use spin_machine.Machine.Types.{Spec}
use spin_machine.Machine.Validate
use spin_machine.Machine.Args
use spin_machine.Release
use spin_machine.Release.{Release, Files, open_release, join_path, rootfs_name, wanted}
use spin_machine.Release.Manifest.{missing, read_env}
use spin_machine.Cmdline.{fields}
use spin_machine.Tool.{default_flags, disk_of, spec, spec_of, qemu_args}
use spin_machine.Tool.Machines.{default-valid, spec-default_flags, qemu_args-snapshot}
use spin_machine.Issues.Findings.{Finding}
use spin_machine.Issues.{
  Action, keep, unlisted, reopen, edit, body_head, body_lines, Issue, plan, title_of, body,
}
use spin_machine.Common.Split.{cut_before}
use spin_machine.Issues.Sorting.{sort, text_le}
use spin_machine.Issues.Links.{listed}

-- A file system on which every file is there, and no manifest.
abbrev files : Files
files = record { abs = λ p. ok (lit "/srv/" ++ p); stat = λ _. ok tt; read = λ _. missing }

abbrev release : Release
release = record { dir = lit "/srv/_output"; env = [] }

spec-default_flags_example :
    (s : Spec) × (spec fields files default_flags ≡ ok s) × (Validate.validate s ≡ ok tt)
unfolding open_release wanted read_env each lit text_eq join_path
spec-default_flags_example = spec-default_flags fields files release refl refl

abbrev base : Spec
base =
    spec_of fields files default_flags release (Release.qemu release)
      (join_path (lit "/srv/_output") rootfs_name)

base_made : spec fields files default_flags ≡ ok base
unfolding spec open_release wanted read_env each lit text_eq join_path Release.optional
base_made = refl

base_run : qemu_args base true ≡ ok (Args.command_line base ++ lit "-snapshot" ∷ [])
unfolding qemu_args Args.args text_eq join_path lit
base_run = rw (default-valid fields files release) refl

qemu_args-snapshot_example :
    (is_empty default_flags.disk ≡ true
      → (r : Release) × (rest : List Text) × (open_release files (lit "_output") ≡ ok r)
        × (base.disks ≡ disk_of default_flags (join_path r.dir rootfs_name) ∷ [])
        × (Args.args base ≡ ok rest)
        × (Args.command_line base ++ lit "-snapshot" ∷ [] ≡ rest ++ lit "-snapshot" ∷ []))
    × (is_empty default_flags.disk ≡ false
        → Args.args base ≡ ok (Args.command_line base ++ lit "-snapshot" ∷ []))
qemu_args-snapshot_example =
    qemu_args-snapshot fields files default_flags base
      (Args.command_line base ++ lit "-snapshot" ∷ []) base_made base_run

-- Two findings of one package, and the issue that lists one of them.
abbrev first_finding : Finding
first_finding = record { id = lit "CVE-2026-1"; pkg = lit "curl@8.5.0"; summary = lit "a leak" }

abbrev second_finding : Finding
second_finding = record { id = lit "CVE-2026-2"; pkg = lit "curl@8.5.0"; summary = [] }

abbrev pub found : List Finding
found = first_finding ∷ second_finding ∷ []

abbrev pub opened : Issue
opened = record {
  number = pos 7;
  title = lit "osv: curl";
  state = lit "CLOSED";
  body = body (lit "v2") (first_finding ∷ []);
}

keep-closed_example : keep (lit "v3") (first_finding ∷ []) (lit "curl") (some opened) ≡ []
unfolding lit has_byte text_eq contains
keep-closed_example =
    keep-closed (lit "v2") (lit "v3") (first_finding ∷ []) (first_finding ∷ []) (lit "curl") opened
      (
        (
          refl,
          (has_byte-Lacks b'/' (lit "CVE-2026-1")).0 refl,
          (refl, (refl, (refl, (refl, (refl, (refl, (refl, (refl, (refl, (refl, tt)))))))))),
        ),
        tt,
      )
      refl refl (refl, tt)

-- The link of each finding is found in a body, and a closed issue is opened for the one it lacks.
listed_body : listed (body (lit "v2") found) ≡ lit "CVE-2026-1" ∷ lit "CVE-2026-2" ∷ []
unfolding listed body body_head body_lines lit text_eq join contains
listed_body = refl

reopened : map (λ (a : Action). a.verb) (plan (lit "v2") found (opened ∷ [])) ≡ reopen ∷ edit ∷ []
unfolding plan sort text_le text_eq lit contains cut_before body body_head body_lines listed
    has_byte join title_of unlisted
reopened = refl
