-- ===== src/Tests/Releases.antt =====
-- The results on a release, applied to a small one.
use mathlib.Core.List.{reverse}
use spin_machine.Common.{Text, lit, ◌≡◌, ◌↔◌, refl, List, [], ◌∷◌, none, ok, All, arith, each}
use spin_machine.Release.{Release, Files, open_release, wanted}
use spin_machine.Release.Whole.{IsWhole, open_release_iff}
use spin_machine.Release.Manifest.{read_env, opened}
use spin_machine.Release.Trim.{behind, before}
use spin_machine.Release.Written.{line_of, IsEntry, written, read_env-written}

abbrev manifest_entries : List (Text × Text)
manifest_entries = (lit "version", lit "1.0") ∷ (lit "qemu", lit "11.1.1") ∷ []

qemu-IsEntry : IsEntry (lit "qemu", lit "11.1.1")
unfolding lit behind before line_of
qemu-IsEntry = record {
  whole = ground arith;
  plain_key = ground arith;
  trimmed_key = (refl, refl);
  trimmed_value = (refl, refl);
  trimmed = (refl, refl);
  named = refl;
  no_comment = refl;
  short = omega arith;
}

version-IsEntry : IsEntry (lit "version", lit "1.0")
unfolding lit behind before line_of
version-IsEntry = record {
  whole = ground arith;
  plain_key = ground arith;
  trimmed_key = (refl, refl);
  trimmed_value = (refl, refl);
  trimmed = (refl, refl);
  named = refl;
  no_comment = refl;
  short = omega arith;
}

manifest-IsEntry : All IsEntry manifest_entries
manifest-IsEntry = (version-IsEntry, (qemu-IsEntry, tt))

read_env-written_example :
    read_env (opened (written manifest_entries) none) ≡ ok (reverse manifest_entries)
read_env-written_example = read_env-written manifest_entries manifest-IsEntry

abbrev disk_files : Files
disk_files = record {
  abs = ok;
  stat = λ _. ok tt;
  read = λ _. opened (written manifest_entries) none;
}

abbrev unpacked : Release
unpacked = record { dir = lit "/usr/share/spin-stack"; env = reverse manifest_entries }

unpacked_opens : open_release disk_files (lit "/usr/share/spin-stack") ≡ ok unpacked
unfolding open_release read_env each lit wanted
unpacked_opens = rw read_env-written_example

open_release_iff_example :
    (open_release disk_files (lit "/usr/share/spin-stack") ≡ ok unpacked)
    ↔ IsWhole disk_files (lit "/usr/share/spin-stack") unpacked
open_release_iff_example = open_release_iff disk_files (lit "/usr/share/spin-stack") unpacked
