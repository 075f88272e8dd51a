-- ===== src/Tests/Texts.antt =====
-- Texts that the tools of hack/ and the reports write and read, as the tests of the repository have
-- them.
use spin_machine.Common.{
  ℕ, ◌≡◌, refl, lit, ◌<>◌, Text, List, [], ◌∷◌, some, none, ok, text_eq, contains, join, has_byte,
  false,
}
use spin_machine.Common.Int.{◌+ℤ◌}
use spin_machine.Common.Numeral.{decimal}
use spin_machine.Common.Split.{split, cut_before}
use spin_machine.Issues.Links.{cut_prefix}
use spin_machine.Notes.Config.{config_lines, short_pin}
use spin_machine.Notes.Patches.{patch_subject, patch_file}
use spin_machine.Notes.Texts.{lines, base}
use spin_machine.Packages.{lock}
use spin_machine.Pinned.Arrays.{compat}
use spin_machine.Release.Manifest.{cut_after}
use spin_machine.Release.Trim.{trim_space}
use spin_machine.Report.{Row}
use spin_machine.Report.Compared.{take}
use spin_machine.Report.Distance.{distance}
use spin_machine.Report.Renames.{value_at, renames}
use spin_machine.Report.Rows.{section_lines, arrow}
use spin_machine.Tests.Reports.{before, whole_numbers, booted}

subject :
    patch_subject (lit "Subject: [PATCH 1/2] keep: this one\n stays\n\ndiff\n")
    ≡ some (lit "keep: this one stays")
unfolding patch_subject lit trim_space cut_prefix join
subject = refl

no_subject : patch_subject (lit "diff --git a b\n") ≡ none
unfolding patch_subject lit trim_space cut_prefix
no_subject = refl

renamed_patch : patch_file (lit "qemu/a.patch\tqemu/b.patch") ≡ lit "qemu/b.patch"
unfolding patch_file lit cut_after has_byte
renamed_patch = refl

pin_digest : short_pin (lit "sha256:9cc080028c43ffff") ≡ lit "9cc080028c43"
unfolding short_pin lit take
pin_digest = refl

config :
    config_lines [] (lines (lit "# a comment\nCONFIG_HZ=100\n# CONFIG_USB is not set\n"))
    ≡ (lit "USB", lit "n") ∷ (lit "HZ", lit "100") ∷ []
unfolding config_lines lines lit trim_space cut_before cut_after has_byte
config = refl

file_name : base (lit "kernel/config-6.18/") ≡ lit "config-6.18"
unfolding base lit
file_name = refl

arrays :
    compat
      (lit
        "GlobalProperty hw_compat_11_1[] = {\n    { a },\n};\nint x;\nGlobalProperty pc_compat_11_1[]={};\n")
      (lit "pc-q35-11.1")
    ≡ ok (
        lit
          "GlobalProperty hw_compat_11_1[] = {\n    { a },\n};\nGlobalProperty pc_compat_11_1[]={};")
unfolding compat lit decimal
arrays = refl

locked :
    lock (lit "P:zlib\nV:1.3\n\nC:Q1\nP:musl\nV:1.2\nA:x86_64\n\n")
    ≡ ok (lit "musl=1.2\nzlib=1.3\n")
unfolding lock lit split cut_before cut_after text_eq join
locked = refl

-- Two rows as near as each other: which of them it was is not known.
abbrev twin : Text → Text → Text → Row ℕ
twin id x arg = record {
  id = id;
  features = (lit "twin", lit "y") ∷ (lit "x", x) ∷ [];
  args = lit "-twin" ∷ arg ∷ [];
  fingerprint = lit "f";
  boot = booted 100;
}

abbrev twins : List (Row ℕ)
twins = twin (lit "twin,x=1") (lit "1") (lit "1") ∷ twin (lit "twin,x=2") (lit "2") (lit "2") ∷ []

abbrev only_twin : Row ℕ
only_twin = record {
  id = lit "twin";
  features = (lit "twin", lit "y") ∷ [];
  args = lit "-twin" ∷ [];
  fingerprint = lit "f";
  boot = booted 100;
}

not_known : value_at (lit "twin") (renames twins (only_twin ∷ [])) ≡ none
unfolding value_at renames distance lit text_eq ◌+ℤ◌
not_known = refl

-- A row with a slower median, one that is gone, and one that is new.
slower :
    section_lines whole_numbers
      (record before { boot = booted 100; id = lit "gone"; features = [] } ∷ before ∷ [])
      (record before { boot = booted 690 } ∷ only_twin ∷ [])
      0
      false
    ≡ (lit "| kvm | usable p50 +200% | 230 / 239" <> arrow <> lit "690 / 699 |")
      ∷ lit "| twin | new row | 100 / 109 |"
      ∷ lit "| gone | row gone | 100 / 109 |"
      ∷ []
unfolding section_lines lit text_eq contains distance ◌+ℤ◌ decimal join
slower = refl
