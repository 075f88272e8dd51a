-- ===== src/Tests/Hacks.antt =====
-- The tools of hack/ at concrete inputs, and the theorems at them.
use mathlib.Core.List.{Memᴰ}
use spin_machine.Common.{
  ◌≡◌, ◌↔◌, refl, lit, Text, List, [], ◌∷◌, none, false, ok, err, is_empty, if◌then◌else◌, text_eq,
  Bool, contains, has_byte,
}
use spin_machine.Common.Split.{split, cut_before}
use spin_machine.Pinned.{check, deprecates}
use spin_machine.Pinned.Versions.{parse, offered, version_eq, newer}
use spin_machine.Packages.Locked.{Installed}
use spin_machine.Issues.{plan}
use spin_machine.Issues.Findings.{Finding, read_findings}
use spin_machine.Issues.Running.{Setting, run}
use spin_machine.Issues.Carried.{IsRun, run-IsCarried}
use spin_machine.Notes.{Commit, commits, write}
use spin_machine.Notes.Config.{
  Git, VersionParser, write_versions, write_kernel_config, option_lines, sorted_keys,
}
use spin_machine.Notes.Patches.{write_patches}
use spin_machine.Notes.Configured.{IsSame, option_lines_iff}
use spin_machine.Notes.Texts.{lines}
use spin_machine.Notes.Places.{IsListed}
use spin_machine.Notes.Listed.{write-lists}
use spin_machine.Release.Manifest.{Env, value_of, cut_after}
use spin_machine.Release.Trim.{trim_space}

abbrev help : Text
help =
    lit
      "Supported machines are:\npc-q35-11.2           Standard PC (Q35)\npc-q35-11.1           Standard PC (Q35)\npc-q35-6.0           Standard PC (Q35) (deprecated)\n"

old_one : check help (lit "pc-q35-6.0") ≡ err (deprecates (lit "pc-q35-6.0"))
unfolding check split lit trim_space offered parse version_eq newer
old_one = refl

abbrev busybox : Installed
busybox = record {
  before = lit "C:Q1abc" ∷ [];
  known = record { name = lit "busybox"; version = lit "1.37.0-r9" };
  after = lit "A:x86_64" ∷ [];
}

abbrev known_options : Env
known_options = (lit "PVH", lit "y") ∷ []

abbrev fewer_options : Env
fewer_options = (lit "PVH", lit "y") ∷ (lit "USB", lit "n") ∷ []

option_lines_iff_example :
    (option_lines known_options fewer_options (sorted_keys known_options fewer_options) ≡ [])
    ↔ ((opt : Text) → IsSame (value_of known_options opt) (value_of fewer_options opt))
option_lines_iff_example = option_lines_iff known_options fewer_options

no_change : option_lines known_options fewer_options (sorted_keys known_options fewer_options) ≡ []
unfolding option_lines sorted_keys lit contains value_of
no_change = refl

-- A history of one commit to the kernel, and nothing else to say.
abbrev is_log : List Text → Bool
is_log [] = false
is_log (a ∷ _) = text_eq a (lit "log")

abbrev git : Git
git args = ok (if is_log args then 0 ∷ lit "kernel: drop USB\n\nkernel/config-6.18\n" else [])

abbrev parser : VersionParser
parser body = ok []

abbrev the_commit : Commit
the_commit = record { subject = lit "kernel: drop USB"; files = lit "kernel/config-6.18" ∷ [] }

the_commits : commits git (lit "v1") (lit "HEAD") ≡ ok (the_commit ∷ [])
unfolding commits split lit text_eq trim_space cut_before cut_after lines
the_commits = refl

no_error : (write git parser (lit "v1") (lit "HEAD")).error ≡ none
unfolding write commits split lit text_eq trim_space cut_before cut_after lines write_versions
    write_kernel_config write_patches
no_error = refl

write-lists_example :
    IsListed (the_commit ∷ []) the_commit (write git parser (lit "v1") (lit "HEAD")).text
write-lists_example =
    write-lists git parser (lit "v1") (lit "HEAD") (the_commit ∷ []) the_commit the_commits no_error
      (Memᴰ.head refl)

-- One finding and no issue, on a GitHub that does all that it is asked.
abbrev one_finding : Text
one_finding = lit "CVE-1\tzlib@1.3\toverflow\n"

abbrev findings : List Finding
findings = record { id = lit "CVE-1"; pkg = lit "zlib@1.3"; summary = lit "overflow" } ∷ []

abbrev github : Setting
github = record {
  cli = λ n args. ok [];
  open_file = λ path. ok (one_finding, none);
  decode = λ out. ok [];
  quote = λ t. t;
}

findings_read : read_findings one_finding none ≡ ok findings
unfolding read_findings split lit cut_before cut_after has_byte
findings_read = refl

named : is_empty (lit "v1") ≡ false
unfolding lit
named = refl

filed : is_empty (lit "osv.txt") ≡ false
unfolding lit
filed = refl

run-IsCarried_example :
    IsRun github false (plan (lit "v1") findings []) (run github (lit "v1") (lit "osv.txt") false)
run-IsCarried_example =
    run-IsCarried github (lit "v1") (lit "osv.txt") one_finding [] none findings [] false named
      filed refl findings_read refl refl
