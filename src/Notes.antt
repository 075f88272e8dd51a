-- ===== src/Notes.antt =====
-- hack/releasenotes/main.go: what a release changed. Git is a function of its arguments, and
-- `versions.Parse` one of a file's bytes.
pub mod Texts
pub mod Config
pub mod Patches
pub mod Touching
pub mod Places
pub mod Listed
pub mod Configured
use spin_machine.Common.{
  ℕ, Text, lit, ◌<>◌, Bool, true, false, not, ◌&&◌, ◌||◌, List, [], ◌∷◌, ◌++◌, map, length, Option,
  none, some, Result, ok, err, ◌>>=◌, is_empty, text_eq, join, if◌then◌else◌,
}
use spin_machine.Common.Numeral.{decimal}
use spin_machine.Common.Split.{split, cut_before}
use spin_machine.Release.Trim.{trim_space}
use spin_machine.Release.Manifest.{cut_after}
use Texts.{lines, has_prefix}
use Config.{Git, VersionParser, section, write_versions, write_kernel_config}
use Patches.{write_patches}

-- `commit`.
pub record Commit : Type 0 where
  pub subject : Text
  pub files : List Text

-- A part of a release: its title and the paths that build it.
pub record Part : Type 0 where
  pub title : Text
  pub paths : List Text

-- `parts`.
unfoldable pub parts : List Part
parts =
    record { title = lit "QEMU and firmware"; paths = lit "qemu/" ∷ [] }
    ∷ record { title = lit "Kernel"; paths = lit "kernel/" ∷ [] }
    ∷ record { title = lit "Base image"; paths = lit "image/" ∷ lit "e2fsprogs/" ∷ [] }
    ∷ record {
      title = lit "The machine's definition and the spin-machine CLI";
      paths = lit "machine/" ∷ lit "cmd/" ∷ [];
    }
    ∷ []

abbrev pub any {ℓ} : {A : Type ℓ} → (A → Bool) → List A → Bool
any p [] = false
any p (x ∷ xs) = p x || any p xs

abbrev pub select {ℓ} : {A : Type ℓ} → (A → Bool) → List A → List A
select p [] = []
select p (x ∷ xs) = let rest = select p xs in if p x then x ∷ rest else rest

-- `touches`.
unfoldable pub touches : Commit → List Text → Bool
touches c prefixes = any (λ f. any (λ p. has_prefix p f) prefixes) c.files

-- `only`.
unfoldable pub only : Commit → Text → Bool
only c file = not (is_empty c.files) && not (any (λ f. not (text_eq f file)) c.files)

-- The files of a record of the log.
unfoldable pub files_of : List Text → List Text
files_of [] = []
files_of (f ∷ fs) =
    let rest = files_of fs in if is_empty (trim_space f) then rest else trim_space f ∷ rest

unfoldable pub commit_of : Text → Commit
unfolding files_of
commit_of rec = record {
  subject = cut_before rec b'\n';
  files = files_of (lines (cut_after rec b'\n'));
}

-- The slice `[1:]`.
abbrev pub behind_first : List Text → List Text
behind_first [] = []
behind_first (x ∷ xs) = xs

-- `git.commits`.
unfoldable pub commits : Git → Text → Text → Result Text (List Commit)
unfolding commit_of
commits git from to = do
  out ← git (
      lit "log"
      ∷ lit "--reverse"
      ∷ lit "--no-merges"
      ∷ lit "--format=%x00%s"
      ∷ lit "--name-only"
      ∷ (from <> lit ".." <> to)
      ∷ [])
  ok (map commit_of (behind_first (split out 0)))

-- The commits that touch a part, and those outside of all.
unfoldable pub under : Part → List Commit → List Commit
under p cs = select (λ c. touches c p.paths) cs

unfoldable pub is_outside : Commit → Bool
is_outside c =
    not (any (λ (p : Part). touches c p.paths) parts) && not (only c (lit "versions.yaml"))

unfoldable pub outside : List Commit → List Commit
outside cs = select is_outside cs

unfoldable pub subjects : List Commit → Text
subjects [] = []
subjects (c ∷ cs) = lit "- " <> c.subject <> lit "\n" <> subjects cs

abbrev pub part_text : Text → List Commit → Text
part_text title [] = []
part_text title (c ∷ cs) = lit "### " <> title <> lit "\n\n" <> subjects (c ∷ cs) <> lit "\n"

unfoldable pub parts_text : List Part → List Commit → Text
unfolding subjects
parts_text [] cs = []
parts_text (p ∷ ps) cs = part_text p.title (under p cs) ++ parts_text ps cs

abbrev pub nothing_text : Text → List Commit → Text
nothing_text from [] = lit "Nothing: this is the tree " <> from <> lit " was built from.\n\n"
nothing_text from (c ∷ cs) = []

abbrev pub outside_text : List Commit → Text
outside_text [] = []
outside_text (c ∷ cs) =
    lit "<details><summary>"
    <> decimal (length (c ∷ cs))
    <> lit " more, none of them in the machine: tests, the lab, CI, tooling</summary>\n\n"
    <> subjects (c ∷ cs)
    <> lit "\n</details>\n\n"

-- What has been written, and the error that ended the writing, if any.
pub record Notes : Type 0 where
  pub text : Text
  pub error : Option Text

-- A writer after what has been written.
abbrev pub written_then : Text → Option Text → Result Text Text → Notes
written_then t (some e) more = record { text = t; error = some e }
written_then t none (ok s) = record { text = t ++ s; error = none }
written_then t none (err e) = record { text = t; error = some e }

abbrev pub then_write : Notes → Result Text Text → Notes
then_write n more = written_then n.text n.error more

-- What comes first, with the commits of each part.
abbrev pub head : Text → List Commit → Notes
head from cs = record {
  text =
      lit "## What changed since "
      <> from
      <> lit "\n\n"
      <> parts_text parts cs
      <> nothing_text from cs;
  error = none;
}

-- Then the pins, the kernel's options and the patches.
abbrev pub with_changes : Git → VersionParser → Text → Text → Notes → Notes
with_changes git parse from to n =
    then_write
      (then_write (then_write n (write_versions git parse from to))
        (write_kernel_config git from to))
      (write_patches git from to)

abbrev pub write_commits : Git → VersionParser → Text → Text → Result Text (List Commit) → Notes
write_commits git parse from to (err e) = record { text = []; error = some e }
write_commits git parse from to (ok cs) =
    then_write (with_changes git parse from to (head from cs)) (ok (outside_text (outside cs)))

-- `write`.
unfoldable pub write : Git → VersionParser → Text → Text → Notes
unfolding commits parts_text under outside
write git parse from to = write_commits git parse from to (commits git from to)

-- What `run` comes to behind the parsing of its flags: the exit status, what is written, and whether
-- the flag for the previous release is missing or an error is written.
pub data Complaint : Type 0 where
  from_required : Complaint
  not_written : Text → Complaint

pub record Exit : Type 0 where
  pub status : ℕ
  pub written : Text
  pub complaint : Option Complaint

abbrev exit_of : Text → Option Text → Exit
exit_of t none = record { status = 0; written = t; complaint = none }
exit_of t (some e) = record { status = 1; written = t; complaint = some (not_written e) }

-- `run`.
unfoldable pub run : Git → VersionParser → Text → Text → Exit
unfolding write
run git parse from to =
    if is_empty from
    then record { status = 2; written = []; complaint = some from_required }
    else exit_of (write git parse from to).text (write git parse from to).error
