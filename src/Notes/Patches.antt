-- ===== src/Notes/Patches.antt =====
-- `writePatches` and `patchSubject` of hack/releasenotes/main.go.
use spin_machine.Common.{
  Text, lit, ◌<>◌, Bool, true, false, ◌&&◌, ◌==◌, List, [], ◌∷◌, ◌++◌, Option, none, some, Result,
  ok, ◌>>=◌, has_byte, join, if◌then◌else◌,
}
use spin_machine.Common.Split.{cut_before}
use spin_machine.Release.Manifest.{cut_after}
use spin_machine.Release.Trim.{trim_space}
use spin_machine.Notes.Config.{Git, section}
use spin_machine.Notes.Texts.{lines, has_prefix, has_suffix, trim_prefix, trim_right}

-- `patchDirs`.
unfoldable pub patch_dirs : List Text
patch_dirs = lit "qemu/patches" ∷ lit "qemu/qboot" ∷ lit "kernel/patches" ∷ []

-- What follows the first `] `, if there is one.
unfoldable pub behind_bracket : Text → Option Text
behind_bracket [] = none
behind_bracket (c ∷ []) = none
behind_bracket (c ∷ d ∷ s) =
    let rest = behind_bracket (d ∷ s) in
    if c == b']' then (if d == b' ' then some s else rest) else rest

abbrev or_subject : Text → Option Text → Text
or_subject s none = s
or_subject s (some t) = t

-- A subject without its bracket.
unfoldable pub plain_subject : Text → Text
unfolding has_prefix behind_bracket
plain_subject s = if has_prefix (lit "[") s then or_subject s (behind_bracket s) else s

-- The loop, with the lines of the subject once it is in one.
unfoldable pub subject_from : Option (List Text) → List Text → Option Text
subject_from subject [] = none
subject_from none (l ∷ ls) =
    let line = trim_right b'\n' l in
    let started = subject_from (some (trim_prefix (lit "Subject: ") line ∷ [])) ls in
    let on = subject_from none ls in if has_prefix (lit "Subject: ") line then started else on
subject_from (some subject) (l ∷ ls) =
    let line = trim_right b'\n' l in
    let started = subject_from (some (trim_prefix (lit "Subject: ") line ∷ [])) ls in
    let longer = subject_from (some (subject ++ trim_space line ∷ [])) ls in
    if has_prefix (lit "Subject: ") line
    then started
    else if has_prefix (lit " ") line
    then longer
    else some (plain_subject (join (lit " ") subject))

-- `patchSubject`.
unfoldable pub patch_subject : Text → Option Text
unfolding subject_from plain_subject lines trim_right trim_prefix
patch_subject body = subject_from none (lines body)

-- What a patch's file is called after a change: the new name where it was renamed.
unfoldable pub patch_file : Text → Text
patch_file file = if has_byte b'\t' file then cut_after file b'\t' else file

-- The verb and the tree to read a patch from, by the first byte of its status, which a trimmed line
-- with a tab has.
abbrev pub verb_of : Text → Text → Text → Text × Text
verb_of from to [] = (lit "changed", to)
verb_of from to (c ∷ _) =
    if c == b'A'
    then (lit "added", to)
    else if c == b'D'
    then (lit "removed", from)
    else (lit "changed", to)

module _ (git : Git) where
  -- What a patch is about: its subject, or that of the last commit that changed it.
  abbrev about_of : Text → Text → Option Text → Result Text Text
  about_of ref file (some about) = ok about
  about_of ref file none = do
    last ← git (lit "log" ∷ lit "-1" ∷ lit "--format=%s" ∷ ref ∷ lit "--" ∷ file ∷ [])
    ok (trim_space last)

  unfoldable pub patch_line : Text → Text → Text → Result Text Text
  unfolding patch_subject
  patch_line ref verb file = do
    body ← git (lit "show" ∷ (ref <> lit ":" <> file) ∷ [])
    about ← about_of ref file (patch_subject body)
    ok (lit "- " <> verb <> lit " `" <> file <> lit "`: " <> about)

  -- Whether a line of the changes is one of a patch.
  unfoldable pub is_patch : Text → Bool
  unfolding has_suffix
  is_patch line = has_byte b'\t' line && has_suffix (lit ".patch") (cut_after line b'\t')

  -- The loop over the changes of a directory.
  unfoldable pub change_lines : Text → Text → List Text → Result Text (List Text)
  unfolding patch_line patch_file is_patch
  change_lines from to [] = ok []
  change_lines from to (l ∷ ls) =
      let line = trim_space l in
      let told = verb_of from to (cut_before line b'\t') in
      elim (is_patch line) [
        | false ↦ change_lines from to ls
        | true ↦ do
          first ← patch_line told.1 told.0 (patch_file (cut_after line b'\t'))
          rest ← change_lines from to ls
          ok (first ∷ rest)
      ]

  -- The loop over the directories.
  unfoldable pub dir_lines : Text → Text → List Text → Result Text (List Text)
  unfolding change_lines lines
  dir_lines from to [] = ok []
  dir_lines from to (dir ∷ dirs) = do
    changes ← git (lit "diff" ∷ lit "--name-status" ∷ from ∷ to ∷ lit "--" ∷ dir ∷ [])
    these ← change_lines from to (lines changes)
    rest ← dir_lines from to dirs
    ok (these ++ rest)

  -- `writePatches`.
  unfoldable pub write_patches : Text → Text → Result Text Text
  unfolding dir_lines patch_dirs
  write_patches from to = do
    ls ← dir_lines from to patch_dirs
    ok (section (lit "Patches to upstream source") ls)
