-- ===== src/Cmdline/Valid.antt =====
-- `validate` of machine/cmdline.go, and what a line that it passes reads as.
use spin_machine.Common.{
  ℕ, Text, lit, ◌≡◌, List, arith, false, ◌<◌, All, ◌↔◌, or-false, length, ok, each, contains,
  has_byte-Lacks, Lacks, >>_iff, reject_ok, each_iff,
}
use spin_machine.Cmdline.{
  Cmdline, has_space, fields, validate, check_parameter, check_extra, render, max_cmdline,
}
use spin_machine.Cmdline.Words.{IsSolid, has_space-IsSolid}

-- One kernel parameter's value: no space and no quote in it.
pub record IsParameter (v : Text) : Type 0 where
  pub unspaced : has_space v ≡ false
  pub unquoted : Lacks b'"' v

pub record IsValid (c : Cmdline) : Type 0 where
  pub console : IsParameter c.console
  pub init : IsParameter c.init
  pub root : IsParameter c.root
  pub extra : All (λ e. contains (fields e) (lit "--") ≡ false) c.extra
  pub short : length (render c) < max_cmdline

check_parameter_ok : (name v : Text) → (check_parameter name v ≡ ok tt) ↔ IsParameter v
unfolding check_parameter
check_parameter_ok name v = (
  λ h.
      let r = or-false _ _ ((reject_ok _ _).0 h) in
      record { unspaced = r.0; unquoted = (has_byte-Lacks b'"' v).0 r.1 },
  λ h. rw (h.unspaced, (has_byte-Lacks b'"' v).1 h.unquoted),
)

each_extra_ok :
    (i : ℕ) (es : List Text)
    → (each check_extra i es ≡ ok tt) ↔ All (λ e. contains (fields e) (lit "--") ≡ false) es
unfolding check_extra
each_extra_ok = each_iff _ check_extra (λ i e. reject_ok _ _)

-- `validate` passes exactly the valid command lines: the console, the init and the root each hold no
-- white space and no double quote, no extra parameter has a `--` among its words as they are cut at
-- white space, and the line has fewer bytes than the kernel's 2048.
pub validate_line_iff : (c : Cmdline) → (validate c ≡ ok tt) ↔ IsValid c
unfolding validate
validate_line_iff c =
    let steps = >>_iff (check_parameter (lit "console") c.console) _ (check_parameter_ok _ _) (
      >>_iff (check_parameter (lit "init") c.init) _ (check_parameter_ok _ _) (
        >>_iff (check_parameter (lit "root") c.root) _ (check_parameter_ok _ _)
          (>>_iff (each check_extra 0 c.extra) _ (each_extra_ok 0 c.extra) (reject_ok _ _)))) in
    (
      λ h.
          let (console, (init, (root, (extra, short)))) = steps.0 h in
          record {
            console = console;
            init = init;
            root = root;
            extra = extra;
            short = ground arith;
          },
      λ v. steps.1 (v.console, (v.init, (v.root, (v.extra, ground (arith, v.short))))),
    )

pub IsParameter-IsSolid : (v : Text) → IsParameter v → IsSolid v
IsParameter-IsSolid v h = has_space-IsSolid v h.unspaced
