-- ===== src/Release/Whole.antt =====
-- Which directories `OpenRelease` of machine/release.go opens.
use mathlib.Core.Path.{subst}
use spin_machine.Common.{
  Text, lit, ◌<>◌, ◌≡◌, refl, ◌↔◌, Bool, true, false, List, [], ◌∷◌, ok, wrap, wrap_ok, each_iff,
  each, All, Result, err, text_eq, ◌==◌, append_assoc, ◌&&◌, sym, ap, ◌>>=◌, ◌>>◌, Bool-cases, inl,
  inr, Checked,
}
use spin_machine.Machine.Command.{bios, default_bios}
use spin_machine.Release.{
  Release, Files, ReleaseError, open_release, wanted, join_path, qemu_img, spec, manifest,
  no_directory, not_whole, bad_manifest, firmware_dir,
}
use spin_machine.Release.Manifest.{read_env, Env, ManifestError}

-- What makes a directory a whole release for the machine that it describes: each file that the
-- machine names is there, and so is the tool that makes its disks; and the manifest can be read.
pub record IsWhole (files : Files) (dir : Text) (r : Release) : Type 0 where
  pub place : files.abs dir ≡ ok r.dir
  pub qemu : files.stat (spec r).qemu ≡ ok tt
  pub qemu_img : files.stat (qemu_img r) ≡ ok tt
  pub kernel : files.stat (spec r).kernel ≡ ok tt
  pub entry : files.stat (join_path (spec r).firmware (lit "pvh.bin")) ≡ ok tt
  pub bios : files.stat (join_path (spec r).firmware (bios (spec r))) ≡ ok tt
  pub env : read_env (files.read (join_path r.dir manifest)) ≡ ok r.env

and-false : (b : Bool) → (b && false) ≡ false
and-false true = refl
and-false false = refl

-- A file below a directory below another.
join_join :
    (dir name : Text)
    → join_path (join_path dir firmware_dir) name ≡ join_path dir (join_path firmware_dir name)
unfolding join_path lit text_eq
join_join [] name = refl
join_join (c ∷ []) name = elim (Bool-cases (c == b'/')) [
  | inl e ↦ rw e
  | inr e ↦ rw (e, and-false (c == b'/'))
]
join_join (c ∷ d ∷ s) name =
    rw (and-false (c == b'/'), and-false (c == b'/'))
      (ap (λ t. c ∷ d ∷ t) (append_assoc s (lit "/qemu") (lit "/" <> name)))

checks_iff :
    (files : Files) (dir : Text) (ws : List Text)
    → (each (λ _ want. wrap (not_whole dir) (files.stat (join_path dir want))) 0 ws ≡ ok tt)
      ↔ All (λ want. files.stat (join_path dir want) ≡ ok tt) ws
checks_iff files dir =
    each_iff _ _ (λ _ want. wrap_ok (not_whole dir) (files.stat (join_path dir want))) 0

-- What the checks and the manifest give, for the directory that was found.
opened_iff :
    (checks : Checked ReleaseError) (env : Result ManifestError Env) (abs : Text) (r : Release)
    → ((checks >> (wrap bad_manifest env >>= λ e. ok (record { dir = abs; env = e }))) ≡ ok r)
      ↔ ((checks ≡ ok tt) × (abs ≡ r.dir) × (env ≡ ok r.env))
opened_iff (ok tt) (ok e) abs r = (λ h. (refl, cc, cc), λ h. cc)
opened_iff (ok tt) (err e) abs r = (λ h. cc, λ h. cc)
opened_iff (err e) env abs r = (λ h. cc, λ h. cc)

found_iff :
    (dir : Text) (m : Result Text Text) (f : Text → Result ReleaseError Release) (r : Release)
    → ((a : Text) → f a ≡ ok r → a ≡ r.dir)
    → ((wrap (no_directory dir) m >>= f) ≡ ok r) ↔ ((m ≡ ok r.dir) × (f r.dir ≡ ok r))
found_iff dir (ok a) f r h =
    (λ e. let same = h a e in (ap ok same, subst (λ a. f a ≡ ok r) same e), λ p. cc)
found_iff dir (err e) f r h = (λ e. cc, λ p. cc)

-- `OpenRelease` gives a release exactly for a whole one.
pub open_release_iff :
    (files : Files) (dir : Text) (r : Release)
    → (open_release files dir ≡ ok r) ↔ IsWhole files dir r
unfolding open_release wanted bios
open_release_iff files dir r =
    let found = found_iff dir (files.abs dir) _ r (λ a e. ((opened_iff _ _ a r).0 e).1) in
    let opened = opened_iff _ (read_env (files.read (join_path r.dir manifest))) r.dir r in
    let checks = checks_iff files r.dir wanted in
    (
      λ e.
          let (at, rest) = found.0 e in
          let (passed, _, env) = opened.0 rest in
          let (a, (b, (c, (d, (f, _))))) = checks.0 passed in
          record {
            place = at;
            qemu = a;
            qemu_img = b;
            kernel = c;
            entry = rw join_join d;
            bios = rw join_join f;
            env = env;
          },
      λ w. found.1 (
        w.place,
        opened.1 (
          checks.1 (
            w.qemu,
            (
              w.qemu_img,
              (
                w.kernel,
                (
                  rw (sym (join_join r.dir (lit "pvh.bin"))) w.entry,
                  (rw (sym (join_join r.dir default_bios)) w.bios, tt),
                ),
              ),
            ),
          ),
          refl,
          w.env,
        ),
      ),
    )
