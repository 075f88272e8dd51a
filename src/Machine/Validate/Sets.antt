-- ===== src/Machine/Validate/Sets.antt =====
-- The descriptor sets that `fdSets` of machine/machine.go passes.
use mathlib.Core.Path.{fun_ext}
use spin_machine.Common.{
  ℕ, ◌≡◌, ◌≢◌, refl, sym, ◌∙◌, ◌↔◌, List, [], ◌∷◌, arith, false, ◌||◌, ok, switch, each, is_empty,
  All, >>_iff, each_iff,
}
use spin_machine.Common.Int.{ℤ, pos, ◌≤ℤ◌, eq_ℤ, eq_ℤ_iff}
use spin_machine.Machine.Types.{Fd, FdSet, Spec}
use spin_machine.Machine.Validate.{
  Ids, add_id, fd_sets, fd_sets_from, check_fd, set_given_twice, set_empty,
}
use spin_machine.Machine.Validate.Parts.{is_empty_iff}

-- Some set has this id.
abbrev pub known : List FdSet → Ids
known [] x = false
known (s ∷ ss) x = eq_ℤ s.id x || known ss x

-- A set holds a descriptor, and each of its descriptors is none of the standard three.
abbrev pub IsHeld : FdSet → Type 0
IsHeld s = (s.fds ≢ []) × All (λ fd. pos 3 ≤ℤ fd.num) s.fds

-- No two sets have one id.
abbrev pub DistinctIds : List FdSet → Type 0
DistinctIds [] = Unit
DistinctIds (s ∷ ss) = All (λ t. t.id ≢ s.id) ss × DistinctIds ss

-- None of the sets has an id that was given.
abbrev Fresh : Ids → List FdSet → Type 0
Fresh ids = All (λ t. ids t.id ≡ false)

check_set_iff :
    (ids : Ids) (s : FdSet)
    → (switch ((ids s.id, set_given_twice s.id) ∷ (is_empty s.fds, set_empty s.id) ∷ []) ≡ ok tt)
      ↔ ((ids s.id ≡ false) × (s.fds ≢ []))
unfolding switch
check_set_iff ids s = ground (arith, is_empty_iff s.fds)

check_fds_iff :
    (id : ℤ) (i : ℕ) (fds : List Fd)
    → (each (check_fd id) i fds ≡ ok tt) ↔ All (λ fd. pos 3 ≤ℤ fd.num) fds
check_fds_iff id = each_iff _ (check_fd id) (λ i fd. ground arith)

Fresh-add :
    (id : ℤ) (ids : Ids) (ss : List FdSet)
    → Fresh (add_id id ids) ss ↔ (All (λ t. t.id ≢ id) ss × Fresh ids ss)
Fresh-add id ids [] = (λ _. (tt, tt), λ _. tt)
Fresh-add id ids (s ∷ ss) = ground (arith, Fresh-add id ids ss, eq_ℤ_iff id s.id)

known_step :
    (ids : Ids) (s : FdSet) (ss : List FdSet)
    → ◌≡◌ {A = Ids} (λ x. known ss x || add_id s.id ids x) (λ x. known (s ∷ ss) x || ids x)
known_step ids s ss = fun_ext λ x. ground arith

-- What `fdSets` returns, where it returns sets at all.
fd_sets_from_iff :
    (ids r : Ids) (ss : List FdSet)
    → (fd_sets_from ids ss ≡ ok r)
      ↔ (Fresh ids ss × All IsHeld ss × DistinctIds ss × (r ≡ λ x. known ss x || ids x))
unfolding fd_sets_from
fd_sets_from_iff ids r [] = (λ h. (tt, tt, tt, cc), λ h. cc (h.3))
fd_sets_from_iff ids r (s ∷ ss) =
    let rest = fd_sets_from_iff (add_id s.id ids) r ss in
    let all =
      >>_iff (switch ((ids s.id, set_given_twice s.id) ∷ (is_empty s.fds, set_empty s.id) ∷ [])) _
        (check_set_iff ids s)
        (>>_iff (each (check_fd s.id) 0 s.fds) (fd_sets_from (add_id s.id ids) ss)
          (check_fds_iff s.id 0 s.fds) rest) in
    (
      λ h.
          let ((new, some_fd), (fds, (fresh, held, distinct, same))) = all.0 h in
          let (apart, old) = (Fresh-add s.id ids ss).0 fresh in
          ((new, old), ((some_fd, fds), held), (apart, distinct), same ∙ known_step ids s ss),
      λ h.
          let ((new, old), ((some_fd, fds), held), (apart, distinct), same) = h in
          all.1 (
            (new, some_fd),
            (
              fds,
              (
                (Fresh-add s.id ids ss).1 (apart, old),
                held,
                distinct,
                same ∙ sym (known_step ids s ss),
              ),
            ),
          ),
    )

-- `fdSets` returns the ids of the sets exactly where no id is given twice and every set holds
-- descriptors that are none of the standard three.
pub fd_sets_iff :
    (s : Spec) (r : Ids)
    → (fd_sets s ≡ ok r) ↔ (All IsHeld s.fd_sets × DistinctIds s.fd_sets × (r ≡ known s.fd_sets))
unfolding fd_sets
fd_sets_iff s r =
    let all = fd_sets_from_iff (λ _. false) r s.fd_sets in
    (
      λ h.
          let (fresh, held, distinct, same) = all.0 h in
          (held, distinct, same ∙ known_all s.fd_sets),
      λ h. all.1 (fresh_all s.fd_sets, h.0, h.1, h.2 ∙ sym (known_all s.fd_sets)),
    )
  where
    known_all : (ss : List FdSet) → ◌≡◌ {A = Ids} (λ x. known ss x || false) (known ss)
    known_all ss = fun_ext λ x. ground arith

    fresh_all : (ss : List FdSet) → Fresh (λ _. false) ss
    fresh_all [] = tt
    fresh_all (t ∷ ss) = (refl, fresh_all ss)
