-- ===== src/Machine/Validate/Whole.antt =====
-- The specs that `validate` of machine/machine.go passes, and so those that `Args` gives a command
-- line for.
use mathlib.Core.Path.{subst}
use spin_machine.Common.{
  lit, ◌≡◌, ◌≢◌, refl, ◌↔◌, ◌⊎◌, [], arith, true, ok, each, All, >>_iff, >>=_iff, wrap, wrap_ok,
  switch_ok, text_eq_iff, each_iff, ◌>>=◌, ◌>>◌, Checked,
}
use spin_machine.Common.Int.{pos, ◌≤ℤ◌}
use spin_machine.Cmdline
use spin_machine.Cmdline.{Cmdline}
use spin_machine.Cmdline.Valid
use spin_machine.Cmdline.Valid.{validate_line_iff as cmdline_iff}
use spin_machine.Machine.Types.{Spec}
use spin_machine.Machine.Validate.{
  SpecError, Ids, fd_sets, validate, validate_head, validate_descriptors, validate_monitor,
  validate_nic, validate_disk, in_cmdline, in_monitor, in_nic, in_disk,
}
use spin_machine.Machine.Validate.Parts.{
  is_empty_iff, IsMonitor, IsNic, validate_monitor_iff, validate_nic_iff,
}
use spin_machine.Machine.Validate.Sets.{known, IsHeld, DistinctIds, fd_sets_iff}
use spin_machine.Machine.Validate.Disks.{IsDisk, validate_disk_iff}
use spin_machine.Machine.Validate.Head.{IsMachine, validate_head_iff}

-- What names a descriptor names one that is there, and that something uses.
pub record IsWired (sets : Ids) (s : Spec) : Type 0 where
  pub console : (s.serial_fd_set ≡ pos 0) ⊎ (s.serial ≡ []) × (sets s.serial_fd_set ≡ true)
  pub kvm :
      (s.kvm_fd_set ≡ pos 0) ⊎ ((s.accel ≡ []) ⊎ (s.accel ≡ lit "kvm")) × (sets s.kvm_fd_set ≡ true)
  pub vsock : (s.vsock_fd ≡ pos 0) ⊎ (s.vsock_cid ≢ pos 0) × (pos 3 ≤ℤ s.vsock_fd)

validate_descriptors_iff :
    (sets : Ids) (s : Spec) → (validate_descriptors sets s ≡ ok tt) ↔ IsWired sets s
unfolding validate_descriptors
validate_descriptors_iff sets s = (
  λ h.
      let (a, (b, (c, (d, (e, (f, _)))))) = (switch_ok _).0 h in
      record {
        console = ground (arith, is_empty_iff s.serial);
        kvm = ground (arith, is_empty_iff s.accel, text_eq_iff s.accel (lit "kvm"));
        vsock = ground arith;
      },
  λ v. (switch_ok _).1 (
    ground (arith, is_empty_iff s.serial, v.console),
    (
      ground (arith, v.console),
      (
        ground (arith, is_empty_iff s.accel, text_eq_iff s.accel (lit "kvm"), v.kvm),
        (ground (arith, v.kvm), (ground (arith, v.vsock), (ground (arith, v.vsock), tt))),
      ),
    ),
  ),
)

-- A whole valid machine.
pub record IsValid (s : Spec) : Type 0 where
  pub machine : IsMachine s
  pub cmdline : Valid.IsValid s.cmdline
  pub monitors : All IsMonitor s.monitors
  pub held : All IsHeld s.fd_sets
  pub distinct : DistinctIds s.fd_sets
  pub wired : IsWired (known s.fd_sets) s
  pub nics : All IsNic s.nics
  pub disks : All (IsDisk (known s.fd_sets)) s.disks

wrapped_iff {κ} :
    {P : Type κ} (f : SpecError → SpecError) (m : Checked SpecError)
    → (m ≡ ok tt) ↔ P
    → (wrap f m ≡ ok tt) ↔ P
wrapped_iff f m h = (λ e. h.0 ((wrap_ok f m).0 e), λ p. (wrap_ok f m).1 (h.1 p))

cmdline_checked : (c : Cmdline) → (wrap in_cmdline (Cmdline.validate c) ≡ ok tt) ↔ Valid.IsValid c
cmdline_checked c = (
  λ e. (cmdline_iff c).0 ((wrap_ok in_cmdline _).0 e),
  λ p. (wrap_ok in_cmdline _).1 ((cmdline_iff c).1 p),
)

-- What `validate` checks once the ids of the descriptor sets are known.
tail : Ids → Spec → Checked SpecError
tail sets s = do
  validate_descriptors sets s
  each (λ i n. wrap (in_nic i) (validate_nic n)) 0 s.nics
  each (λ i d. wrap (in_disk i) (validate_disk sets d)) 0 s.disks

tail_iff :
    (sets : Ids) (s : Spec)
    → (tail sets s ≡ ok tt) ↔ (IsWired sets s × (All IsNic s.nics × All (IsDisk sets) s.disks))
unfolding tail
tail_iff sets s = >>_iff (validate_descriptors sets s) _ (validate_descriptors_iff sets s) (
    >>_iff (each (λ i n. wrap (in_nic i) (validate_nic n)) 0 s.nics) _
      (each_iff IsNic _ (λ i n. wrapped_iff (in_nic i) _ (validate_nic_iff n)) 0 s.nics)
      (each_iff (IsDisk sets) _ (λ i d. wrapped_iff (in_disk i) _ (validate_disk_iff sets d)) 0
        s.disks))

sets_iff :
    (s : Spec)
    → ((fd_sets s >>= λ sets. tail sets s) ≡ ok tt) ↔ (
        (All IsHeld s.fd_sets × DistinctIds s.fd_sets)
        × (IsWired (known s.fd_sets) s
            × (All IsNic s.nics × All (IsDisk (known s.fd_sets)) s.disks)))
sets_iff s = (
  λ e.
      let (sets, got, rest) = (>>=_iff (fd_sets s) (λ sets. tail sets s)).0 e in
      let (held, distinct, same) = (fd_sets_iff s sets).0 got in
      (
        (held, distinct),
        subst (λ ids. IsWired ids s × (All IsNic s.nics × All (IsDisk ids) s.disks)) same
            ((tail_iff sets s).0 rest),
      ),
  λ h. (>>=_iff (fd_sets s) (λ sets. tail sets s)).1 (
    known s.fd_sets,
    (fd_sets_iff s (known s.fd_sets)).1 (h.0.0, h.0.1, refl),
    (tail_iff (known s.fd_sets) s).1 h.1,
  ),
)

-- `validate` passes exactly the valid machines: what it refuses is not one, and it refuses nothing
-- else.
pub validate_iff : (s : Spec) → (validate s ≡ ok tt) ↔ IsValid s
unfolding validate tail
validate_iff s =
    let all = >>_iff (validate_head s) _ (validate_head_iff s) (
      >>_iff (wrap in_cmdline (Cmdline.validate s.cmdline)) _ (cmdline_checked s.cmdline) (
        >>_iff (each (λ i m. wrap (in_monitor i) (validate_monitor m)) 0 s.monitors) _
          (each_iff IsMonitor _ (λ i m. wrapped_iff (in_monitor i) _ (validate_monitor_iff m)) 0
            s.monitors)
          (sets_iff s))) in
    (
      λ e.
          let (machine, (cmdline, (monitors, ((held, distinct), (wired, (nics, disks)))))) =
            all.0 e in
          record {
            machine = machine;
            cmdline = cmdline;
            monitors = monitors;
            held = held;
            distinct = distinct;
            wired = wired;
            nics = nics;
            disks = disks;
          },
      λ v. all.1 (
        v.machine,
        (v.cmdline, (v.monitors, ((v.held, v.distinct), (v.wired, (v.nics, v.disks))))),
      ),
    )
