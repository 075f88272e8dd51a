-- ===== src/Machine/Validate.antt =====
-- `Spec.validate` of machine/machine.go, and the checks of its parts.
pub mod Parts
pub mod Sets
pub mod Disks
pub mod Head
pub mod Whole
use spin_machine.Common.{
  ℕ, suc, Text, lit, Bool, true, false, not, bool_eq, ◌&&◌, ◌||◌, ◌==◌, ltb, List, [], ◌∷◌, length,
  is_empty, text_eq, contains, has_byte, Result, ok, err, Checked, reject, switch, each, wrap,
  ◌>>=◌, ◌>>◌,
}
use spin_machine.Common.Int.{ℤ, pos, ltb_ℤ, eq_ℤ, is_zero}
use spin_machine.Cmdline
use spin_machine.Cmdline.{CmdlineError}
use spin_machine.Machine.Mac.{is_mac48}
use spin_machine.Machine.Types.{
  Image, Disk, Fd, FdSet, Nic, Monitor, Spec, max_disks, max_nics, max_hotplug_disks,
}

-- What is wrong with a spec: one constructor for each error of the source, in its order.
pub data SpecError : Type 0 where
  no_qemu no_kernel no_firmware : SpecError
  bios_is_path accelerator cpu_model : Text → SpecError
  boot_cpus : ℤ → SpecError
  max_cpus_below max_mb_below : ℤ → ℤ → SpecError
  memory : ℤ → SpecError
  too_many_disks too_many_nics : ℕ → SpecError
  hotplug_disks : ℤ → SpecError
  in_cmdline : CmdlineError → SpecError
  in_monitor in_nic in_disk in_image : ℕ → SpecError → SpecError
  both_or_neither : SpecError
  standard_descriptor : ℤ → SpecError
  set_given_twice set_empty : ℤ → SpecError
  two_consoles : SpecError
  no_console_set no_kvm_set : ℤ → SpecError
  kvm_not_used : Text → SpecError
  no_vsock : SpecError
  not_mac48 : Text → SpecError
  no_image path_and_chain chain_format : SpecError
  no_format unknown_format : Text → SpecError
  no_image_set : ℤ → SpecError
  raw_has_no_backing : SpecError

-- `x < 3`: a descriptor that is stdin, stdout or stderr, or none.
abbrev pub is_standard : ℤ → Bool
is_standard fd = ltb_ℤ fd (pos 3)

-- `Monitor.validate`.
unfoldable pub validate_monitor : Monitor → Checked SpecError
validate_monitor m = switch (
    (bool_eq (is_empty m.socket) (is_zero m.fd), both_or_neither)
    ∷ (not (is_zero m.fd) && is_standard m.fd, standard_descriptor m.fd)
    ∷ [])

-- `map[int]bool`: the ids that have been set to true.
abbrev pub Ids : Type 0
Ids = ℤ → Bool

-- `sets[id] = true`.
abbrev pub add_id : ℤ → Ids → Ids
add_id id sets x = eq_ℤ id x || sets x

abbrev check_fd : ℤ → ℕ → Fd → Checked SpecError
check_fd id i fd = reject (is_standard fd.num) (standard_descriptor fd.num)

-- The loop of `fdSets`, over the ids so far.
fd_sets_from : Ids → List FdSet → Result SpecError Ids
fd_sets_from ids [] = ok ids
fd_sets_from ids (set ∷ sets) = do
  switch ((ids set.id, set_given_twice set.id) ∷ (is_empty set.fds, set_empty set.id) ∷ [])
  each (check_fd set.id) 0 set.fds
  fd_sets_from (add_id set.id ids) sets

-- `Spec.fdSets`: the ids of the sets.
unfoldable pub fd_sets : Spec → Result SpecError Ids
unfolding fd_sets_from
fd_sets s = fd_sets_from (λ _. false) s.fd_sets

-- `NIC.validate`.
unfoldable pub validate_nic : Nic → Checked SpecError
validate_nic n = do
  switch (
      (is_standard n.tap_fd, standard_descriptor n.tap_fd)
      ∷ (not (is_zero n.vhost_fd) && is_standard n.vhost_fd, standard_descriptor n.vhost_fd)
      ∷ [])
  reject (not (is_mac48 n.mac)) (not_mac48 n.mac)

-- `diskFormats`.
unfoldable pub disk_formats : List Text
disk_formats = lit "qcow2" ∷ lit "raw" ∷ []

-- One image of a chain of `n`, at position `j`.
unfoldable pub validate_image : Ids → ℕ → ℕ → Image → Checked SpecError
validate_image sets n j img = wrap (in_image j) (
    switch (
      (not (sets img.fd_set), no_image_set img.fd_set)
      ∷ (is_empty img.format, no_format [])
      ∷ (not (contains disk_formats img.format), unknown_format img.format)
      ∷ (text_eq img.format (lit "raw") && not (suc j == n), raw_has_no_backing)
      ∷ []))

-- `Disk.validate`.
unfoldable pub validate_disk : Ids → Disk → Checked SpecError
validate_disk sets d = do
  switch (
      (is_empty d.path && is_empty d.chain, no_image)
      ∷ (not (is_empty d.path) && not (is_empty d.chain), path_and_chain)
      ∷ (not (is_empty d.path) && is_empty d.format, no_format d.path)
      ∷ (not (is_empty d.path) && not (contains disk_formats d.format), unknown_format d.format)
      ∷ (not (is_empty d.chain) && not (is_empty d.format), chain_format)
      ∷ [])
  each (validate_image sets (length d.chain)) 0 d.chain

-- The first switch of `Spec.validate`.
unfoldable pub validate_head : Spec → Checked SpecError
validate_head s = switch (
    (is_empty s.qemu, no_qemu)
    ∷ (is_empty s.kernel, no_kernel)
    ∷ (is_empty s.firmware, no_firmware)
    ∷ (has_byte b'/' s.bios, bios_is_path s.bios)
    ∷ (
      not (is_empty s.accel)
          && not (text_eq s.accel (lit "kvm"))
          && not (text_eq s.accel (lit "tcg")),
      accelerator s.accel,
    )
    ∷ (
      has_byte b',' s.cpu || has_byte b' ' s.cpu || has_byte 9 s.cpu || has_byte 10 s.cpu,
      cpu_model s.cpu,
    )
    ∷ (ltb_ℤ s.boot_cpus (pos 1), boot_cpus s.boot_cpus)
    ∷ (
      not (is_zero s.max_cpus) && ltb_ℤ s.max_cpus s.boot_cpus,
      max_cpus_below s.max_cpus s.boot_cpus,
    )
    ∷ (
      not (is_zero s.memory.max_mb) && ltb_ℤ s.memory.max_mb s.memory.size_mb,
      max_mb_below s.memory.max_mb s.memory.size_mb,
    )
    ∷ (ltb_ℤ s.memory.size_mb (pos 1), memory s.memory.size_mb)
    ∷ (ltb max_disks (length s.disks), too_many_disks (length s.disks))
    ∷ (ltb max_nics (length s.nics), too_many_nics (length s.nics))
    ∷ (
      ltb_ℤ s.hotplug_disks (pos 0) || ltb_ℤ (pos max_hotplug_disks) s.hotplug_disks,
      hotplug_disks s.hotplug_disks,
    )
    ∷ [])

-- The second, over the ids of the descriptor sets.
unfoldable pub validate_descriptors : Ids → Spec → Checked SpecError
validate_descriptors sets s = switch (
    (not (is_zero s.serial_fd_set) && not (is_empty s.serial), two_consoles)
    ∷ (not (is_zero s.serial_fd_set) && not (sets s.serial_fd_set), no_console_set s.serial_fd_set)
    ∷ (
      not (is_zero s.kvm_fd_set) && not (is_empty s.accel) && not (text_eq s.accel (lit "kvm")),
      kvm_not_used s.accel,
    )
    ∷ (not (is_zero s.kvm_fd_set) && not (sets s.kvm_fd_set), no_kvm_set s.kvm_fd_set)
    ∷ (not (is_zero s.vsock_fd) && is_zero s.vsock_cid, no_vsock)
    ∷ (not (is_zero s.vsock_fd) && is_standard s.vsock_fd, standard_descriptor s.vsock_fd)
    ∷ [])

-- `Spec.validate`.
unfoldable pub validate : Spec → Checked SpecError
validate s = do
  validate_head s
  wrap in_cmdline (Cmdline.validate s.cmdline)
  each (λ i m. wrap (in_monitor i) (validate_monitor m)) 0 s.monitors
  sets ← fd_sets s
  validate_descriptors sets s
  each (λ i n. wrap (in_nic i) (validate_nic n)) 0 s.nics
  each (λ i d. wrap (in_disk i) (validate_disk sets d)) 0 s.disks
