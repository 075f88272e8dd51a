-- ===== src/Lib.antt =====
-- spin-machine: the virtual machine of this repository, as a QEMU command line.
--
-- The Go package of machine/ turns a description of one virtual machine, a `Spec`, into the
-- arguments of QEMU, and into a fingerprint that says which checkpoints may resume on it. An unpacked
-- release supplies the paths of a spec; the caller adds a kernel command line, disks, network cards,
-- descriptor sets and monitors. `Args` validates the spec, then writes each part in a fixed order;
-- `Fingerprint` hashes the shape and the contract, and the contract is read back out of the same
-- arguments. The boot measurements start such a machine and watch its console for the phases of a
-- boot, and sum the boots of each combination of features up in a report; two reports are compared. The
-- command-line tool talks to a running machine over QMP: it attaches and detaches disks, grows and
-- shrinks its memory, saves it and restores it. The tools of hack/ keep the repository: the lock of the
-- packages of a build, the machine type that a QEMU must offer, the issues for what is found in a
-- release, and its notes.
--
-- The files, and what they model:
--   * Common: shared names, Boolean tests, lists, bytes (a Go string is a list of bytes, `Text`),
--     results (`Result`, `Checked`, `reject`, `switch`, `each`), integers, numerals, splitting.
--   * Cmdline: machine/cmdline.go. `parts` and `render` are `Cmdline.String`; `validate` is
--     `Cmdline.validate`; `fields` is `strings.FieldsFunc` with `isSpace`; `profiling` is
--     `Cmdline.Profiling`. Its children prove what a reader of the line finds in it.
--   * Machine/Types: the types and the slots of machine/machine.go.
--   * Machine/Options: `qemuOpt`, and QEMU's reading of an option string, which is the independent
--     description that the values are checked against.
--   * Machine/Shape: `Spec.Shape` and its helpers.
--   * Machine/Mac, Machine/Validate: `net.ParseMAC` for 48 bits, and every `validate`, check by
--     check, with its error. Their children give a predicate for each.
--   * Machine/Chain: `Disk.chainArgs`, its nodes and their JSON. Its children read the nodes as QEMU
--     opens them, one after another.
--   * Machine/Command, Machine/Args: the append functions and `Spec.Args`, and `HotplugDisk`.
--   * Machine/Values, Machine/Slots: the options of the values, the devices of a whole command line,
--     and the slots that they stand on.
--   * Machine/Contract: `Spec.Contract` and `withoutTheVMs`.
--   * Machine/Fingerprint: `Spec.fingerprint`; Machine/Host is `hostCPUModel`, of a file's bytes.
--   * Release: machine/release.go, `OpenRelease` and what a release supplies to a spec; Release/Trim
--     is `strings.TrimSpace`, Release/Manifest is `readEnv` with the lines of `bufio.Scanner`.
--   * Boot: boot/phases.go, `Watch` over the reads of a console; Boot/Occurs is `bytes.Contains`,
--     Boot/Percentile is `Percentile`, of a rank that is given.
--   * Qmp: the QMP client of cmd/spin-machine/main.go and the commands that hold a conversation.
--     Qmp/Wire is what passes on the socket; Qmp/Session is `qmpConn.run`, `handshake`, `newQMP` and
--     `dialQMP`; Qmp/Wait is `waitDeleted` and `waitMigration`; Qmp/Commands is `attach`, `detach`,
--     `memory`, `save` and `restore`, and `perform`, the branches of `run` that call them.
--     Qmp/Trace reads a log: the commands sent, the devices reported deleted, and what an abstract
--     QEMU has after it. Qmp/Logic is a program logic, of what holds by how an operation ends, with
--     Qmp/Rules and Qmp/Steady its rules for `run` and the waits; Qmp/Watched says that each command
--     and report of a log was allowed by what came before, and Qmp/Dialled, Qmp/Detaching,
--     Qmp/Migrating and Qmp/Changing hold that of the commands. The results are in Qmp/Protocol,
--     Qmp/Attaching (over Qmp/Run and Qmp/Served), Qmp/Closing, Qmp/Detached (over Qmp/Live) and
--     Qmp/Sizes.
--   * Tool: `machineFlags` of cmd/spin-machine/main.go, with `register`'s defaults, `spec` and
--     `qemuArgs`; Tool/Machines is about the machine that they make, and Tool/Commands is `boot`
--     and what `fingerprint` prints.
--   * Issues: hack/osvissues/main.go. `read_findings`, `body` and `plan`; Issues/Links is its regular
--     expression `listed`, Issues/Sorting is `slices.Sort`, Issues/Settled says when `plan` is empty,
--     and Issues/Listing that `ids` reads what `body` writes. The maps by package and by title are
--     functions of their key over the slices that they are filled from.
--     Issues/Running is `run` and `describe`, and Issues/Carried says what a run does of its plan.
--     Issues/Github says what the calls make of the issues, by what the GitHub CLI documents;
--     Issues/Newest, Issues/Settling, Issues/Apart, Issues/Titled and Issues/Done are about the
--     issues that a plan leaves.
--   * Report: boot/report.go. `summarise` and `ms`; Report/Distance is `distance`, Report/Renames is
--     `renames` with `nearest` and `sameAxes`, Report/Rows is the loops of `section`, one function for
--     each, and Report/Compared is `section` and `Diff`. Report/Nearest, Report/Pairs and Report/Paired
--     are about the renames, Report/Copies and Report/Leftovers about the distance, Report/Silent and
--     Report/Same about what is not said, Report/Summed about the phases. Tool/Reports is `compare` of
--     cmd/spin-machine/main.go.
--   * Pinned: hack/machinetype/main.go. Pinned/Versions is `parse`, `newer` and the regular expression
--     `q35`; Pinned/Arrays is `array` and `Compat`; `check` and `run` are `Check` and `run`.
--     Pinned/Order and Pinned/Offered say what `Check` answers.
--   * Packages: hack/apklock/main.go. `lock` is `Lock`, `names_listed` is `Listed`; Packages/Blocks is
--     the split at empty lines, Packages/Locked reads a database back.
--   * Notes: hack/releasenotes/main.go. `commits`, `touches`, `only` and `write`; Notes/Config is the
--     pins and the kernel's configuration, Notes/Patches the patches, Notes/Texts what is used of
--     `strings` and `path`. Notes/Touching, Notes/Places, Notes/Listed and Notes/Configured are about
--     what is written.
--   * Tests: a sample machine, and each result applied to it.
--
-- Correspondence. A Go `int` is an integer `ℤ`; the one subtraction, the growth of the memory, wraps
-- at 64 bits (`sub_int`). An index of a slice is a natural number. An error is a constructor with
-- the values that its message holds. A loop over a slice is recursion on the list. `fields` gathers
-- the bytes of the current word, and splits at the bytes of `isSpace`. The digits of a number are
-- written on fuel, one more than the number, which is at least the count of its digits. The loop of
-- `Watch` is recursion on the reads that there are; after them the model waits.
--
-- A conversation is a function of the connection to an outcome: it returns a value or an error, or
-- waits for a read that never comes (`blocked`), or the model's loop has run out of rounds (`spent`,
-- which is shown not to happen). A connection holds the messages that its socket will give, in order,
-- the devices reported deleted, and a log of all that was sent, heard and said. A loop that polls has
-- one round more than there are messages to read: each round reads one at least. JSON is modelled as
-- what its decoder makes of it, and printing as a report in the log.
--
-- Parameters: the size of a file (`file_size`, a directory and a name), the hash (`hash`, of the
-- bytes written to it), the CPU of the host (`host_cpu`), which may fail, and for a release what is
-- asked of the file system (`Files`: an absolute path, whether a file is there, its bytes). A read of
-- a console carries its time since the start and its error (`Read`). A command is given the messages
-- of the socket it dials, the absolute path of a file (`Host`), and the errors of writes and of
-- deadlines and the time, by the number of calls before (`Peer`). `strings.Fields`, of the flag for
-- more of the kernel command line, is a function `words`. The floating point of the reports is a record
-- of operations (`Floats`), of which nothing is asked but, for a report against itself, that no number
-- is farther from itself than the threshold. Git, the GitHub CLI, `versions.Parse`, the decoders of
-- reports and of issues, the help of a QEMU and the quoting `%q` are functions. A JSON object, or
-- another map, is a list of entries of which the first with a key counts.
--
-- Not modelled: of the command-line tools (cmd/ and hack/) the parsing of flags, which the flag package
-- does, and the words of an error that is written; of the boot measurements (boot/) the field
-- `Row.Shape`, which no function reads, and the probe of the guest, which makes system calls only; and
-- the builds of QEMU, of the kernel and of the image. Of machine/machine.go, the
-- names of the memory blocks.
pub mod Common
pub mod Cmdline
pub mod Machine
pub mod Release
pub mod Boot
pub mod Qmp
pub mod Issues
pub mod Report
pub mod Pinned
pub mod Packages
pub mod Notes
pub mod Tool
mod Tests
