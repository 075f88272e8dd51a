-- ===== src/Tests/Lines.antt =====
-- The theorems on command lines at one line, and on option strings at values that hold commas.
use spin_machine.Common.{false, lit, ◌<>◌, ◌≡◌, ◌↔◌, [], ◌∷◌, ◌++◌, contains, ok, arith, Lacks}
use spin_machine.Common.Numeral.{decimal}
use spin_machine.Cmdline.{fields, render, validate, when}
use spin_machine.Cmdline.Valid.{IsValid, validate_line_iff}
use spin_machine.Cmdline.Separator.{contains-fields_separator}
use spin_machine.Machine.Options.{comma, options}
use spin_machine.Machine.Command.{drive_arg}
use spin_machine.Machine.Values.{options-drive_arg}
use spin_machine.Tests.Sample.{line, line_passes, overlay}

line-IsValid : IsValid line
line-IsValid = (validate_line_iff line).0 line_passes

validate_line_iff_example : (validate line ≡ ok tt) ↔ IsValid line
validate_line_iff_example = validate_line_iff line

contains-fields_separator_example : contains (fields (render line)) (lit "--") ≡ false
contains-fields_separator_example = contains-fields_separator line line-IsValid

qcow2-Lacks : Lacks comma (lit "qcow2")
unfolding lit
qcow2-Lacks = omega arith

options-drive_arg_example :
    options (drive_arg overlay 0)
    ≡ (lit "file=" <> overlay.path)
        ∷ lit "if=none"
        ∷ (lit "id=blk" <> decimal 0)
        ∷ (lit "format=" <> overlay.format)
        ∷ lit "aio=io_uring"
        ∷ lit "discard=unmap"
        ∷ lit "file.drop-cache=off"
        ∷ when overlay.direct_over_backing
            (lit "cache.direct=on" ∷ lit "backing.cache.direct=off" ∷ [])
      ++ (when overlay.readonly (lit "readonly=on" ∷ [])
          ++ when overlay.locking (lit "file.locking=on" ∷ []))
options-drive_arg_example = options-drive_arg overlay 0 qcow2-Lacks
