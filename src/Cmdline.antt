-- ===== src/Cmdline.antt =====
-- The kernel command line: machine/cmdline.go.
pub mod Words
pub mod Valid
pub mod Reading
pub mod Separator
use spin_machine.Common.{
  ℕ, String, Text, lit, ◌<>◌, ◌==◌, if◌then◌else◌, Bool, true, false, not, ◌||◌, List, [], ◌∷◌,
  ◌++◌, leb, Checked, reject, ◌>>◌, each, contains, has_byte, is_empty, join, length,
}
use spin_machine.Common.Int.{ℤ, pos}
use spin_machine.Common.Numeral.{itoa}

pub record Cmdline : Type 0 where
  pub console : Text
  pub quiet : Bool
  pub log_level : ℤ
  pub init : Text
  pub root : Text
  pub root_readonly : Bool
  pub extra : List Text

-- `DefaultCmdline`.
abbrev pub default_cmdline : Cmdline
default_cmdline = record {
  console = lit "ttyS0";
  quiet = true;
  log_level = pos 3;
  init = [];
  root = [];
  root_readonly = false;
  extra = [];
}

-- What an `if` without `else` appends.
abbrev pub when {ℓ} : {A : Type ℓ} → Bool → List A → List A
when b xs = if b then xs else []

-- The parameters that every line carries: one each for the calls of `append` from `pci=lastbus=0`
-- to `TERM=dumb`.
unfoldable pub fixed_parts : List Text
fixed_parts =
    lit "pci=lastbus=0"
    ∷ lit "panic=1"
    ∷ lit "net.ifnames=0"
    ∷ lit "biosdevname=0"
    ∷ lit "systemd.unified_cgroup_hierarchy=1"
    ∷ lit "cgroup_no_v1=all"
    ∷ lit "memhp_default_state=online"
    ∷ lit "no_timer_check"
    ∷ lit "tsc=reliable"
    ∷ lit "rcupdate.rcu_expedited=1"
    ∷ lit "TERM=dumb"
    ∷ []

-- The parts that `String` joins.
unfoldable pub parts : Cmdline → List Text
parts c =
    when (not (is_empty c.console)) ((lit "console=" <> c.console) ∷ [])
    ++ (when c.quiet (lit "quiet" ∷ [])
        ++ ((lit "loglevel=" <> itoa c.log_level) ∷ []
            ++ (when (not (is_empty c.root))
                  ((lit "root=" <> c.root) ∷ (if c.root_readonly then lit "ro" else lit "rw") ∷ [])
                ++ (fixed_parts
                    ++ (c.extra ++ when (not (is_empty c.init)) ((lit "init=" <> c.init) ∷ []))))))

-- `String`.
unfoldable pub render : Cmdline → Text
render c = join (lit " ") (parts c)

-- `maxCmdline`.
abbrev pub max_cmdline : ℕ
max_cmdline = 2048

unfoldable pub is_space : ℕ → Bool
is_space r = r == b' ' || r == 9 || r == 10 || r == 11 || r == 12 || r == 13

-- `strings.ContainsFunc(s, isSpace)`: no byte of a character beyond ASCII is one of these.
unfoldable pub has_space : Text → Bool
unfolding is_space
has_space [] = false
has_space (c ∷ s) = is_space c || has_space s

flush : Text → List Text → List Text
flush [] rest = rest
flush (c ∷ cur) rest = (c ∷ cur) ∷ rest

gather : Text → Text → List Text
unfolding flush
gather [] cur = flush cur []
gather (c ∷ s) cur = elim (is_space c) [
  | true ↦ flush cur (gather s [])
  | false ↦ gather s (cur ++ c ∷ [])
]

-- `strings.FieldsFunc(s, isSpace)`: the runs of bytes between spaces, none of them empty.
unfoldable pub fields : Text → List Text
unfolding gather is_space
fields s = gather s []

pub data CmdlineError : Type 0 where
  not_one_parameter : Text → Text → CmdlineError
  holds_separator : Text → CmdlineError
  too_long : ℕ → CmdlineError

-- One round of the first loop of `validate`.
unfoldable pub check_parameter : Text → Text → Checked CmdlineError
check_parameter name value =
    reject (has_space value || has_byte b'"' value) (not_one_parameter name value)

-- One round of its second loop.
unfoldable pub check_extra : ℕ → Text → Checked CmdlineError
check_extra i e = reject (contains (fields e) (lit "--")) (holds_separator e)

-- `Cmdline.validate`.
unfoldable pub validate : Cmdline → Checked CmdlineError
validate c = do
  check_parameter (lit "console") c.console
  check_parameter (lit "init") c.init
  check_parameter (lit "root") c.root
  each check_extra 0 c.extra
  reject (leb max_cmdline (length (render c))) (too_long (length (render c)))

-- `Profiling`. A list is a value here: the clip of the source is what keeps its array one.
unfoldable pub profiling : Cmdline → Cmdline
profiling c = record c {
  quiet = false;
  log_level = pos 0;
  extra =
      c.extra
      ++ lit "initcall_debug"
        ∷ lit "printk.time=1"
        ∷ lit "log_buf_len=4M"
        ∷ lit "trace_event=initcall:*"
        ∷ lit "trace_buf_size=4M"
        ∷ [];
}
