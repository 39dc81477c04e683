-- ===== src/Main/Arguments.antt =====
-- src/main.cpp: the loop over the options of `main`. `getopt_long` and the shell deliver the options
-- as a list: the number of an option and its text. A file is its bytes, or none where it does not
-- open. What is printed on stderr is left out.
pub mod Accepted
pub mod Ranges
use tool_i8085_trace.Prelude.{
  length, ℕ, zero, suc, ◌+◌, ◌-◌, Bool, true, false, not, ◌&&◌, ◌||◌, Option, none, some, List, [],
  ◌∷◌, ◌++◌, ltb, leb, ◌==◌, ◌!=◌, if◌then◌else◌, u16, codes, same_text, drop, skip_spaces, strtoul,
  numeral, auto_base,
}
use tool_i8085_trace.Main.{ScheduledIrq, PeriodicTimer, Tracepoint, add_tracepoint}
use tool_i8085_trace.Main.Options.{
  MemoryDump, IoInit, at_end, has_hex_prefix, parse_hex, parse_irq, parse_timer, parse_dump,
  parse_io_init,
}

-- `IOPluginSpec`
pub record PluginSpec : Type 0 where
  pub path : List ℕ
  pub config : Option (List ℕ)

-- `Config`, and `g_gdbZ80`; `sid_init` is none for -1.
pub record Settings : Type 0 where
  pub output_file : Option (List ℕ)
  pub coverage_file : Option (List ℕ)
  pub load_addr : ℕ
  pub entry_addr : ℕ
  pub sp_addr : ℕ
  pub max_steps : ℕ
  pub loop_detect : Bool
  pub stop_addrs : List ℕ
  pub irqs : List ScheduledIrq
  pub timers : List PeriodicTimer
  pub dumps : List MemoryDump
  pub tracepoints : List Tracepoint
  pub tracepoint_max : ℕ
  pub tracepoint_stop : Bool
  pub io_init : List IoInit
  pub io_plugins : List PluginSpec
  pub netlist_file : Option (List ℕ)
  pub io_trace : Bool
  pub sid_init : Option ℕ
  pub gdb_port : ℕ
  pub quiet : Bool
  pub summary : Bool
  pub entry_set : Bool
  pub disk_dir : Option (List ℕ)
  pub gdb_z80 : Bool

abbrev pub default_settings : Settings
default_settings = record {
  output_file = none;
  coverage_file = none;
  load_addr = 0;
  entry_addr = 0;
  sp_addr = 0xffff;
  max_steps = 1000000;
  loop_detect = true;
  stop_addrs = [];
  irqs = [];
  timers = [];
  dumps = [];
  tracepoints = [];
  tracepoint_max = 0;
  tracepoint_stop = false;
  io_init = [];
  io_plugins = [];
  netlist_file = none;
  io_trace = false;
  sid_init = none;
  gdb_port = 0;
  quiet = false;
  summary = false;
  entry_set = false;
  disk_dir = none;
  gdb_z80 = false;
}

-- What a case does: the loop goes on, or `main` returns a number.
pub data Outcome : Type 0 where
  go_on : Settings → Outcome
  exit : ℕ → Outcome

-- A value that is parsed, or `return 1`.
abbrev pub with_value : {A : Type 0} → Option A → (A → Settings) → Outcome
with_value none set = exit 1
with_value (some v) set = go_on (set v)

-- `fgets` with a buffer of 256: the lines with their ends, `room` characters left in the first.
abbrev pub first_line : ℕ → List (List ℕ) → List (List ℕ)
first_line ch [] = (ch ∷ []) ∷ []
first_line ch (l ∷ ls) = (ch ∷ l) ∷ ls

unfoldable pub fgets_lines : ℕ → List ℕ → List (List ℕ)
fgets_lines room [] = []
fgets_lines room (ch ∷ chs) =
    let full : Bool = ch == 10 || leb room 1 in
    let rest = fgets_lines (if full then 255 else room - 1) chs in
    if full then (ch ∷ []) ∷ rest else first_line ch rest

-- A line of `ParseTracepointFile`, without the white space in front.
unfoldable pub add_line : List ℕ → List Tracepoint → Option (List Tracepoint)
add_line [] tps = some tps
add_line (ch ∷ chs) tps =
    let p : List ℕ = ch ∷ chs in
    let val = (strtoul 16 (if has_hex_prefix p then drop 2 p else p)).0 in
    if ch == b'#'
    then some tps
    else if ltb 0xffff val
    then none
    else some (add_tracepoint tps (u16 val))

unfoldable pub add_lines : List (List ℕ) → List Tracepoint → Option (List Tracepoint)
add_lines [] tps = some tps
add_lines (line ∷ lines) tps = elim (add_line (skip_spaces line) tps) [
  | none ↦ none
  | some added ↦ add_lines lines added
]

-- `ParseTracepointFile`
unfoldable pub parse_tracepoint_file :
    (List ℕ → Option (List ℕ)) → List ℕ → List Tracepoint → Option (List Tracepoint)
parse_tracepoint_file read_file path tps = elim (read_file path) [
  | none ↦ none
  | some text ↦ add_lines (fgets_lines 255 text) tps
]

-- What stands behind the last colon, or the whole text.
unfoldable pub after_colon : List ℕ → List ℕ → List ℕ
after_colon last [] = last
after_colon last (ch ∷ chs) = after_colon (if ch == b':' then chs else last) chs

unfoldable pub parse_port : List ℕ → Option ℕ
parse_port optarg =
    let (minus, port, end) = numeral 10 (after_colon optarg optarg) in
    if not (at_end end) || minus || port == 0 || ltb 65535 port then none else some port

unfoldable pub parse_level : List ℕ → Option ℕ
parse_level optarg =
    let (minus, val, end) = numeral (auto_base optarg) optarg in
    if not (at_end end) || ltb 1 val || minus && val == 1 then none else some val

-- `--io-plugin-config`: the last plugin's; ignored where there is none.
unfoldable pub configure_last : List PluginSpec → List ℕ → List PluginSpec
configure_last [] config = []
configure_last (spec ∷ []) config = record spec { config = some config } ∷ []
configure_last (spec ∷ next ∷ specs) config = spec ∷ configure_last (next ∷ specs) config

unfoldable pub choose_arch : Settings → List ℕ → Outcome
choose_arch s optarg =
    if same_text optarg (codes "z80")
    then go_on (record s { gdb_z80 = true })
    else if same_text optarg (codes "i8085")
    then go_on s
    else exit 1

-- The cases that set an address or append to a list.
unfoldable pub value_option : (List ℕ → Option (List ℕ)) → Settings → ℕ → List ℕ → Outcome
value_option read_file s opt optarg =
    if opt == b'l'
    then with_value (parse_hex optarg) (λ v. record s { load_addr = v })
    else if opt == b'e'
    then with_value (parse_hex optarg) (λ v. record s { entry_addr = v; entry_set = true })
    else if opt == b'p'
    then with_value (parse_hex optarg) (λ v. record s { sp_addr = v })
    else if opt == b's'
    then with_value (parse_hex optarg) (λ v. record s { stop_addrs = s.stop_addrs ++ v ∷ [] })
    else if opt == b'i'
    then with_value (parse_irq optarg) (λ v. record s { irqs = s.irqs ++ v ∷ [] })
    else if opt == b'R'
    then with_value (parse_timer optarg) (λ v. record s { timers = s.timers ++ v ∷ [] })
    else if opt == b'd'
    then with_value (parse_dump optarg) (λ v. record s { dumps = s.dumps ++ v ∷ [] })
    else if opt == b'I'
    then with_value (parse_io_init optarg) (λ v. record s { io_init = s.io_init ++ v ∷ [] })
    else if opt == b'y'
    then with_value (parse_level optarg) (λ v. record s { sid_init = some v })
    else if opt == b't'
    then with_value (parse_hex optarg)
        (λ v. record s { tracepoints = add_tracepoint s.tracepoints v })
    else if opt == b'T'
    then with_value (parse_tracepoint_file read_file optarg s.tracepoints)
        (λ v. record s { tracepoints = v })
    else if opt == b'G'
    then with_value (parse_port optarg) (λ v. record s { gdb_port = v })
    else if opt == 1010
    then choose_arch s optarg
    else if opt == b'h'
    then exit 0
    else exit 1

-- The switch; the cases that cannot fail stand first.
unfoldable pub apply_option : (List ℕ → Option (List ℕ)) → Settings → ℕ → List ℕ → Outcome
apply_option read_file s opt optarg =
    if opt == b'n'
    then go_on (record s { max_steps = (strtoul 10 optarg).0 })
    else if opt == 1000
    then go_on (record s { loop_detect = false })
    else if opt == b'o'
    then go_on (record s { output_file = some optarg })
    else if opt == b'C'
    then go_on (record s { coverage_file = some optarg })
    else if opt == 1001
    then go_on
        (record s { io_plugins = s.io_plugins ++ record { path = optarg; config = none } ∷ [] })
    else if opt == 1002
    then go_on (record s { io_plugins = configure_last s.io_plugins optarg })
    else if opt == b'O'
    then go_on (record s { io_trace = true })
    else if opt == 1003
    then go_on (record s { disk_dir = some optarg })
    else if opt == 1004
    then go_on (record s { netlist_file = some optarg })
    else if opt == b'M'
    then go_on (record s { tracepoint_max = (strtoul 10 optarg).0 })
    else if opt == b'P'
    then go_on (record s { tracepoint_stop = true })
    else if opt == b'q'
    then go_on (record s { quiet = true })
    else if opt == b'S'
    then go_on (record s { summary = true })
    else value_option read_file s opt optarg

-- The loop over the options.
unfoldable pub apply_options : (List ℕ → Option (List ℕ)) → Settings → List (ℕ × List ℕ) → Outcome
apply_options read_file s [] = go_on s
apply_options read_file s ((opt, optarg) ∷ opts) = elim (apply_option read_file s opt optarg) [
  | go_on t ↦ apply_options read_file t opts
  | exit n ↦ exit n
]

-- The entry, where no option gives it. `std::sort` is an argument.
abbrev pub finish : (List ScheduledIrq → List ScheduledIrq) → Settings → Settings
finish sort s = record s {
  entry_addr = if s.entry_set then s.entry_addr else s.load_addr;
  irqs = sort s.irqs;
}
