-- ===== src/Main/Arguments/Ranges.antt =====
-- src/main.cpp: the ranges of the numbers that the options give.
use tool_i8085_trace.Prelude.{
  ℕ, ◌^◌, ◌≤◌, ◌<◌, ◌≡◌, Option, none, some, List, [], ◌∷◌, ◌++◌, arith, if◌then◌else◌, u16,
  strtoul, drop, skip_spaces,
}
use Prim.Native.Nat.{ℕ}
use mathlib.Core.Path.{subst}
use tool_i8085_trace.Main.{ScheduledIrq, PeriodicTimer, Tracepoint, add_tracepoint}
use tool_i8085_trace.Main.Options.{
  MemoryDump, IoInit, has_hex_prefix, parse_hex, parse_irq, parse_dump, parse_io_init,
}
use tool_i8085_trace.Main.Options.Laws.{IsCode, parse_code-IsCode, strtoul_small}
use tool_i8085_trace.Main.Arguments.{
  Settings, fgets_lines, add_line, add_lines, parse_tracepoint_file, parse_port, parse_level,
}

abbrev pub All : {A : Type 0} → (A → Type 0) → List A → Type 0
All P [] = Unit {0}
All P (x ∷ xs) = P x × All P xs

pub snoc-All :
    {A : Type 0} (P : A → Type 0) (xs : List A) (x : A) → All P xs → P x → All P (xs ++ x ∷ [])
snoc-All P [] x h p = (p, tt)
snoc-All P (y ∷ ys) x (q, h) p = (q, snoc-All P ys x h p)

abbrev pub IsWord : ℕ → Type 0
IsWord n = n < 65536

abbrev pub IrqInRange : ScheduledIrq → Type 0
IrqInRange q = IsCode q.code × (q.at_step < 2 ^ 64)

abbrev pub TimerInRange : PeriodicTimer → Type 0
TimerInRange t =
    IsCode t.code
    × (0 < t.period_cycles)
    × (t.period_cycles < 2 ^ 64)
    × (t.next_trigger_cycle ≡ t.period_cycles)

abbrev pub DumpInRange : MemoryDump → Type 0
DumpInRange d = IsWord d.start × IsWord d.length

abbrev pub TracepointInRange : Tracepoint → Type 0
TracepointInRange tp = IsWord tp.pc

abbrev pub IoInRange : IoInit → Type 0
IoInRange io = (io.port < 256) × (io.value < 256)

abbrev pub LevelInRange : Option ℕ → Type 0
LevelInRange none = Unit {0}
LevelInRange (some level) = level ≤ 1

-- Every number of the settings fits the machine and the loop that it is for.
pub record InRange (s : Settings) : Type 0 where
  pub load_fits : IsWord s.load_addr
  pub entry_fits : IsWord s.entry_addr
  pub sp_fits : IsWord s.sp_addr
  pub steps_fit : s.max_steps < 2 ^ 64
  pub stops_fit : All IsWord s.stop_addrs
  pub irqs_fit : All IrqInRange s.irqs
  pub timers_fit : All TimerInRange s.timers
  pub dumps_fit : All DumpInRange s.dumps
  pub tracepoints_fit : All TracepointInRange s.tracepoints
  pub tracepoint_max_fits : s.tracepoint_max < 2 ^ 64
  pub io_fits : All IoInRange s.io_init
  pub sid_fits : LevelInRange s.sid_init
  pub port_fits : IsWord s.gdb_port

pub parse_hex-IsWord : (str : List ℕ) (v : ℕ) → parse_hex str ≡ some v → IsWord v
unfolding parse_hex
parse_hex-IsWord str v e = ground (arith, e)

pub parse_irq-IrqInRange : (str : List ℕ) (q : ScheduledIrq) → parse_irq str ≡ some q → IrqInRange q
unfolding parse_irq
parse_irq-IrqInRange str q e = grind (arith, parse_code-IsCode, strtoul_small)

pub parse_dump-DumpInRange :
    (str : List ℕ) (d : MemoryDump) → parse_dump str ≡ some d → DumpInRange d
unfolding parse_dump
parse_dump-DumpInRange str d e = grind (arith, parse_hex-IsWord)

pub parse_io_init-IoInRange :
    (str : List ℕ) (io : IoInit) → parse_io_init str ≡ some io → IoInRange io
unfolding parse_io_init
parse_io_init-IoInRange str io e = ground (arith, e)

pub parse_port-IsWord : (str : List ℕ) (v : ℕ) → parse_port str ≡ some v → IsWord v
unfolding parse_port
parse_port-IsWord str v e = ground (arith, e)

pub parse_level-InRange : (str : List ℕ) (v : ℕ) → parse_level str ≡ some v → v ≤ 1
unfolding parse_level
parse_level-InRange str v e = ground (arith, e)

pub add_tracepoint-InRange :
    (tps : List Tracepoint) (addr : ℕ)
    → All TracepointInRange tps
    → IsWord addr
    → All TracepointInRange (add_tracepoint tps addr)
unfolding add_tracepoint
add_tracepoint-InRange [] addr h w = (w, tt)
add_tracepoint-InRange (tp ∷ tps) addr (p, h) w =
    ground (arith, p, h, add_tracepoint-InRange tps addr h w)

-- What a parser of tracepoints leaves, if anything.
abbrev pub Left : Option (List Tracepoint) → Type 0
Left none = Unit {0}
Left (some tps) = All TracepointInRange tps

u16-IsWord : (v : ℕ) → IsWord (u16 v)
u16-IsWord v = omega arith

add_line-InRange :
    (line : List ℕ) (tps : List Tracepoint) → All TracepointInRange tps → Left (add_line line tps)
unfolding add_line
add_line-InRange [] tps h = h
add_line-InRange (ch ∷ chs) tps h =
    let p : List ℕ = ch ∷ chs in
    let val = (strtoul 16 (if has_hex_prefix p then drop 2 p else p)).0 in
    ground (arith, h, add_tracepoint-InRange tps (u16 val) h (u16-IsWord val))

add_lines-InRange :
    (lines : List (List ℕ)) (tps : List Tracepoint)
    → All TracepointInRange tps
    → Left (add_lines lines tps)
unfolding add_lines
add_lines-InRange [] tps h = h
add_lines-InRange (line ∷ lines) tps h =
    go (add_line (skip_spaces line) tps) (add_line-InRange (skip_spaces line) tps h)
      (λ more g. add_lines-InRange lines more g)
  where
    go :
        (added : Option (List Tracepoint))
        → Left added
        → ((more : List Tracepoint) → All TracepointInRange more → Left (add_lines lines more))
        → Left (elim added [ none ↦ none | some more ↦ add_lines lines more ])
    go none g rest = tt
    go (some more) g rest = rest more g

pub parse_tracepoint_file-InRange :
    (read_file : List ℕ → Option (List ℕ)) (path : List ℕ) (tps : List Tracepoint)
    → All TracepointInRange tps
    → Left (parse_tracepoint_file read_file path tps)
unfolding parse_tracepoint_file
parse_tracepoint_file-InRange read_file path tps h = go (read_file path)
  where
    go :
        (file : Option (List ℕ))
        → Left (elim file [ none ↦ none | some text ↦ add_lines (fgets_lines 255 text) tps ])
    go none = tt
    go (some text) = add_lines-InRange (fgets_lines 255 text) tps h

pub Left-some :
    (o : Option (List Tracepoint)) (v : List Tracepoint)
    → Left o
    → o ≡ some v
    → All TracepointInRange v
Left-some none v h e = ground (arith, e)
Left-some (some w) v h e = subst (λ x. Left x) e h
