-- ===== src/Main/Arguments/Accepted.antt =====
-- src/main.cpp: the settings that the options leave are in range.
use tool_i8085_trace.Prelude.{
  ℕ, ◌≡◌, refl, Bool, true, false, Option, none, some, List, [], ◌∷◌, ◌++◌, arith, if◌then◌else◌,
}
use Prim.Native.Nat.{ℕ}
use mathlib.Core.Path.{subst}
use tool_i8085_trace.Main.{add_tracepoint}
use tool_i8085_trace.Main.Options.{parse_hex, parse_irq, parse_timer, parse_dump, parse_io_init}
use tool_i8085_trace.Main.Options.Laws.{strtoul_small, parse_timer-IsCode}
use tool_i8085_trace.Main.Arguments.{
  Settings, Outcome, go_on, exit, with_value, default_settings, parse_tracepoint_file, parse_port,
  parse_level, choose_arch, value_option, apply_option, apply_options,
}
use tool_i8085_trace.Main.Arguments.Ranges.{
  snoc-All, IsWord, IrqInRange, TimerInRange, DumpInRange, IoInRange, InRange, parse_hex-IsWord,
  parse_irq-IrqInRange, parse_dump-DumpInRange, parse_io_init-IoInRange, parse_port-IsWord,
  parse_level-InRange, add_tracepoint-InRange, parse_tracepoint_file-InRange, Left-some,
}

-- What a case leaves, if it does not end the program.
abbrev pub Fine : Outcome → Type 0
Fine (go_on s) = InRange s
Fine (exit n) = Unit {0}

if-Fine : (b : Bool) (x y : Outcome) → Fine x → Fine y → Fine (if b then x else y)
if-Fine true x y p q = p
if-Fine false x y p q = q

with_value-Fine :
    {A : Type 0} (o : Option A) (set : A → Settings)
    → ((v : A) → o ≡ some v → InRange (set v))
    → Fine (with_value o set)
with_value-Fine none set h = tt
with_value-Fine (some v) set h = h v refl

module _ (read_file : List ℕ → Option (List ℕ)) (s : Settings) (h : InRange s) where
  load_case :
      (optarg : List ℕ) → Fine (with_value (parse_hex optarg) (λ v. record s { load_addr = v }))
  load_case optarg =
      with_value-Fine (parse_hex optarg) _ (λ v e. ground (arith, h, parse_hex-IsWord optarg v e))

  entry_case :
      (optarg : List ℕ)
      → Fine (with_value (parse_hex optarg) (λ v. record s { entry_addr = v; entry_set = true }))
  entry_case optarg =
      with_value-Fine (parse_hex optarg) _ (λ v e. ground (arith, h, parse_hex-IsWord optarg v e))

  sp_case : (optarg : List ℕ) → Fine (with_value (parse_hex optarg) (λ v. record s { sp_addr = v }))
  sp_case optarg =
      with_value-Fine (parse_hex optarg) _ (λ v e. ground (arith, h, parse_hex-IsWord optarg v e))

  stop_case :
      (optarg : List ℕ)
      → Fine (with_value (parse_hex optarg) (λ v. record s { stop_addrs = s.stop_addrs ++ v ∷ [] }))
  stop_case optarg = with_value-Fine (parse_hex optarg) _ (λ v e.
      ground (arith, h, snoc-All IsWord s.stop_addrs v h.stops_fit (parse_hex-IsWord optarg v e)))

  irq_case :
      (optarg : List ℕ)
      → Fine (with_value (parse_irq optarg) (λ v. record s { irqs = s.irqs ++ v ∷ [] }))
  irq_case optarg = with_value-Fine (parse_irq optarg) _ (λ v e.
      ground (arith, h, snoc-All IrqInRange s.irqs v h.irqs_fit (parse_irq-IrqInRange optarg v e)))

  timer_case :
      (optarg : List ℕ)
      → Fine (with_value (parse_timer optarg) (λ v. record s { timers = s.timers ++ v ∷ [] }))
  timer_case optarg = with_value-Fine (parse_timer optarg) _ (λ v e.
      ground
        (arith, h, snoc-All TimerInRange s.timers v h.timers_fit (parse_timer-IsCode optarg v e)))

  dump_case :
      (optarg : List ℕ)
      → Fine (with_value (parse_dump optarg) (λ v. record s { dumps = s.dumps ++ v ∷ [] }))
  dump_case optarg = with_value-Fine (parse_dump optarg) _ (λ v e.
      ground
        (arith, h, snoc-All DumpInRange s.dumps v h.dumps_fit (parse_dump-DumpInRange optarg v e)))

  io_case :
      (optarg : List ℕ)
      → Fine (with_value (parse_io_init optarg) (λ v. record s { io_init = s.io_init ++ v ∷ [] }))
  io_case optarg = with_value-Fine (parse_io_init optarg) _ (λ v e.
      ground
        (arith, h, snoc-All IoInRange s.io_init v h.io_fits (parse_io_init-IoInRange optarg v e)))

  sid_case :
      (optarg : List ℕ)
      → Fine (with_value (parse_level optarg) (λ v. record s { sid_init = some v }))
  sid_case optarg =
      with_value-Fine (parse_level optarg) _
        (λ v e. ground (arith, h, parse_level-InRange optarg v e))

  tracepoint_case :
      (optarg : List ℕ)
      → Fine (
          with_value
            (parse_hex optarg)
            (λ v. record s { tracepoints = add_tracepoint s.tracepoints v }))
  tracepoint_case optarg = with_value-Fine (parse_hex optarg) _ (λ v e. ground (
    arith,
    h,
    add_tracepoint-InRange s.tracepoints v h.tracepoints_fit (parse_hex-IsWord optarg v e),
  ))

  tracepoint_file_case :
      (optarg : List ℕ)
      → Fine (
          with_value
            (parse_tracepoint_file read_file optarg s.tracepoints)
            (λ v. record s { tracepoints = v }))
  tracepoint_file_case optarg =
      with_value-Fine (parse_tracepoint_file read_file optarg s.tracepoints) _ (λ v e. ground (
        arith,
        h,
        Left-some (parse_tracepoint_file read_file optarg s.tracepoints) v
            (parse_tracepoint_file-InRange read_file optarg s.tracepoints h.tracepoints_fit) e,
      ))

  port_case :
      (optarg : List ℕ) → Fine (with_value (parse_port optarg) (λ v. record s { gdb_port = v }))
  port_case optarg =
      with_value-Fine (parse_port optarg) _ (λ v e. ground (arith, h, parse_port-IsWord optarg v e))

  value_option-Fine : (opt : ℕ) (optarg : List ℕ) → Fine (value_option read_file s opt optarg)
  unfolding value_option choose_arch
  value_option-Fine opt optarg = ground (
    arith,
    h,
    load_case optarg,
    entry_case optarg,
    sp_case optarg,
    stop_case optarg,
    irq_case optarg,
    timer_case optarg,
    dump_case optarg,
    io_case optarg,
    sid_case optarg,
    tracepoint_case optarg,
    tracepoint_file_case optarg,
    port_case optarg,
  )

  apply_option-Fine : (opt : ℕ) (optarg : List ℕ) → Fine (apply_option read_file s opt optarg)
  unfolding apply_option
  apply_option-Fine opt optarg =
      ground (arith, h, strtoul_small 10 optarg, value_option-Fine opt optarg)

apply_options-Fine :
    (read_file : List ℕ → Option (List ℕ)) (opts : List (ℕ × List ℕ)) (s : Settings)
    → InRange s
    → Fine (apply_options read_file s opts)
unfolding apply_options
apply_options-Fine read_file [] s h = h
apply_options-Fine read_file ((opt, optarg) ∷ opts) s h =
    go (apply_option read_file s opt optarg) (apply_option-Fine read_file s h opt optarg)
      (λ t g. apply_options-Fine read_file opts t g)
  where
    go :
        (o : Outcome)
        → Fine o
        → ((t : Settings) → InRange t → Fine (apply_options read_file t opts))
        → Fine (elim o [ go_on t ↦ apply_options read_file t opts | exit n ↦ exit n ])
    go (go_on t) g rest = rest t g
    go (exit n) g rest = tt

-- The numbers of the settings are in range after any options that are accepted: addresses and dumps
-- within 16 bits, counts and steps within 64, ports and their values within a byte, the level of SID
-- 0 or 1, the debugger's port a TCP port, the interrupts and timers ones that `triggerInterrupt`
-- knows, and every period above 0.
pub apply_options-InRange :
    (read_file : List ℕ → Option (List ℕ)) (opts : List (ℕ × List ℕ)) (s t : Settings)
    → InRange s
    → apply_options read_file s opts ≡ go_on t
    → InRange t
apply_options-InRange read_file opts s t h e =
    subst (λ o. Fine o) e (apply_options-Fine read_file opts s h)

pub default_settings-InRange : InRange default_settings
default_settings-InRange = record {
  load_fits = omega arith;
  entry_fits = omega arith;
  sp_fits = omega arith;
  steps_fit = omega arith;
  stops_fit = tt;
  irqs_fit = tt;
  timers_fit = tt;
  dumps_fit = tt;
  tracepoints_fit = tt;
  tracepoint_max_fits = omega arith;
  io_fits = tt;
  sid_fits = tt;
  port_fits = omega arith;
}
