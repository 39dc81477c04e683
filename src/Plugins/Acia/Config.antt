-- ===== src/Plugins/Acia/Config.antt =====
-- plugins/mc6850.cpp: the settings of the 6850. The files and the channels are the host's: the
-- contents of a file are a parameter, and the channels are the texts that the host is asked to open.
use tool_i8085_trace.Prelude.{
  ℕ, ◌+◌, ◌-◌, ◌*◌, ◌^◌, ◌%◌, Bool, true, false, ◌||◌, Option, none, some, List, [], ◌∷◌, ◌++◌, leb,
  if◌then◌else◌, u32, bit_and, strtoul, numeral, auto_base, digit_of, codes, same_text,
}
use tool_i8085_trace.Plugins.Config.{cfg_value, truthy}
use tool_i8085_trace.Plugins.Acia.{Ctx}

-- `Ctx()`
abbrev pub power_on : Ctx
power_on = record {
  ctrl_port = 0xde;
  data_port = 0xdf;
  rx = [];
  rx_pos = 0;
  rdr_full = false;
  rdr_byte = 0;
  next_arrival = 0;
  bytegap = 64;
  last_step = 0;
  rx_int_enabled = false;
  rts_asserted = true;
  last_tx = none;
  last_rx = none;
  cts_level = 1;
  dcd_level = 1;
  rxq = [];
  sent = [];
  rts_log = [];
}

-- The values of the hexadecimal digits of a text, all else dropped.
unfoldable pub hex_digits : List ℕ → List ℕ
hex_digits [] = []
hex_digits (ch ∷ chs) = elim (digit_of 16 ch) [
  | none ↦ hex_digits chs
  | some d ↦ d ∷ hex_digits chs
]

-- A byte for every two digits; an odd one at the end is dropped.
unfoldable pub pairs : List ℕ → List ℕ
pairs [] = []
pairs (d ∷ []) = []
pairs (d ∷ e ∷ ds) = (d * 16 + e) ∷ pairs ds

unfoldable pub parse_hex_bytes : List ℕ → List ℕ
parse_hex_bytes text = pairs (hex_digits text)

-- `(int)strtol(text, nullptr, 0)`: the low 32 bits of the number, cut to the range of a long.
unfoldable pub int_of : List ℕ → ℕ
int_of text =
    let (minus, val, end) = numeral (auto_base text) text in
    if minus
    then (2 ^ 32 - u32 (if leb (2 ^ 63) val then 2 ^ 63 else val)) % 2 ^ 32
    else u32 (if leb (2 ^ 63) val then 2 ^ 63 - 1 else val)

-- `base=`: the two ports.
unfoldable pub set_base : Ctx → List ℕ → Ctx
set_base x [] = x
set_base x (ch ∷ chs) =
    let base = u32 (strtoul (auto_base (ch ∷ chs)) (ch ∷ chs)).0 in
    record x { ctrl_port = bit_and base 0xff; data_port = bit_and (u32 (base + 1)) 0xff }

-- `rxfile=`, or else `rx=`; none for a file that does not open.
unfoldable pub script : (List ℕ → Option (List ℕ)) → List ℕ → List ℕ → Option (List ℕ)
script read_file [] rx = some (parse_hex_bytes rx)
script read_file (ch ∷ chs) rx = read_file (ch ∷ chs)

unfoldable pub gap_of : List ℕ → ℕ
gap_of [] = 64
gap_of (ch ∷ chs) = (strtoul 10 (ch ∷ chs)).0

-- `cts=` and `dcd=`
unfoldable pub level_of : List ℕ → ℕ
level_of [] = 1
level_of (ch ∷ chs) = if truthy (ch ∷ chs) then 1 else int_of (ch ∷ chs)

-- `window=` and `tcp=`
unfoldable pub terminal : Bool → List ℕ → List (List ℕ)
terminal true [] = codes "window" ∷ []
terminal true (ch ∷ chs) = (codes "window=" ++ ch ∷ chs) ∷ []
terminal false [] = []
terminal false (ch ∷ chs) = (codes "tcp=" ++ ch ∷ chs) ∷ []

-- The channels in the order in which they are opened.
unfoldable pub channels_of : Option (List ℕ) → List (List ℕ)
channels_of config =
    let tx = cfg_value config (codes "txlog") in
    (if same_text tx (codes "-") || same_text tx (codes "stdout") then codes "stdout" ∷ [] else [])
    ++ (if truthy (cfg_value config (codes "gdbtx")) then codes "gdbtx" ∷ [] else [])
    ++ terminal (truthy (cfg_value config (codes "window"))) (cfg_value config (codes "tcp"))

-- `i8085_io_plugin_init`: the context and the channels, or none for its error.
unfoldable pub io_plugin_init :
    (List ℕ → Option (List ℕ)) → Option (List ℕ) → Option (Ctx × List (List ℕ))
io_plugin_init read_file config =
    elim (script read_file (cfg_value config (codes "rxfile")) (cfg_value config (codes "rx"))) [
      | none ↦ none
      | some rx ↦ some (
        record (set_base power_on (cfg_value config (codes "base"))) {
          rx = rx;
          bytegap = gap_of (cfg_value config (codes "bytegap"));
          cts_level = level_of (cfg_value config (codes "cts"));
          dcd_level = level_of (cfg_value config (codes "dcd"));
        },
        channels_of config,
      )
    ]
