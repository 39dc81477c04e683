-- ===== src/Gdb/Packets.antt =====
-- src/gdb_stub.cpp: the packets that read and write registers and memory.
-- A text ends with its list; a character that C reads behind that is the NUL that stands there.

use tool_i8085_trace.Prelude.{
  ℕ, zero, suc, ◌+◌, ◌*◌, Bool, Option, none, some, List, [], ◌∷◌, ◌++◌, ltb, ◌==◌, if◌then◌else◌,
  u16, u32, word, codes, after_char, drop,
}
pub mod Laws
pub mod Memory
use Prim.Native.Nat.{ℕ}
use tool_i8085_trace.Cpu.State.{State, store}
use tool_i8085_trace.Gdb.{hex_val, hex_byte, parse_hex}
use tool_i8085_trace.Gdb.Registers.{write_reg, reg_count, reg_bytes, reg_set, hex_reg}

abbrev pub e00 : List ℕ
e00 = codes "E00"

abbrev pub okay : List ℕ
okay = codes "OK"

-- `(h0 << 4) | h1` for two digits, and what stands behind them; `none` for the `break`s.
unfoldable pub hex_pair : List ℕ → Option (ℕ × List ℕ)
hex_pair [] = none
hex_pair (c ∷ []) = none
hex_pair (c ∷ d ∷ cs) = elim (hex_val c) [
  | none ↦ none
  | some h0 ↦ elim (hex_val d) [ none ↦ none | some h1 ↦ some (h0 * 16 + h1, cs) ]
]

-- The same in `P`, where a character that is no digit gives 0.
unfoldable pub hex_pair_or_zero : List ℕ → ℕ
hex_pair_or_zero cs = elim (hex_pair cs) [ none ↦ 0 | some (v, rest) ↦ v ]

-- A register's value in `G`, for its size in bytes: every register that the loop reaches has 1 or 2.
unfoldable pub take_value : ℕ → List ℕ → Option (ℕ × List ℕ)
take_value sz p = if sz == 1 then hex_pair p else (elim (hex_pair p) [
  | none ↦ none
  | some (lo, q) ↦ elim (hex_pair q) [ none ↦ none | some (hi, r) ↦ some (word hi lo, r) ]
])

module _ {W : Type 0} (z80 : Bool) where
  -- `g`: the registers from `i` on, with the number left.
  unfoldable pub read_all : State W → ℕ → ℕ → List ℕ
  read_all s zero i = []
  read_all s (suc left) i = hex_reg z80 s i ++ read_all s left (i + 1)

  -- `G`: the same, up to the first value that is missing. The values go to `write_reg`.
  unfoldable pub write_all : State W → ℕ → ℕ → List ℕ → State W
  write_all s zero i p = s
  write_all s (suc left) i p = elim (take_value (reg_bytes z80 i) p) [
    | none ↦ s
    | some (v, rest) ↦ write_all (write_reg s i v) left (i + 1) rest
  ]

  -- `p`. The cast to int leaves a number below `reg_count` or one that is refused.
  unfoldable pub read_one : State W → List ℕ → List ℕ
  read_one s arg =
      let regnum = u32 (parse_hex 0 arg).0 in
      if ltb regnum (reg_count z80) then hex_reg z80 s regnum else e00

  -- `P`
  unfoldable pub write_one : State W → List ℕ → State W × List ℕ
  write_one s arg = elim (after_char b'=' arg) [
    | none ↦ (s, e00)
    | some vp ↦
        let regnum = u32 (parse_hex 0 arg).0 in
        let val =
          if reg_bytes z80 regnum == 1
          then hex_pair_or_zero vp
          else if reg_bytes z80 regnum == 2
          then word (hex_pair_or_zero (drop 2 vp)) (hex_pair_or_zero vp)
          else 0 in
        if ltb regnum (reg_count z80) then (reg_set z80 s regnum val, okay) else (s, e00)
  ]

-- `m`: the bytes from `addr` on.
unfoldable pub read_bytes : (ℕ → ℕ) → ℕ → ℕ → List ℕ
read_bytes memory addr zero = []
read_bytes memory addr (suc len) = hex_byte (memory (u16 addr)) ++ read_bytes memory (addr + 1) len

-- `M`: the same, up to the first byte that is missing.
unfoldable pub write_bytes : (ℕ → ℕ) → ℕ → ℕ → List ℕ → ℕ → ℕ
write_bytes memory addr zero hexdata = memory
write_bytes memory addr (suc len) hexdata = elim (hex_pair hexdata) [
  | none ↦ memory
  | some (v, rest) ↦ write_bytes (store memory (u16 addr) v) (addr + 1) len rest
]

unfoldable pub read_memory : (ℕ → ℕ) → List ℕ → List ℕ
read_memory memory arg = elim (after_char b',' arg) [
  | none ↦ e00
  | some rest ↦ read_bytes memory (u16 (parse_hex 0 arg).0) (parse_hex 0 rest).0
]

unfoldable pub write_memory : (ℕ → ℕ) → List ℕ → (ℕ → ℕ) × List ℕ
write_memory memory arg = elim (after_char b',' arg) [
  | none ↦ (memory, e00)
  | some rest ↦ elim (after_char b':' arg) [
    | none ↦ (memory, e00)
    | some hexdata ↦
        (write_bytes memory (u16 (parse_hex 0 arg).0) (parse_hex 0 rest).0 hexdata, okay)
  ]
]
