-- ===== src/Gdb/Codec.antt =====
-- src/gdb_stub.cpp: what the codec and the framing give back.
use tool_i8085_trace.Prelude.{
  ℕ, ◌+◌, ◌*◌, ◌/◌, ◌%◌, ◌<◌, ◌≡◌, refl, ◌≢◌, none, some, List, [], ◌∷◌, ◌++◌, arith, u64,
}
use Prim.Native.Nat.{ℕ}
use mathlib.Core.List.{append_assoc}
use tool_i8085_trace.Gdb.{
  hex_val, hex_char, hex_byte, parse_hex, checksum, packet, skip_checksum, recv_text, recv_packet,
}

pub hex_val-hex_char : (d : ℕ) → d < 16 → hex_val (hex_char d) ≡ some d
unfolding hex_val hex_char
hex_val-hex_char d h = ground arith

-- A number below 0x10000 in four digits.
abbrev pub hex_word : ℕ → List ℕ
hex_word n = hex_byte (n / 256) ++ hex_byte n

parse_step :
    (val d : ℕ) (cs : List ℕ)
    → d < 16
    → parse_hex val (hex_char d ∷ cs) ≡ parse_hex (u64 (val * 16 + d)) cs
unfolding parse_hex
parse_step val d cs h = ground (arith, hex_val-hex_char d h)

-- A text that begins with no digit.
abbrev pub NoDigit : List ℕ → Type 0
NoDigit [] = Unit {0}
NoDigit (c ∷ cs) = hex_val c ≡ none

parse_stop : (val : ℕ) (cs : List ℕ) → NoDigit cs → parse_hex val cs ≡ (val, cs)
unfolding parse_hex
parse_stop val [] h = refl
parse_stop val (c ∷ cs) h = ground arith

-- What is printed in four digits is read back, up to a character that is no digit.
pub parse_hex-hex_word :
    (n : ℕ) (cs : List ℕ) → n < 65536 → NoDigit cs → parse_hex 0 (hex_word n ++ cs) ≡ (n, cs)
unfolding hex_byte
parse_hex-hex_word n cs h e =
    let d3 = n / 256 / 16 % 16 in
    let d2 = n / 256 % 16 in
    let d1 = n / 16 % 16 in
    let d0 = n % 16 in
    let v3 = u64 (0 * 16 + d3) in
    let v2 = u64 (v3 * 16 + d2) in
    let v1 = u64 (v2 * 16 + d1) in
    let v0 = u64 (v1 * 16 + d0) in
    let whole : v0 ≡ n = omega arith in
    rw
      (
        parse_step 0 d3 (hex_char d2 ∷ hex_char d1 ∷ hex_char d0 ∷ cs) (omega arith),
        parse_step v3 d2 (hex_char d1 ∷ hex_char d0 ∷ cs) (omega arith),
        parse_step v2 d1 (hex_char d0 ∷ cs) (omega arith),
        parse_step v1 d0 cs (omega arith),
        parse_stop v0 cs e,
      )
      (rw whole refl)

pub hex_char_other : (d ch : ℕ) → d < 16 → hex_val ch ≡ none → hex_char d ≢ ch
hex_char_other d ch h e = λ same. ground (arith, hex_val-hex_char d h)

-- A packet's text, as the framing takes it.
abbrev pub Plain : List ℕ → Type 0
Plain [] = Unit {0}
Plain (c ∷ cs) = (c ≢ b'#') × Plain cs

-- Characters between packets, such as the peer's `+`.
abbrev pub Noise : List ℕ → Type 0
Noise [] = Unit {0}
Noise (c ∷ cs) = (c ≢ b'$') × (c ≢ 3) × Noise cs

recv_text-packet :
    (text rest : List ℕ) (a b : ℕ)
    → Plain text
    → recv_text (text ++ b'#' ∷ a ∷ b ∷ rest) ≡ some (text, rest)
unfolding recv_text skip_checksum
recv_text-packet [] rest a b p = refl
recv_text-packet (c ∷ cs) rest a b (n, p) = ground (arith, recv_text-packet cs rest a b p)

-- A packet that is sent is received: behind any noise without `$` and Ctrl-C, `recv_packet` gives
-- the text that `send_packet` framed, where it has no `#`, leaves what follows
-- the packet, and acknowledges it.
pub recv_packet-packet :
    (noise text rest : List ℕ)
    → Noise noise
    → Plain text
    → recv_packet (noise ++ packet text ++ rest) ≡ (text, rest, b'+' ∷ [])
unfolding recv_packet packet hex_byte
recv_packet-packet [] text rest q p =
    let sum = checksum 0 text in
    let a = hex_char (sum / 16 % 16) in
    let b = hex_char (sum % 16) in
    let flat : (text ++ b'#' ∷ a ∷ b ∷ []) ++ rest ≡ text ++ b'#' ∷ a ∷ b ∷ rest =
      append_assoc text (b'#' ∷ a ∷ b ∷ []) rest in
    ground (arith, flat, recv_text-packet text rest a b p)
recv_packet-packet (c ∷ cs) text rest (n, m, q) p =
    ground (arith, recv_packet-packet cs text rest q p)
