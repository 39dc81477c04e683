-- ===== src/Gdb.antt =====
-- src/gdb_stub.cpp: the hexadecimal codec and the framing of the remote serial protocol.
-- A text is its bytes. What the socket will deliver is a list, at whose end `sock_recv` fails, and a
-- send goes through.
pub mod Codec
pub mod Registers
pub mod Packets
pub mod Server
use tool_i8085_trace.Prelude.{
  ℕ, ◌+◌, ◌-◌, ◌*◌, ◌/◌, ◌%◌, ◌&&◌, Option, none, some, List, [], ◌∷◌, ◌++◌, ltb, leb, ◌==◌,
  if◌then◌else◌, u8, u64,
}
use Prim.Native.Nat.{ℕ}

-- `hex_val`, with `none` for -1.
unfoldable pub hex_val : ℕ → Option ℕ
hex_val c =
    if leb b'0' c && leb c b'9'
    then some (c - b'0')
    else if leb b'a' c && leb c b'f'
    then some (c - b'a' + 10)
    else if leb b'A' c && leb c b'F'
    then some (c - b'A' + 10)
    else none

-- `hexchars`
unfoldable pub hex_char : ℕ → ℕ
hex_char d = if ltb d 10 then b'0' + d else b'a' + (d - 10)

-- `hex_byte`, the two characters that it stores.
unfoldable pub hex_byte : ℕ → List ℕ
hex_byte val = hex_char (val / 16 % 16) ∷ hex_char (val % 16) ∷ []

-- `parse_hex` from the value so far: the value and `*endp`. The digit fills the bits that are free.
unfoldable pub parse_hex : ℕ → List ℕ → ℕ × List ℕ
parse_hex val [] = (val, [])
parse_hex val (c ∷ cs) = elim (hex_val c) [
  | none ↦ (val, c ∷ cs)
  | some d ↦ parse_hex (u64 (val * 16 + d)) cs
]

-- The checksum of `send_packet`.
unfoldable pub checksum : ℕ → List ℕ → ℕ
checksum sum [] = sum
checksum sum (c ∷ cs) = checksum (u8 (sum + c)) cs

-- What `send_packet` sends.
unfoldable pub packet : List ℕ → List ℕ
packet text = b'$' ∷ text ++ b'#' ∷ hex_byte (checksum 0 text)

-- The two characters of the checksum are read and not looked at.
unfoldable pub skip_checksum : List ℕ → Option (List ℕ × List ℕ)
skip_checksum [] = none
skip_checksum (a ∷ []) = none
skip_checksum (a ∷ b ∷ left) = some ([], left)

-- The loop for the text: `none` where the connection ends, else the text and what is left.
unfoldable pub recv_text : List ℕ → Option (List ℕ × List ℕ)
recv_text [] = none
recv_text (c ∷ cs) =
    let rest = recv_text cs in
    if c == b'#'
    then skip_checksum cs
    else (elim rest [ none ↦ none | some (text, left) ↦ some (c ∷ text, left) ])

-- `recv_packet`: the packet, empty where the connection ends, what is left to receive, and what is
-- sent for it.
unfoldable pub recv_packet : List ℕ → List ℕ × List ℕ × List ℕ
recv_packet [] = ([], [], [])
recv_packet (c ∷ cs) =
    let later = recv_packet cs in
    if c == b'$'
    then (elim (recv_text cs) [ none ↦ ([], [], []) | some (text, left) ↦ (text, left, b'+' ∷ []) ])
    else if c == 3
    then (3 ∷ [], cs, [])
    else later
