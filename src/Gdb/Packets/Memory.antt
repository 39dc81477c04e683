-- ===== src/Gdb/Packets/Memory.antt =====
-- src/gdb_stub.cpp: memory that is written with `M` and read with `m`.
use tool_i8085_trace.Prelude.{
  length, ℕ, suc, ◌+◌, ◌/◌, ◌%◌, ◌≤◌, ◌<◌, ◌≡◌, refl, ap, ◌∙◌, ◌≢◌, none, some, List, [], ◌∷◌, ◌++◌,
  arith, u16, codes, after_char, AllBytes,
}
use Prim.Native.Nat.{ℕ}
use tool_i8085_trace.Cpu.State.{store}
use tool_i8085_trace.Gdb.{hex_val, hex_char, hex_byte}
use tool_i8085_trace.Gdb.Codec.{hex_word, parse_hex-hex_word, hex_char_other}
use tool_i8085_trace.Gdb.Packets.{read_bytes, write_bytes, read_memory, write_memory}
use tool_i8085_trace.Gdb.Packets.Laws.{hex_pair-hex_byte}

-- Bytes as hexadecimal text.
abbrev pub hex_text : List ℕ → List ℕ
hex_text [] = []
hex_text (b ∷ bs) = hex_byte b ++ hex_text bs

write_bytes_step :
    (memory : ℕ → ℕ) (addr len b : ℕ) (rest : List ℕ)
    → b < 256
    → write_bytes memory addr (suc len) (hex_byte b ++ rest)
      ≡ write_bytes (store memory (u16 addr) b) (addr + 1) len rest
unfolding write_bytes
write_bytes_step memory addr len b rest h = ground (arith, hex_pair-hex_byte b rest)

write_bytes_none : (memory : ℕ → ℕ) (addr x : ℕ) → write_bytes memory addr 0 [] x ≡ memory x
unfolding write_bytes
write_bytes_none memory addr x = refl

read_bytes_step :
    (memory : ℕ → ℕ) (addr len : ℕ)
    → read_bytes memory addr (suc len)
      ≡ hex_byte (memory (u16 addr)) ++ read_bytes memory (addr + 1) len
unfolding read_bytes
read_bytes_step memory addr len = refl

read_bytes_none : (memory : ℕ → ℕ) (addr : ℕ) → read_bytes memory addr 0 ≡ []
unfolding read_bytes
read_bytes_none memory addr = refl

-- Bytes that are written `j + 1` places behind an address do not reach it around the end of memory.
write_bytes_away :
    (bs : List ℕ) (memory : ℕ → ℕ) (x j : ℕ)
    → AllBytes bs
    → length bs + j < 65536
    → write_bytes memory (x + 1 + j) (length bs) (hex_text bs) (u16 x) ≡ memory (u16 x)
write_bytes_away [] memory x j v h = write_bytes_none memory (x + 1 + j) (u16 x)
write_bytes_away (b ∷ bs) memory x j (small, v) h =
    let next = store memory (u16 (x + 1 + j)) b in
    let place : x + 1 + j + 1 ≡ x + 1 + (j + 1) = omega arith in
    let other : next (u16 x) ≡ memory (u16 x) = ground arith in
    rw (write_bytes_step memory (x + 1 + j) (length bs) b (hex_text bs) small, place)
      (write_bytes_away bs next x (j + 1) v (omega arith) ∙ other)

read_bytes-write_bytes :
    (bs : List ℕ) (memory : ℕ → ℕ) (addr : ℕ)
    → AllBytes bs
    → length bs ≤ 65535
    → read_bytes (write_bytes memory addr (length bs) (hex_text bs)) addr (length bs) ≡ hex_text bs
read_bytes-write_bytes [] memory addr v h = read_bytes_none (write_bytes memory addr 0 []) addr
read_bytes-write_bytes (b ∷ bs) memory addr (small, v) h =
    let next = store memory (u16 addr) b in
    let after = write_bytes next (addr + 1) (length bs) (hex_text bs) in
    let place : addr + 1 + 0 ≡ addr + 1 = omega arith in
    let here : after (u16 addr) ≡ b =
      ground (arith, place, write_bytes_away bs next addr 0 v (omega arith)) in
    rw
      (
        write_bytes_step memory addr (length bs) b (hex_text bs) small,
        read_bytes_step after addr (length bs),
        here,
      )
      (ap (λ (t : List ℕ). hex_byte b ++ t)
        (read_bytes-write_bytes bs next (addr + 1) v (omega arith)))

after_char_skip :
    (ch d : ℕ) (cs : List ℕ)
    → d < 16
    → hex_val ch ≡ none
    → after_char ch (hex_char d ∷ cs) ≡ after_char ch cs
unfolding after_char hex_val
after_char_skip ch d cs h e =
    let nul : hex_val 0 ≡ none = refl in
    ground (arith, hex_char_other d ch h e, hex_char_other d 0 h nul)

after_char-hex_word :
    (ch n : ℕ) (cs : List ℕ)
    → hex_val ch ≡ none
    → after_char ch (hex_word n ++ cs) ≡ after_char ch cs
unfolding hex_byte
after_char-hex_word ch n cs e =
    let d3 = n / 256 / 16 % 16 in
    let d2 = n / 256 % 16 in
    let d1 = n / 16 % 16 in
    let d0 = n % 16 in
    rw
      (
        after_char_skip ch d3 (hex_char d2 ∷ hex_char d1 ∷ hex_char d0 ∷ cs) (omega arith) e,
        after_char_skip ch d2 (hex_char d1 ∷ hex_char d0 ∷ cs) (omega arith) e,
        after_char_skip ch d1 (hex_char d0 ∷ cs) (omega arith) e,
        after_char_skip ch d0 cs (omega arith) e,
      )
      refl

after_char_here : (ch : ℕ) (cs : List ℕ) → after_char ch (ch ∷ cs) ≡ some cs
unfolding after_char
after_char_here ch cs = ground arith

after_char_past :
    (ch c : ℕ) (cs : List ℕ) → c ≢ ch → c ≢ 0 → after_char ch (c ∷ cs) ≡ after_char ch cs
unfolding after_char
after_char_past ch c cs h k = ground arith

-- The arguments of `m` and of `M`, as the debugger writes them.
abbrev pub m_argument : ℕ → ℕ → List ℕ
m_argument addr len = hex_word addr ++ (b',' ∷ (hex_word len ++ []))

abbrev pub m_argument_with : ℕ → List ℕ → List ℕ
m_argument_with addr bs = hex_word addr ++ (b',' ∷ (hex_word (length bs) ++ (b':' ∷ hex_text bs)))

write_memory_lem :
    (memory : ℕ → ℕ) (addr : ℕ) (bs : List ℕ)
    → addr < 65536
    → length bs ≤ 65535
    → write_memory memory (m_argument_with addr bs)
      ≡ (write_bytes memory addr (length bs) (hex_text bs), codes "OK")
unfolding write_memory hex_val
write_memory_lem memory addr bs h k =
    let colon = b':' ∷ hex_text bs in
    let rest = hex_word (length bs) ++ colon in
    ground (
      arith,
      after_char-hex_word b',' addr (b',' ∷ rest) refl,
      after_char_here b',' rest,
      after_char-hex_word b':' addr (b',' ∷ rest) refl,
      after_char_past b':' b',' rest,
      after_char-hex_word b':' (length bs) colon refl,
      after_char_here b':' (hex_text bs),
      parse_hex-hex_word addr (b',' ∷ rest) h refl,
      parse_hex-hex_word (length bs) colon (omega arith) refl,
    )

read_memory_lem :
    (memory : ℕ → ℕ) (addr len : ℕ)
    → addr < 65536
    → len ≤ 65535
    → read_memory memory (m_argument addr len) ≡ read_bytes memory addr len
unfolding read_memory hex_val
read_memory_lem memory addr len h k =
    let rest = hex_word len ++ [] in
    ground (
      arith,
      after_char-hex_word b',' addr (b',' ∷ rest) refl,
      after_char_here b',' rest,
      parse_hex-hex_word addr (b',' ∷ rest) h refl,
      parse_hex-hex_word len [] (omega arith) tt,
    )

-- Memory that the debugger writes it reads back: after `M` with up to 0xFFFF bytes at any address,
-- which may wrap at the end of memory, the reply is OK, and `m` for the same range gives the text
-- that was written.
pub read_memory-write_memory :
    (memory : ℕ → ℕ) (addr : ℕ) (bs : List ℕ)
    → addr < 65536
    → length bs ≤ 65535
    → AllBytes bs
    → let (after, reply) = write_memory memory (m_argument_with addr bs) in
      (reply ≡ codes "OK") × (read_memory after (m_argument addr (length bs)) ≡ hex_text bs)
read_memory-write_memory memory addr bs h k v = rw (write_memory_lem memory addr bs h k) (
  refl,
  read_memory_lem (write_bytes memory addr (length bs) (hex_text bs)) addr (length bs) h k
      ∙ read_bytes-write_bytes bs memory addr v k,
)
