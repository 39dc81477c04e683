-- ===== src/Main/Load.antt =====
-- src/main.cpp: the program that is loaded, flat or ELF. A file is its bytes, or none where it does
-- not open; a read that falls short of the size is left to the host. `long_bits` is the width of the
-- host's `unsigned long`, in which the guard on a segment's end adds: 64 on Linux and macOS, 32 on
-- Windows. `size_t` has 64 bits on all of them.
pub mod Laws
use tool_i8085_trace.Prelude.{
  length, get_elem?, ℕ, zero, suc, ◌+◌, ◌*◌, ◌%◌, ◌^◌, Bool, true, false, Option, none, some, List,
  [], ◌∷◌, ltb, ◌!=◌, if◌then◌else◌, starts_with, codes, take, drop,
}
use tool_i8085_trace.Cpu.State.{State, store}

-- `memcpy(&memory[addr], bytes, n)`
unfoldable pub fill : (ℕ → ℕ) → ℕ → List ℕ → ℕ → ℕ
fill memory addr [] = memory
fill memory addr (byte ∷ bytes) = fill (store memory addr byte) (addr + 1) bytes

unfoldable pub byte_at : List ℕ → ℕ → ℕ
byte_at d o = elim (get_elem? d o) [ none ↦ 0 | some byte ↦ byte ]

-- The lambdas `u16` and `u32` of `LoadElf`: little-endian numbers.
unfoldable pub half_at : List ℕ → ℕ → ℕ
half_at d o = byte_at d o + byte_at d (o + 1) * 0x100

unfoldable pub word_at : List ℕ → ℕ → ℕ
word_at d o = half_at d o + half_at d (o + 2) * 0x10000

-- One program header: the memory, and whether the loop goes on.
unfoldable pub load_segment : ℕ → List ℕ → (ℕ → ℕ) → ℕ → (ℕ → ℕ) × Bool
load_segment long_bits d memory ph =
    let p_offset = word_at d (ph + 4) in
    let p_paddr = word_at d (ph + 12) in
    let p_filesz = word_at d (ph + 16) in
    if word_at d ph != 1
    then (memory, true)
    else if ltb (length d) (p_offset + p_filesz)
    then (memory, false)
    else if ltb 0x10000 ((p_paddr + p_filesz) % 2 ^ long_bits)
    then (memory, false)
    else (fill memory p_paddr (take p_filesz (drop p_offset d)), true)

-- The program headers from number `i` on; false for an error.
unfoldable pub load_segments : ℕ → List ℕ → (ℕ → ℕ) → ℕ → ℕ → ℕ → ℕ → (ℕ → ℕ) × Bool
load_segments long_bits d memory e_phoff e_phentsize i zero = (memory, true)
load_segments long_bits d memory e_phoff e_phentsize i (suc more) =
    let (loaded, fine) = load_segment long_bits d memory (e_phoff + i * e_phentsize) in
    let rest = load_segments long_bits d loaded e_phoff e_phentsize (i + 1) more in
    if ltb (length d) (e_phoff + i * e_phentsize + 20)
    then (memory, true)
    else if fine
    then rest
    else (loaded, false)

-- `LoadElf`: the memory and the entry, none for -1.
unfoldable pub load_elf : ℕ → (ℕ → ℕ) → Option (List ℕ) → (ℕ → ℕ) × Option ℕ
load_elf long_bits memory none = (memory, none)
load_elf long_bits memory (some d) =
    if ltb (length d) 52
    then (memory, none)
    else (let (loaded, fine) =
          load_segments long_bits d memory (word_at d 28) (half_at d 42) 0 (half_at d 44) in
        (loaded, if fine then some (word_at d 24 % 0x10000) else none))

-- `LoadBinary`
unfoldable pub load_binary : (ℕ → ℕ) → Option (List ℕ) → ℕ → (ℕ → ℕ) × Bool
load_binary memory none load_addr = (memory, false)
load_binary memory (some d) load_addr =
    if ltb 0x10000 (load_addr + length d) then (memory, false) else (fill memory load_addr d, true)

-- `IsElfFile`
unfoldable pub is_elf_file : Option (List ℕ) → Bool
is_elf_file none = false
is_elf_file (some d) = starts_with (0x7f ∷ codes "ELF") d

-- Where the program starts, with `-e` or without.
unfoldable pub entry_of : Bool → ℕ → ℕ → ℕ
entry_of true entry_addr elf_entry = entry_addr
entry_of false entry_addr elf_entry = elf_entry

-- `main`: the memory and the entry, or none where the program ends with an error. The ports, which
-- are cleared too, are left out.
unfoldable pub load_program : ℕ → (ℕ → ℕ) → Option (List ℕ) → ℕ → Bool → ℕ → Option ((ℕ → ℕ) × ℕ)
load_program long_bits memory file load_addr entry_set entry_addr =
    let cleared : ℕ → ℕ = λ x. if ltb x 0x10000 then 0 else memory x in
    let (image, start) = load_elf long_bits cleared file in
    let (flat, fine) = load_binary cleared file load_addr in
    if is_elf_file file
    then elim start [
      | none ↦ none
      | some elf_entry ↦ some (image, entry_of entry_set entry_addr elf_entry)
    ]
    else if fine
    then some (flat, entry_addr)
    else none
