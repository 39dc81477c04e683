-- ===== src/Main/Load/Laws.antt =====
-- src/main.cpp: the loading of a program stays inside the 64 KB of memory.
use tool_i8085_trace.Prelude.{
  length, ℕ, zero, suc, ◌+◌, ◌*◌, ◌%◌, ◌^◌, ◌<◌, ◌≤◌, ◌≡◌, refl, Bool, Option, none, some, List, [],
  ◌∷◌, ltb, if◌then◌else◌, take, drop, arith, AllBytes,
}
use Prim.Native.Nat.{ℕ}
use native.Mathlib.Nat.{pow-le-pow_right, mod-eq_of_lt}
use tool_i8085_trace.Cpu.State.{store}
use tool_i8085_trace.Main.Load.{
  fill, byte_at, word_at, half_at, load_segment, load_segments, load_elf, load_binary, load_program,
}

fill-outside :
    (memory : ℕ → ℕ) (addr : ℕ) (bytes : List ℕ) (x : ℕ)
    → addr + length bytes ≤ x
    → fill memory addr bytes x ≡ memory x
unfolding fill
fill-outside memory addr [] x h = refl
fill-outside memory addr (byte ∷ bytes) x h =
    ground (arith, fill-outside (store memory addr byte) (addr + 1) bytes x (omega arith))

length-take : (n : ℕ) (bytes : List ℕ) → length (take n bytes) ≤ n
length-take zero bytes = omega arith
length-take (suc n) [] = omega arith
length-take (suc n) (b ∷ bs) = ground (arith, length-take n bs)

byte_at-lt : (d : List ℕ) (o : ℕ) → AllBytes d → byte_at d o < 256
unfolding byte_at
byte_at-lt [] o h = omega arith
byte_at-lt (x ∷ d) zero (b, h) = b
byte_at-lt (x ∷ d) (suc o) (b, h) = byte_at-lt d o h

word_at-lt : (d : List ℕ) (o : ℕ) → AllBytes d → word_at d o < 2 ^ 32
unfolding word_at half_at
word_at-lt d o h = omega (
  arith,
  byte_at-lt d o h,
  byte_at-lt d (o + 1) h,
  byte_at-lt d (o + 2) h,
  byte_at-lt d (o + 2 + 1) h,
)

-- Two 32-bit words do not overflow a wider sum.
sum_fits : (x y bits : ℕ) → x < 2 ^ 32 → y < 2 ^ 32 → 33 ≤ bits → (x + y) % 2 ^ bits ≡ x + y
sum_fits x y bits hx hy wide =
    let room : 2 ^ 33 ≤ 2 ^ bits = pow-le-pow_right {n = 2} (omega arith) wide in
    mod-eq_of_lt (omega (arith, room))

module _ (long_bits : ℕ) (wide : 33 ≤ long_bits) where
  load_segment-outside :
      (d : List ℕ) (memory : ℕ → ℕ) (ph x : ℕ)
      → AllBytes d
      → 0x10000 ≤ x
      → (load_segment long_bits d memory ph).0 x ≡ memory x
  unfolding load_segment
  load_segment-outside d memory ph x bytes h =
      let p_paddr = word_at d (ph + 12) in
      let p_filesz = word_at d (ph + 16) in
      let segment = take p_filesz (drop (word_at d (ph + 4)) d) in
      ground (
        arith,
        sum_fits p_paddr p_filesz long_bits (word_at-lt d (ph + 12) bytes)
            (word_at-lt d (ph + 16) bytes) wide,
        length-take p_filesz (drop (word_at d (ph + 4)) d),
        fill-outside memory p_paddr segment x,
      )

  load_segments-outside :
      (d : List ℕ) (memory : ℕ → ℕ) (e_phoff e_phentsize i more x : ℕ)
      → AllBytes d
      → 0x10000 ≤ x
      → (load_segments long_bits d memory e_phoff e_phentsize i more).0 x ≡ memory x
  unfolding load_segments
  load_segments-outside d memory e_phoff e_phentsize i zero x bytes h = refl
  load_segments-outside d memory e_phoff e_phentsize i (suc more) x bytes h =
      let ph : ℕ = e_phoff + i * e_phentsize in
      let loaded = (load_segment long_bits d memory ph).0 in
      ground (
        arith,
        load_segment-outside d memory ph x bytes h,
        load_segments-outside d loaded e_phoff e_phentsize (i + 1) more x bytes h,
      )

  load_elf-outside :
      (memory : ℕ → ℕ) (file : List ℕ) (x : ℕ)
      → AllBytes file
      → 0x10000 ≤ x
      → (load_elf long_bits memory (some file)).0 x ≡ memory x
  unfolding load_elf
  load_elf-outside memory d x bytes h = ground (
    arith,
    load_segments-outside d memory (word_at d 28) (half_at d 42) 0 (half_at d 44) x bytes h,
  )

load_binary-outside :
    (memory : ℕ → ℕ) (file : Option (List ℕ)) (load_addr x : ℕ)
    → 0x10000 ≤ x
    → (load_binary memory file load_addr).0 x ≡ memory x
unfolding load_binary
load_binary-outside memory none load_addr x h = refl
load_binary-outside memory (some d) load_addr x h =
    ground (arith, fill-outside memory load_addr d x)

-- The loading of a program, flat or ELF, changes nothing past the 64 KB of memory, whatever the bytes
-- of the file and its program headers are, on a host whose `unsigned long` has more than 32 bits: of
-- every program that is accepted, an address from 0x10000 on has what it had before. With 32 bits
-- the sum in the guard wraps, and an ELF file can write past the memory.
pub load_program-outside :
    (long_bits : ℕ) (memory : ℕ → ℕ) (file : List ℕ) (load_addr : ℕ) (entry_set : Bool)
    (entry_addr : ℕ) (image : ℕ → ℕ) (start x : ℕ)
    → 33 ≤ long_bits
    → AllBytes file
    → load_program long_bits memory (some file) load_addr entry_set entry_addr ≡ some (image, start)
    → 0x10000 ≤ x
    → image x ≡ memory x
unfolding load_program
load_program-outside long_bits memory file load_addr entry_set entry_addr image start x wide bytes e
      h =
    let cleared : ℕ → ℕ = λ y. if ltb y 0x10000 then 0 else memory y in
    ground (
      arith,
      e,
      load_elf-outside long_bits wide cleared file x bytes h,
      load_binary-outside cleared (some file) load_addr x h,
    )
