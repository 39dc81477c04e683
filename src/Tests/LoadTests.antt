-- ===== src/Tests/LoadTests.antt =====
-- src/main.cpp: a flat program and an ELF image that are loaded.
use tool_i8085_trace.Prelude.{
  ℕ, zero, suc, ◌≡◌, refl, true, none, some, List, [], ◌∷◌, ◌++◌, starts_with, ltb, if◌then◌else◌,
  arith,
}
use Prim.Native.Nat.{ℕ}
use tool_i8085_trace.Main.Load.{
  fill, byte_at, half_at, word_at, load_segment, load_segments, load_elf, load_binary, is_elf_file,
  load_program,
}
use tool_i8085_trace.Main.Load.Laws.{load_program-outside}

abbrev blank : ℕ → ℕ
blank x = 0xff

abbrev zeros : ℕ → List ℕ
zeros zero = []
zeros (suc n) = 0 ∷ zeros n

abbrev word : ℕ → List ℕ
word n = n ∷ 0 ∷ 0 ∷ 0 ∷ []

-- An image with one segment of two bytes, at 0x20, that starts at 0x21.
abbrev elf_with : ℕ → List ℕ
elf_with size =
    (0x7f ∷ 0x45 ∷ 0x4c ∷ 0x46 ∷ zeros 20)
    ++ word 0x21
    ++ word 52
    ++ zeros 10
    ++ (32 ∷ 0 ∷ 1 ∷ 0 ∷ zeros 6)
    ++ word 1
    ++ word 84
    ++ word 0
    ++ word 0x20
    ++ word size
    ++ zeros 12
    ++ 0x3e ∷ 0x76 ∷ []

loads :
    ((load_elf 64 blank (some (elf_with 2))).1 ≡ some 0x21)
    × ((load_elf 64 blank (some (elf_with 2))).0 0x20 ≡ 0x3e)
    × ((load_elf 64 blank (some (elf_with 2))).0 0x21 ≡ 0x76)
    × ((load_elf 64 blank (some (elf_with 2))).0 0x22 ≡ 0xff)
    × ((load_elf 64 blank (some (elf_with 3))).1 ≡ none)
unfolding load_elf load_segments load_segment fill byte_at half_at word_at
loads = (refl, refl, refl, refl, refl)

abbrev cleared : ℕ → ℕ
cleared x = if ltb x 0x10000 then 0 else blank x

a_flat_program :
    load_program 64 blank (some (0x3e ∷ 0x76 ∷ [])) 0xfffe true 0xfffe
    ≡ some (fill cleared 0xfffe (0x3e ∷ 0x76 ∷ []), 0xfffe)
unfolding load_program load_elf load_binary is_elf_file starts_with
a_flat_program = refl

load_program-outside_example : fill cleared 0xfffe (0x3e ∷ 0x76 ∷ []) 0x10000 ≡ 0xff
load_program-outside_example =
    load_program-outside 64 blank (0x3e ∷ 0x76 ∷ []) 0xfffe true 0xfffe
      (fill cleared 0xfffe (0x3e ∷ 0x76 ∷ [])) 0xfffe 0x10000 (omega arith)
      (omega arith, (omega arith, tt)) a_flat_program (omega arith)

-- A segment of 0x20 bytes at 0xFFFFFFF0: its end wraps to 0x10 where `unsigned long` has 32 bits.
abbrev wrapping : List ℕ
wrapping =
    (0x7f ∷ 0x45 ∷ 0x4c ∷ 0x46 ∷ zeros 20)
    ++ word 0x21
    ++ word 52
    ++ zeros 10
    ++ (32 ∷ 0 ∷ 1 ∷ 0 ∷ zeros 6)
    ++ word 1
    ++ word 84
    ++ word 0
    ++ (0xf0 ∷ 0xff ∷ 0xff ∷ 0xff ∷ [])
    ++ word 0x20
    ++ zeros 12
    ++ 0x3e ∷ zeros 31

wraps :
    ((load_elf 64 blank (some wrapping)).1 ≡ none)
    × ((load_elf 32 blank (some wrapping)).1 ≡ some 0x21)
    × ((load_elf 32 blank (some wrapping)).0 0xfffffff0 ≡ 0x3e)
unfolding load_elf load_segments load_segment fill byte_at half_at word_at
wraps = (refl, refl, refl)
