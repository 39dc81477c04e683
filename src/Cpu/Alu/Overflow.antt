-- ===== src/Cpu/Alu/Overflow.antt =====
-- src/i8085_exec.c: the V flag of the byte adders, `((l ^ r ^ 0x80) & (l ^ res) & 0x80) >> 7`
-- for a sum and `((l ^ r) & (l ^ res) & 0x80) >> 7` for a difference, as a test of three signs.
use tool_i8085_trace.Prelude.{ℕ, ◌/◌, ◌%◌, ◌<◌, ◌≡◌, refl, bit_and, bit_xor, arith}
use tool_i8085_trace.Prelude.{agree, agree_eq, Bool, true, ◌&&◌, ◌==◌, ◌!=◌, leb}
use tool_i8085_trace.Prelude.Bits.{xor_top, and_top, and_bit, all_below, all_below_sound}
use tool_i8085_trace.Cpu.State.{flag}
use tool_i8085_trace.Cpu.Alu.{is_negative}

-- A law of three digits, checked at all of them.
abbrev digit_law : (ℕ → ℕ → ℕ → Bool) → (ℕ → ℕ → ℕ → Bool) → Bool
digit_law f g = all_below 2 (λ p. all_below 2 (λ q. all_below 2 (λ y. agree (f p q y) (g p q y))))

digit_law_sound :
    (f g : ℕ → ℕ → ℕ → Bool) (p q y : ℕ)
    → digit_law f g ≡ true
    → p < 2
    → q < 2
    → y < 2
    → f p q y ≡ g p q y
digit_law_sound f g p q y h hp hq hy =
    agree_eq _ _ (all_below_sound 2 _ y (all_below_sound 2 _ q (all_below_sound 2 _ p h hp) hq) hy)

abbrev sum_code : ℕ → ℕ → ℕ → Bool
sum_code l r x = flag (bit_and (bit_and (bit_xor (bit_xor l r) 1) (bit_xor l x)) 1)

abbrev difference_code : ℕ → ℕ → ℕ → Bool
difference_code l r x = flag (bit_and (bit_and (bit_xor l r) (bit_xor l x)) 1)

sum_table : digit_law sum_code (λ l r x. l == r && l != x) ≡ true
unfolding all_below
sum_table = refl

difference_table : digit_law difference_code (λ l r x. l != r && l != x) ≡ true
unfolding all_below
difference_table = refl

pub sum_overflow :
    (l r x : ℕ)
    → l < 256
    → r < 256
    → x < 256
    → flag (bit_and (bit_and (bit_xor (bit_xor l r) 0x80) (bit_xor l x)) 0x80 / 128)
      ≡ (l / 128 == r / 128 && l / 128 != x / 128)
sum_overflow l r x hl hr hx =
    simp (and_top, xor_top)
      (digit_law_sound sum_code _ (l / 128) (r / 128) (x / 128) sum_table (omega arith)
        (omega arith) (omega arith))

pub difference_overflow :
    (l r x : ℕ)
    → l < 256
    → r < 256
    → x < 256
    → flag (bit_and (bit_and (bit_xor l r) (bit_xor l x)) 0x80 / 128)
      ≡ (l / 128 != r / 128 && l / 128 != x / 128)
difference_overflow l r x hl hr hx =
    simp (and_top, xor_top)
      (digit_law_sound difference_code _ (l / 128) (r / 128) (x / 128) difference_table
        (omega arith) (omega arith) (omega arith))

pub is_negative_lem : (x : ℕ) → is_negative x ≡ leb 128 (x % 256)
unfolding is_negative
is_negative_lem x = ground (arith, and_bit 7 x)
