-- ===== src/Cpu/Exec/Special.antt =====
-- src/i8085_exec.c: the cases of `Emulate8085Op` with a body of their own, one function each.
pub mod Decimal
use tool_i8085_trace.Prelude.{ℕ, ◌+◌, ◌-◌, ◌*◌, ◌/◌, ◌%◌, ◌^◌, bit_and, bit_or, bit_xor, Bool, true}
use tool_i8085_trace.Prelude.{
  ◌==◌, ◌!=◌, ltb, ◌&&◌, ◌||◌, if◌then◌else◌, bit, u8, u16, sub8, sub16, word,
}
use tool_i8085_trace.Cpu.State.{Flags, State, Bus, flag}
use tool_i8085_trace.Cpu.Alu.{parity, is_negative}
use tool_i8085_trace.Cpu.Stack.{mem_wr}
use tool_i8085_trace.Cpu.Exec.Ops.{operand, skip}

-- The flags that POP PSW reads out of a byte.
unfoldable pub flags_of : ℕ → Flags
flags_of psw = record {
  cy = flag (bit_and psw 0x01);
  v = flag (bit_and psw 0x02 / 2);
  p = flag (bit_and psw 0x04 / 4);
  ac = flag (bit_and psw 0x10 / 16);
  x5 = flag (bit_and psw 0x20 / 32);
  z = flag (bit_and psw 0x40 / 64);
  s = flag (bit_and psw 0x80 / 128);
}

-- The byte that PUSH PSW stores: s z x5 ac 0 p v cy.
unfoldable pub psw_of : Flags → ℕ
psw_of f =
    bit_or
      (bit_or
        (bit_or
          (bit_or (bit_or (bit_or (bit f.s * 128) (bit f.z * 64)) (bit f.x5 * 32)) (bit f.ac * 16))
          (bit f.p * 4))
        (bit f.v * 2))
      (bit f.cy)

module _ {W : Type 0} where
  unfoldable pub rlc : State W → State W
  rlc s = record s {
    a = u8 (bit_or (bit_and s.a 0x80 / 128) (s.a * 2));
    cc = record (s.cc) { cy = bit_and s.a 0x80 / 128 == 1 };
  }

  unfoldable pub rrc : State W → State W
  rrc s = record s {
    a = u8 (bit_or (s.a % 2 * 128) (s.a / 2));
    cc = record (s.cc) { cy = s.a % 2 == 1 };
  }

  unfoldable pub ral : State W → State W
  ral s = record s {
    a = u8 (bit_or (bit s.cc.cy) (s.a * 2));
    cc = record (s.cc) { cy = bit_and s.a 0x80 / 128 == 1 };
  }

  unfoldable pub rar : State W → State W
  rar s = record s {
    a = u8 (bit_or (s.a / 2) (bit s.cc.cy * 128));
    cc = record (s.cc) { cy = s.a % 2 == 1 };
  }

  -- DSUB: HL - BC, in 32 bits.
  unfoldable pub dsub : State W → State W
  dsub s =
      let hl = word s.h s.l in
      let bc = word s.b s.c in
      let result = (hl + 2 ^ 32 - bc) % 2 ^ 32 in
      let sign_hl = hl / 2 ^ 15 % 2 in
      let sign_bc = bc / 2 ^ 15 % 2 in
      let sign_res = result / 2 ^ 15 % 2 in
      record s {
        cc = record (s.cc) {
          v = sign_hl != sign_bc && sign_res != sign_hl;
          cy = flag (result / 2 ^ 16);
          z = result % 65536 == 0;
          s = flag sign_res;
          p = parity (result % 256);
          ac = ltb (hl % 16) (bc % 16);
        };
        h = result / 256 % 256;
        l = result % 256;
      }

  -- ARHL: `(int16_t)hl >> 1` keeps the sign bit.
  unfoldable pub arhl : State W → State W
  arhl s =
      let hl = word s.h s.l in
      let shifted : ℕ = if ltb hl 0x8000 then hl / 2 else hl / 2 + 0x8000 in
      record s { cc = record (s.cc) { cy = flag hl }; h = shifted / 256 % 256; l = shifted % 256 }

  -- RDEL: DE through the carry, to the left.
  unfoldable pub rdel : State W → State W
  rdel s =
      let de = word s.d s.e in
      let old_cy = bit s.cc.cy in
      let top = de / 2 ^ 15 % 2 in
      let de' = u16 (bit_or (de * 2) old_cy) in
      record s {
        cc = record (s.cc) { cy = flag top; v = flag (bit_xor top (de' / 2 ^ 15 % 2)) };
        d = de' / 256 % 256;
        e = de' % 256;
      }

  unfoldable pub rim : State W → State W
  rim s = record s {
    a = u8 (
        bit_or
          (bit_or
            (bit_or
              (bit_or
                (bit_or
                  (bit_or (bit_or (bit (s.sid_line != 0) * 128) (bit (s.r7_latch != 0) * 64))
                    (bit (s.pending_r6 != 0) * 32))
                  (bit (s.pending_r5 != 0) * 16))
                (bit (s.int_enable != 0) * 8))
              (bit (s.r7_mask != 0) * 4))
            (bit (s.r6_mask != 0) * 2))
          (bit (s.r5_mask != 0)));
  }

  sim_sod : State W → State W
  sim_sod s =
      if bit_and s.a 0x40 != 0
      then record s { sod_line = if bit_and s.a 0x80 != 0 then 1 else 0 }
      else s

  sim_latch : State W → State W
  sim_latch s = if bit_and s.a 0x10 != 0 then record s { r7_latch = 0 } else s

  sim_masks : State W → State W
  sim_masks s =
      if bit_and s.a 0x08 != 0
      then record s { r7_mask = s.a / 4 % 2; r6_mask = s.a / 2 % 2; r5_mask = s.a % 2 }
      else s

  unfoldable pub sim : State W → State W
  unfolding sim_sod sim_latch sim_masks
  sim s = sim_masks (sim_latch (sim_sod s))

  unfoldable pub daa : State W → State W
  daa s =
      let low : Bool = ltb 9 (s.a % 16) || s.cc.ac in
      let high : Bool = ltb 0x99 s.a || s.cc.cy in
      let correction = bit_or (if low then 0x06 else 0) (if high then 0x60 else 0) in
      let res = u16 (s.a + correction) in
      record s {
        a = u8 res;
        cc = record (s.cc) {
          cy = if high then true else s.cc.cy;
          ac = ltb 0x0f (s.a % 16 + correction % 16);
          z = u8 res == 0;
          s = is_negative (u8 res);
          p = parity (u8 res);
        };
      }

  -- XTHL: H and L change places with the word at SP.
  unfoldable pub xthl : Bus W → State W → State W
  xthl bus s =
      let sp_l = s.memory s.sp in
      let sp_h = s.memory (s.sp + 1) in
      let s1 = mem_wr bus s s.sp s.l in
      let s2 = mem_wr bus s1 (s1.sp + 1) s1.h in record s2 { h = sp_h; l = sp_l }

  unfoldable pub adi : State W → ℕ → State W
  adi s at =
      let x = s.a + operand s at 1 in
      let t = record s {
        cc = record (s.cc) {
          z = x % 256 == 0;
          s = is_negative x;
          p = parity (x % 256);
          cy = ltb 0xff x;
          ac = ltb 0x0f (s.a % 16 + operand s at 1 % 16);
        };
        a = u8 x;
      } in
      skip t 1

  unfoldable pub cpi : State W → ℕ → State W
  cpi s at =
      let x = sub8 s.a (operand s at 1) in
      let t = record s {
        cc = record (s.cc) {
          z = x == 0;
          s = is_negative x;
          p = parity x;
          cy = ltb s.a (operand s at 1);
          ac = ltb (s.a % 16) (operand s at 1 % 16);
        };
      } in
      skip t 1

  unfoldable pub pop_psw : State W → State W
  pop_psw s =
      let psw = s.memory s.sp in
      let sp' = u16 (s.sp + 1) in
      record s { cc = flags_of psw; a = s.memory sp'; sp = u16 (sp' + 1) }

  unfoldable pub push_psw : Bus W → State W → State W
  push_psw bus s =
      let s1 = record s { sp = sub16 s.sp 1 } in
      let s2 = mem_wr bus s1 s1.sp s1.a in
      let s3 = record s2 { sp = sub16 s2.sp 1 } in mem_wr bus s3 s3.sp (psw_of s3.cc)
