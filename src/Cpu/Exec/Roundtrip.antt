-- ===== src/Cpu/Exec/Roundtrip.antt =====
-- src/i8085_exec.c: PUSH and POP of each register pair and of the flags.
use tool_i8085_trace.Prelude.{◌&&◌}
use tool_i8085_trace.Prelude.{agree_eq}
use tool_i8085_trace.Prelude.{agree}
use tool_i8085_trace.Prelude.{all_bools_sound}
use tool_i8085_trace.Prelude.{all_bools}
use tool_i8085_trace.Prelude.{ℕ, ◌+◌, ◌*◌, ◌<◌, ◌≡◌, ◌≢◌, refl, arith, Bool, true, sub16}
use tool_i8085_trace.Cpu.State.{State, Bus, Flags, store}
use tool_i8085_trace.Cpu.Stack.{mem_wr}
use tool_i8085_trace.Cpu.Stack.Laws.{Allows, mem_wr_allowed, pushed, pushed_low, pushed_high}
use tool_i8085_trace.Cpu.Exec.Special.{flags_of, psw_of, push_psw, pop_psw}
use tool_i8085_trace.Cpu.Exec.Control.{row_c, row_d, row_e}
use tool_i8085_trace.Cpu.Step.{execute}

-- The pairs with a PUSH of their own.
pub data Pair : Type 0 where
  bc de hl : Pair

abbrev pub pair_code : Pair → ℕ
pair_code bc = 0
pair_code de = 1
pair_code hl = 2

abbrev pub high : {W : Type 0} → Pair → State W → ℕ
high bc s = s.b
high de s = s.d
high hl s = s.h

abbrev pub low : {W : Type 0} → Pair → State W → ℕ
low bc s = s.c
low de s = s.e
low hl s = s.l

-- Two writes below the stack pointer.
two_writes :
    {W : Type 0} (bus : Bus W) (s : State W) (hi lo : ℕ)
    → s.sp < 65536
    → hi < 256
    → lo < 256
    → Allows bus s (sub16 s.sp 1)
    → Allows bus s (sub16 s.sp 2)
    → mem_wr bus (mem_wr bus s (sub16 s.sp 1) hi) (sub16 s.sp 2) lo
      ≡ record s { memory = pushed s.memory s.sp hi lo }
two_writes bus s hi lo fits hh small first second =
    rw (mem_wr_allowed bus s s.memory s.sp (sub16 s.sp 1) hi (omega arith) hh first) (
      mem_wr_allowed bus s (store s.memory (sub16 s.sp 1) hi) s.sp (sub16 s.sp 2) lo (omega arith)
        small second)

module _ {W : Type 0} (bus : Bus W) (s : State W) (fits : s.sp < 65536)
    (first : Allows bus s (sub16 s.sp 1)) (second : Allows bus s (sub16 s.sp 2)) where
  -- PUSH then POP of BC, DE or HL, of registers that are bytes: with a 16-bit SP other than 1,
  -- where POP reads past the end of memory, and the two bytes below it open to writes, the CPU is
  -- as before but for those two bytes.
  pub pop-push :
      (p : Pair) (at at' : ℕ)
      → high p s < 256
      → low p s < 256
      → s.sp ≢ 1
      → execute bus (execute bus s at (0xc5 + 16 * pair_code p)).0 at' (0xc1 + 16 * pair_code p)
        ≡ (record s { memory = pushed s.memory s.sp (high p s) (low p s) }, 10)
  unfolding execute row_c row_d row_e
  pop-push bc at at' big small apart = ground (
    arith,
    mem_wr_allowed bus s s.memory s.sp (sub16 s.sp 1) s.b,
    two_writes bus s s.b s.c,
    pushed_low s.memory s.sp s.b s.c,
    pushed_high s.memory s.sp s.b s.c,
  )
  pop-push de at at' big small apart = ground (
    arith,
    mem_wr_allowed bus s s.memory s.sp (sub16 s.sp 1) s.d,
    two_writes bus s s.d s.e,
    pushed_low s.memory s.sp s.d s.e,
    pushed_high s.memory s.sp s.d s.e,
  )
  pop-push hl at at' big small apart = ground (
    arith,
    mem_wr_allowed bus s s.memory s.sp (sub16 s.sp 1) s.h,
    two_writes bus s s.h s.l,
    pushed_low s.memory s.sp s.h s.l,
    pushed_high s.memory s.sp s.h s.l,
  )

same : Flags → Flags → Bool
same f g =
    agree f.z g.z
    && agree f.s g.s
    && agree f.p g.p
    && agree f.cy g.cy
    && agree f.ac g.ac
    && agree f.v g.v
    && agree f.x5 g.x5

same_eq : (f g : Flags) → same f g ≡ true → f ≡ g
unfolding same
same_eq f g h = ground (
  arith,
  agree_eq f.z g.z,
  agree_eq f.s g.s,
  agree_eq f.p g.p,
  agree_eq f.cy g.cy,
  agree_eq f.ac g.ac,
  agree_eq f.v g.v,
  agree_eq f.x5 g.x5,
)

abbrev kept : Bool → Bool → Bool → Bool → Bool → Bool → Bool → Bool
kept z s p cy ac v x5 =
    let f : Flags = record { z = z; s = s; p = p; cy = cy; ac = ac; v = v; x5 = x5 } in
    same (flags_of (psw_of f)) f

kept_table :
    all_bools (λ z. all_bools (λ s. all_bools (λ p.
      all_bools
        (λ cy. all_bools (λ ac. all_bools (λ v. all_bools (λ x5. kept z s p cy ac v x5)))))))
    ≡ true
unfolding all_bools same flags_of psw_of
kept_table = refl

-- The PSW byte keeps every flag.
pub flags_of-psw_of : (f : Flags) → flags_of (psw_of f) ≡ f
flags_of-psw_of f = same_eq _ f (
    all_bools_sound _ f.x5 (
      all_bools_sound _ f.v (
        all_bools_sound _ f.ac (
          all_bools_sound _ f.cy
            (all_bools_sound _ f.p (all_bools_sound _ f.s (all_bools_sound _ f.z kept_table)))))))

psw_of-lt : (f : Flags) → psw_of f < 256
unfolding psw_of
psw_of-lt f = ground arith

-- PUSH PSW then POP PSW, of an accumulator that is a byte: with a 16-bit SP and the two bytes
-- below it open to writes, the CPU is as before, flags included, but for those two bytes.
pub pop_psw-push_psw :
    {W : Type 0} (bus : Bus W) (s : State W)
    → s.sp < 65536
    → s.a < 256
    → Allows bus s (sub16 s.sp 1)
    → Allows bus s (sub16 s.sp 2)
    → pop_psw (push_psw bus s) ≡ record s { memory = pushed s.memory s.sp s.a (psw_of s.cc) }
unfolding pop_psw push_psw
pop_psw-push_psw bus s fits byte first second =
    let sp1 = sub16 s.sp 1 in
    ground (
      arith,
      mem_wr_allowed bus s s.memory sp1 sp1 s.a,
      mem_wr_allowed bus s (store s.memory sp1 s.a) (sub16 sp1 1) (sub16 sp1 1) (psw_of s.cc),
      flags_of-psw_of s.cc,
      psw_of-lt s.cc,
    )
