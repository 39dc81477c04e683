-- ===== src/Plugins/Pit/Laws.antt =====
-- plugins/pit8254.cpp: the counters.
use tool_i8085_trace.Prelude.{
  ℕ, zero, suc, ◌+◌, ◌-◌, ◌*◌, ◌/◌, ◌%◌, ◌^◌, ◌≤◌, ◌<◌, ◌≡◌, refl, sym, ap, ◌∙◌, true, false, arith,
  ◌==◌, ◌!=◌, ltb, if◌then◌else◌, u64, word_lem,
}
use native.Mathlib.Nat.{add-mul, add-mul-div_right, div-mul-le_self}
use tool_i8085_trace.Plugins.Pit.{
  Ctx, Counter, full_count, tick_counter, load_counter, latch, write_counter, read_counter_byte,
  advance_read, gather, tick_gated, tick_times, on_step,
}

abbrev pub ticks : ℕ → Counter → Counter
ticks zero k = k
ticks (suc n) k = ticks n (tick_counter k)

-- Two writes to a counter.
abbrev pub two_bytes : Counter → ℕ → ℕ → Counter
two_bytes k lsb msb = write_counter (write_counter k lsb) msb

-- Two writes of bytes to a counter in LSB-then-MSB mode with no byte pending load the count that they
-- make up, 0 as 0x10000, start it, and leave OUT low in mode 0 and high in the others.
pub write_counter-two_bytes :
    (k : Counter) (lsb msb : ℕ)
    → k.rw ≡ 3
    → k.write_msb_next ≡ false
    → lsb < 256
    → msb < 256
    → let t = two_bytes k lsb msb in
      (t.initial ≡ msb * 256 + lsb)
      × (t.count ≡ (if msb * 256 + lsb == 0 then 0x10000 else msb * 256 + lsb))
      × (t.running ≡ true)
      × (t.out ≡ (k.mode != 0))
      × (t.write_msb_next ≡ false)
unfolding write_counter load_counter full_count
write_counter-two_bytes k lsb msb r w hl hm = ground (arith, word_lem msb lsb)

-- A tick does not touch a latch, nor the order of reads.
tick-latch :
    (k : Counter)
    → let t = tick_counter k in
      (t.latched ≡ k.latched)
      × (t.latch_val ≡ k.latch_val)
      × (t.read_msb_next ≡ k.read_msb_next)
      × (t.rw ≡ k.rw)
unfolding tick_counter
tick-latch k = ground arith

ticks-latch :
    (n : ℕ) (k : Counter)
    → let t = ticks n k in
      (t.latched ≡ k.latched)
      × (t.latch_val ≡ k.latch_val)
      × (t.read_msb_next ≡ k.read_msb_next)
      × (t.rw ≡ k.rw)
ticks-latch zero k = (refl, refl, refl, refl)
ticks-latch (suc n) k = ground (arith, ticks-latch n (tick_counter k), tick-latch k)

-- A counter in LSB-then-MSB mode that is latched, and was not before, is read whole: however far
-- it counts before the first read and between the two, they give the low and the high byte of the
-- count at the latch, and the second releases it.
pub latch_read :
    (k : Counter) (m n : ℕ)
    → k.rw ≡ 3
    → k.latched ≡ false
    → let t = ticks m (latch k) in
      let u = ticks n (advance_read t) in
      (read_counter_byte u * 256 + read_counter_byte t ≡ k.count % 65536)
      × ((advance_read u).latched ≡ false)
unfolding latch read_counter_byte advance_read
latch_read k m n r l =
    ground (arith, ticks-latch m (latch k), ticks-latch n (advance_read (ticks m (latch k))))

-- The timer with another clock.
abbrev clocked : Ctx → ℕ → ℕ → Ctx
clocked x last accum = record x { last_tstates = last; clk_accum = accum }

tick_times-clocked :
    (n : ℕ) (x : Ctx) (last accum : ℕ)
    → tick_times n (clocked x last accum) ≡ clocked (tick_times n x) last accum
unfolding tick_times tick_gated
tick_times-clocked zero x last accum = refl
tick_times-clocked (suc n) x last accum = tick_times-clocked n (tick_gated x) last accum

tick_times-append : (m n : ℕ) (x : Ctx) → tick_times n (tick_times m x) ≡ tick_times (m + n) x
unfolding tick_times
tick_times-append zero n x = let e : n ≡ 0 + n = omega arith in ap (λ k. tick_times k x) e
tick_times-append (suc m) n x =
    let e : suc (m + n) ≡ suc m + n = omega arith in
    tick_times-append m n (tick_gated x) ∙ ap (λ k. tick_times k x) e

tick_times_divider : (n : ℕ) (x : Ctx) → (tick_times n x).clkdiv ≡ x.clkdiv
unfolding tick_times tick_gated
tick_times_divider zero x = refl
tick_times_divider (suc n) x = tick_times_divider n (tick_gated x)

accumulated :
    (g last now : ℕ)
    → last ≤ now
    → now < 2 ^ 64
    → g + (now - last) < 2 ^ 64
    → u64 (g + (now + 2 ^ 64 - last) % 2 ^ 64) ≡ g + (now - last)
accumulated g last now l u o = omega arith

-- A number of T-states, with the whole ticks taken out.
abbrev ticked : Ctx → ℕ → ℕ → ℕ → Ctx
ticked x now sum d = clocked (tick_times (sum / d) x) now (sum - sum / d * d)

-- A step, where the sum does not overflow and at most 0x40000 ticks have come.
on_step_ticks :
    (x : Ctx) (now d : ℕ)
    → x.clkdiv ≡ d
    → x.last_tstates ≤ now
    → now < 2 ^ 64
    → x.clk_accum + (now - x.last_tstates) < 2 ^ 64
    → (x.clk_accum + (now - x.last_tstates)) / d ≤ 0x40000
    → on_step x now ≡ ticked x now (x.clk_accum + (now - x.last_tstates)) d
unfolding on_step gather
on_step_ticks x now d e l u o few =
    let sum : ℕ = x.clk_accum + (now - x.last_tstates) in
    let q : ℕ = sum / x.clkdiv in
    let capped : (if ltb 0x40000 q then 0x40000 else q) ≡ q = rw e (ground (arith, few)) in
    let here : Ctx = clocked x now (sum - q * x.clkdiv) in
    rw (accumulated x.clk_accum x.last_tstates now l u o) (
      ap (λ k. tick_times k here) capped
      ∙ tick_times-clocked q x now (sum - q * x.clkdiv)
      ∙ ap (ticked x now sum) e)

-- Ticks counted at once or in two parts.
two_parts :
    (a e d : ℕ)
    → 0 < d
    → let r = a - a / d * d in
      (a / d + (r + e) / d ≡ (a + e) / d) × (r + e - (r + e) / d * d ≡ a + e - (a + e) / d * d)
two_parts a e d p =
    let q = a / d in
    let r = a - q * d in
    let whole : (r + e + q * d) / d ≡ (r + e) / d + q = add-mul-div_right (r + e) q p in
    let sum : r + e + q * d ≡ a + e = omega (arith, div-mul-le_self a d) in
    let count : (r + e) / d + q ≡ (a + e) / d = sym whole ∙ ap (λ n. n / d) sum in
    let product : (a + e) / d * d ≡ (r + e) / d * d + q * d =
      ap (λ n. n * d) (sym count) ∙ add-mul ((r + e) / d) q d in
    (omega (arith, count), omega (arith, sum, product))

-- The timer does not depend on how often it is called: for a divider above 0 and a 64-bit count of
-- T-states that does not go back, two calls of `on_step` leave the three counters and the clock as
-- the second alone does. The sum must not overflow, and the ticks that are due must not pass
-- 0x40000, where the code drops the rest.
pub on_step-on_step :
    (x : Ctx) (between now : ℕ)
    → 0 < x.clkdiv
    → x.last_tstates ≤ between
    → between ≤ now
    → now < 2 ^ 64
    → x.clk_accum + (now - x.last_tstates) < 2 ^ 64
    → (x.clk_accum + (now - x.last_tstates)) / x.clkdiv ≤ 0x40000
    → on_step (on_step x between) now ≡ on_step x now
on_step-on_step x between now p l m u o few =
    let d = x.clkdiv in
    let sum = x.clk_accum + (between - x.last_tstates) in
    let q = sum / d in
    let r = sum - q * d in
    let e = now - between in
    let (count, rest) = two_parts sum e d p in
    let all : sum + e ≡ x.clk_accum + (now - x.last_tstates) = omega arith in
    let few' : (sum + e) / d ≤ 0x40000 = rw all few in
    let first : on_step x between ≡ ticked x between sum d =
      on_step_ticks x between d refl l (omega arith) (omega arith) (omega (arith, count, few')) in
    let second : on_step (ticked x between sum d) now
        ≡ ticked (ticked x between sum d) now (r + e) d =
      on_step_ticks (ticked x between sum d) now d (tick_times_divider q x) m u (omega (arith, all))
        (omega (arith, count, few')) in
    let q2 = (r + e) / d in
    let r2 = r + e - q2 * d in
    ap (λ y. on_step y now) first
    ∙ second
    ∙ ap (λ y. clocked y now r2) (tick_times-clocked q2 (tick_times q x) between r)
    ∙ ap (λ y. clocked y now r2) (tick_times-append q q2 x)
    ∙ ap (λ n. clocked (tick_times n x) now r2) count
    ∙ ap (clocked (tick_times ((sum + e) / d) x) now) rest
    ∙ ap (λ n. ticked x now n d) all
    ∙ sym (on_step_ticks x now d refl (omega arith) u o few)
