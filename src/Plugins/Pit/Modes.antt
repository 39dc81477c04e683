-- ===== src/Plugins/Pit/Modes.antt =====
-- plugins/pit8254.cpp: how long a counter of each mode takes, tick by tick.
use tool_i8085_trace.Prelude.{
  ℕ, zero, suc, ◌+◌, ◌-◌, ◌*◌, ◌≤◌, ◌<◌, ◌≡◌, refl, true, false, not, arith, ◌!=◌,
}
use tool_i8085_trace.Plugins.Pit.{Counter, full_count, tick_counter, load_counter}
use tool_i8085_trace.Plugins.Pit.Laws.{ticks}

full_count_pos : (k : Counter) → 0 < full_count k
unfolding full_count
full_count_pos k = ground arith

tick_rate_step :
    (k : Counter)
    → k.running ≡ true
    → k.mode ≡ 2
    → 1 < k.count
    → tick_counter k ≡ record k { count = k.count - 1; out = k.count - 1 != 1 }
unfolding tick_counter
tick_rate_step k r m c = ground arith

tick_square_step :
    (k : Counter)
    → k.running ≡ true
    → k.mode ≡ 3
    → 2 < k.count
    → tick_counter k ≡ record k { count = k.count - 2 }
unfolding tick_counter
tick_square_step k r m c = ground arith

-- Mode 2: the ticks down to the reload.
rate_reload :
    (n : ℕ) (k : Counter)
    → k.running ≡ true
    → k.mode ≡ 2
    → k.count ≡ suc n
    → ticks (suc n) k ≡ record k { count = full_count k; out = true }
unfolding tick_counter full_count
rate_reload zero k r m c = ground arith
rate_reload (suc n) k r m c =
    rw (tick_rate_step k r m (omega arith))
      (rate_reload n (record k { count = k.count - 1; out = k.count - 1 != 1 }) r m (omega arith))

rate_before :
    (n : ℕ) (k : Counter)
    → k.running ≡ true
    → k.mode ≡ 2
    → suc n < k.count
    → let t = ticks (suc n) k in (t.count + suc n ≡ k.count) × (t.out ≡ (t.count != 1))
unfolding tick_counter
rate_before zero k r m c = ground arith
rate_before (suc n) k r m c = ground (arith, rate_before n (tick_counter k))

-- Mode 3: the ticks, of two counts each, down to the reload.
square_reload :
    (h : ℕ) (k : Counter)
    → k.running ≡ true
    → k.mode ≡ 3
    → 2 * h < k.count
    → k.count ≤ 2 * h + 2
    → ticks (suc h) k ≡ record k { count = full_count k; out = not k.out }
unfolding tick_counter full_count
square_reload zero k r m lo hi = ground arith
square_reload (suc h) k r m lo hi =
    rw (tick_square_step k r m (omega arith))
      (square_reload h (record k { count = k.count - 2 }) r m (omega arith) (omega arith))

-- Mode 0: the ticks down to the terminal count.
down_before :
    (n : ℕ) (k : Counter)
    → k.running ≡ true
    → k.mode ≡ 0
    → n < k.count
    → ticks n k ≡ record k { count = k.count - n }
unfolding tick_counter
down_before zero k r m c = ground arith
down_before (suc n) k r m c = ground (arith, down_before n (tick_counter k))

down_terminal :
    (n : ℕ) (k : Counter)
    → k.running ≡ true
    → k.mode ≡ 0
    → k.count ≡ suc n
    → ticks (suc n) k ≡ record k { count = 0; out = true }
unfolding tick_counter
down_terminal zero k r m c = ground arith
down_terminal (suc n) k r m c = ground (arith, down_terminal n (tick_counter k))

rate_period :
    (n : ℕ) (t : Counter)
    → full_count t ≡ n
    → t.running ≡ true
    → t.mode ≡ 2
    → t.count ≡ n
    → t.out ≡ true
    → ticks n t ≡ t
rate_period zero t f r m c o = refl
rate_period (suc n) t f r m c o = ground (arith, rate_reload n t r m c)

rate_inside :
    (n : ℕ) (t : Counter)
    → t.running ≡ true
    → t.mode ≡ 2
    → 0 < n
    → n < t.count
    → let u = ticks n t in (u.count + n ≡ t.count) × (u.out ≡ (u.count != 1))
rate_inside zero t r m lo hi = ground arith
rate_inside (suc n) t r m lo hi = rate_before n t r m hi

-- In mode 2 a counter that is loaded with a count comes back to itself after its full count of
-- ticks, and before that, after one or more of them, it stands at the full count less the ticks,
-- with OUT low exactly at 1.
pub rate_generator :
    (k : Counter) (initial n : ℕ)
    → k.mode ≡ 2
    → 0 < n
    → n < full_count (load_counter k initial)
    → let t = load_counter k initial in
      (ticks (full_count t) t ≡ t)
      × ((ticks n t).count + n ≡ full_count t)
      × ((ticks n t).out ≡ ((ticks n t).count != 1))
unfolding load_counter full_count
rate_generator k initial n m lo hi =
    let t = load_counter k initial in
    let (a, b) = rate_inside n t refl m lo hi in
    (rate_period (full_count t) t refl refl m refl (ground arith), a, b)

-- A half period ends, in mode 3.
square_half :
    (h : ℕ) (t : Counter)
    → t.running ≡ true
    → t.mode ≡ 3
    → full_count t ≡ t.count
    → 2 * h < t.count
    → t.count ≤ 2 * h + 2
    → ticks (suc h) t ≡ record t { out = not t.out }
square_half h t r m f lo hi = ground (arith, square_reload h t r m lo hi)

-- In mode 3 a counter that is loaded with `2 * h + 1` or `2 * h + 2` has OUT high, reloads with
-- OUT low after `h + 1` ticks, and is back as it was after `h + 1` more, so that an odd count
-- gives the same half periods as the even count above it.
pub square_wave :
    (k : Counter) (initial h : ℕ)
    → k.mode ≡ 3
    → let t = load_counter k initial in
      2 * h < full_count t
      → full_count t ≤ 2 * h + 2
      → (ticks (suc h) t ≡ record t { out = false })
        × (ticks (suc h) (record t { out = false }) ≡ t)
unfolding load_counter full_count
square_wave k initial h m lo hi =
    let t = load_counter k initial in
    (
      ground (arith, square_half h t refl m refl lo hi),
      ground (arith, square_half h (record t { out = false }) refl m refl lo hi),
    )

down_whole :
    (n : ℕ) (t : Counter)
    → t.running ≡ true
    → t.mode ≡ 0
    → t.count ≡ n
    → 0 < n
    → ticks n t ≡ record t { count = 0; out = true }
down_whole zero t r m c p = ground arith
down_whole (suc n) t r m c p = down_terminal n t r m c

-- In mode 0 a loaded counter counts down by 1 with OUT low for as many ticks as its full count
-- but one, and at the next OUT goes high and the count is 0.
pub terminal_count :
    (k : Counter) (initial n : ℕ)
    → k.mode ≡ 0
    → n < full_count (load_counter k initial)
    → let t = load_counter k initial in
      (ticks n t ≡ record t { count = full_count t - n })
      × ((ticks n t).out ≡ false)
      × (ticks (full_count t) t ≡ record t { count = 0; out = true })
unfolding load_counter full_count
terminal_count k initial n m lo =
    let t = load_counter k initial in
    (
      down_before n t refl m lo,
      ground (arith, down_before n t refl m lo),
      down_whole (full_count t) t refl m refl (full_count_pos t),
    )
