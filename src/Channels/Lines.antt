-- ===== src/Channels/Lines.antt =====
-- src/io_channel.cpp: what the mirror in lines gives to stdout.
use tool_i8085_trace.Prelude.{
  length, ℕ, ◌+◌, ◌≤◌, ◌<◌, ◌≡◌, refl, sym, ◌∙◌, ◌≢◌, inl, inr, Bool, true, false, ◌||◌, List, [],
  ◌∷◌, ◌++◌, arith, leb, ◌==◌, if◌then◌else◌, ==_iff, Bool-cases,
}
use Prim.Native.Nat.{ℕ}
use mathlib.Core.List.{append-nil, append_assoc}
use tool_i8085_trace.Channels.{GdbtxChannel, flush, is_kept, write_char, gdbtx_tick}

-- What a program or the clock does to the mirror.
pub data Event : Type 0 where
  written : ℕ → Event
  ticked : Event

abbrev pub happen : GdbtxChannel → Event → GdbtxChannel
happen g (written v) = write_char g v
happen g ticked = gdbtx_tick g

abbrev pub mirrored : GdbtxChannel → List Event → GdbtxChannel
mirrored g [] = g
mirrored g (e ∷ es) = mirrored (happen g e) es

-- The kept characters of what is written, in order.
abbrev pub kept : List Event → List ℕ
kept [] = []
kept (ticked ∷ es) = kept es
kept (written v ∷ es) = if is_kept v then v ∷ kept es else kept es

-- A text without its line feeds.
abbrev pub joined : List ℕ → List ℕ
joined [] = []
joined (c ∷ cs) = if c == 10 then joined cs else c ∷ joined cs

abbrev pub AllOf : (ℕ → Bool) → List ℕ → Type 0
AllOf p [] = Unit {0}
AllOf p (c ∷ cs) = (p c ≡ true) × AllOf p cs

-- A mirror whose line is short and holds what is kept, behind output of such lines.
pub record IsProper (g : GdbtxChannel) : Type 0 where
  pub short : length g.line < 512
  pub line : AllOf is_kept g.line
  pub out : AllOf (λ c. c == 10 || is_kept c) g.out

-- All that the mirror was given and keeps.
abbrev pub content : GdbtxChannel → List ℕ
content g = joined g.out ++ g.line

joined-append : (xs ys : List ℕ) → joined (xs ++ ys) ≡ joined xs ++ joined ys
joined-append [] ys = refl
joined-append (x ∷ xs) ys = ground (arith, joined-append xs ys)

joined_kept : (xs : List ℕ) → AllOf is_kept xs → joined xs ≡ xs
joined_kept [] h = refl
joined_kept (x ∷ xs) (k, h) = ground (arith, joined_kept xs h)

append-AllOf : (p : ℕ → Bool) (xs ys : List ℕ) → AllOf p xs → AllOf p ys → AllOf p (xs ++ ys)
append-AllOf p [] ys h k = k
append-AllOf p (x ∷ xs) ys (e, h) k = (e, append-AllOf p xs ys h k)

weaken-AllOf : (xs : List ℕ) → AllOf is_kept xs → AllOf (λ c. c == 10 || is_kept c) xs
weaken-AllOf [] h = h
weaken-AllOf (x ∷ xs) (e, h) = (ground arith, weaken-AllOf xs h)

length-snoc : (xs : List ℕ) (x : ℕ) → length (xs ++ x ∷ []) ≡ length xs + 1
length-snoc [] x = omega arith
length-snoc (y ∷ ys) x = omega (arith, length-snoc ys x)

content-flush : (g : GdbtxChannel) → AllOf is_kept g.line → content (flush g) ≡ content g
unfolding flush
content-flush g h =
    rw
      (
        joined-append g.out (g.line ++ 10 ∷ []),
        joined-append g.line (10 ∷ []),
        joined_kept g.line h,
        append-nil g.line,
      )
      (append-nil (joined g.out ++ g.line))

flush-IsProper :
    (g : GdbtxChannel)
    → AllOf is_kept g.line
    → AllOf (λ c. c == 10 || is_kept c) g.out
    → IsProper (flush g)
unfolding flush
flush-IsProper g h o = record {
  short = omega arith;
  line = tt;
  out =
      append-AllOf (λ c. c == 10 || is_kept c) g.out (g.line ++ 10 ∷ []) o
        (append-AllOf (λ c. c == 10 || is_kept c) g.line (10 ∷ []) (weaken-AllOf g.line h)
          (refl, tt));
}

-- The line with one more character.
abbrev longer : GdbtxChannel → ℕ → GdbtxChannel
longer g v = record g { line = g.line ++ v ∷ []; idle_ticks = 0 }

content-longer : (g : GdbtxChannel) (v : ℕ) → content (longer g v) ≡ content g ++ v ∷ []
content-longer g v = sym (append_assoc (joined g.out) g.line (v ∷ []))

longer_line :
    (g : GdbtxChannel) (v : ℕ) → IsProper g → is_kept v ≡ true → AllOf is_kept (longer g v).line
longer_line g v p k = append-AllOf is_kept g.line (v ∷ []) p.line (k, tt)

longer-IsProper :
    (g : GdbtxChannel) (v : ℕ)
    → IsProper g
    → is_kept v ≡ true
    → length (longer g v).line < 512
    → IsProper (longer g v)
longer-IsProper g v p k h = record { short = h; line = longer_line g v p k; out = p.out }

-- What one event adds to the content.
abbrev Added : GdbtxChannel → Event → Type 0
Added g e = IsProper (happen g e) × content (happen g e) ≡ content g ++ kept (e ∷ [])

full_line :
    (g : GdbtxChannel) (v : ℕ)
    → is_kept v ≡ true
    → 512 ≤ length (longer g v).line
    → write_char g v ≡ flush (longer g v)
unfolding write_char
full_line g v k h = ground arith

short_line :
    (g : GdbtxChannel) (v : ℕ)
    → is_kept v ≡ true
    → length (longer g v).line < 512
    → write_char g v ≡ longer g v
unfolding write_char
short_line g v k h = ground arith

dropped :
    (g : GdbtxChannel) (v : ℕ)
    → v ≢ 10
    → is_kept v ≡ false
    → write_char g v ≡ record g { idle_ticks = 0 }
unfolding write_char
dropped g v n k = ground arith

line_feed : (g : GdbtxChannel) → write_char g 10 ≡ flush g
unfolding write_char
line_feed g = refl

kept-Added : (g : GdbtxChannel) (v : ℕ) → IsProper g → is_kept v ≡ true → Added g (written v)
kept-Added g v p k =
    let line = longer_line g v p k in
    elim (Bool-cases (leb 512 (length (longer g v).line))) [
      | inl e ↦
          let full : 512 ≤ length (longer g v).line = ground arith in
          rw (full_line g v k full, k)
            (
              flush-IsProper (longer g v) line p.out,
              content-flush (longer g v) line ∙ content-longer g v,
            )
      | inr e ↦
          let short : length (longer g v).line < 512 = ground arith in
          rw (short_line g v k short, k) (longer-IsProper g v p k short, content-longer g v)
    ]

written-Added : (g : GdbtxChannel) (v : ℕ) → IsProper g → Added g (written v)
written-Added g v p = elim (Bool-cases (is_kept v)) [
  | inl k ↦ kept-Added g v p k
  | inr k ↦ elim (Bool-cases (v == 10)) [
    | inl e ↦
        let same : v ≡ 10 = (==_iff v 10).0 e in
        rw (same, line_feed g)
          (flush-IsProper g p.line p.out, content-flush g p.line ∙ sym (append-nil (content g)))
    | inr e ↦
        let other : v ≢ 10 = λ same. ground arith in
        rw (dropped g v other k, k)
          (record { short = p.short; line = p.line; out = p.out }, sym (append-nil (content g)))
  ]
]

ticked_parts :
    (line : List ℕ) (idle : ℕ) (out : List ℕ)
    → let g : GdbtxChannel = record { line = line; idle_ticks = idle; out = out } in
      IsProper g → Added g ticked
unfolding gdbtx_tick
ticked_parts [] idle out p =
    let g : GdbtxChannel = record { line = []; idle_ticks = idle; out = out } in
    (p, sym (append-nil (content g)))
ticked_parts (c ∷ cs) idle out p =
    let g : GdbtxChannel = record { line = c ∷ cs; idle_ticks = idle; out = out } in
    elim (Bool-cases (leb 256 (idle + 1))) [
      | inl e ↦
          rw e
            (flush-IsProper g p.line p.out, content-flush g p.line ∙ sym (append-nil (content g)))
      | inr e ↦
          rw e
            (record { short = p.short; line = p.line; out = p.out }, sym (append-nil (content g)))
    ]

ticked-Added : (g : GdbtxChannel) → IsProper g → Added g ticked
ticked-Added g p = ticked_parts g.line g.idle_ticks g.out p

happen-Added : (g : GdbtxChannel) (e : Event) → IsProper g → Added g e
happen-Added g (written v) p = written-Added g v p
happen-Added g ticked p = ticked-Added g p

kept-append : (e : Event) (es : List Event) → kept (e ∷ es) ≡ kept (e ∷ []) ++ kept es
kept-append ticked es = refl
kept-append (written v) es = ground arith

-- The mirror loses and adds nothing but line feeds: from a mirror whose line is short and holds kept
-- characters only, whatever is written and however the ticks fall between, what has gone to stdout
-- without its line feeds, followed by the line, grows by the tabs and printable characters that were
-- written, in order; the line stays below 512 characters, and stdout has kept characters and line
-- feeds only.
pub mirrored-content :
    (es : List Event) (g : GdbtxChannel)
    → IsProper g
    → IsProper (mirrored g es) × content (mirrored g es) ≡ content g ++ kept es
mirrored-content [] g p = (p, sym (append-nil (content g)))
mirrored-content (e ∷ es) g p =
    let step = happen-Added g e p in
    let rest = mirrored-content es (happen g e) step.0 in
    (
      rest.0,
      rest.1 ∙ rw (step.1, kept-append e es) (append_assoc (content g) (kept (e ∷ [])) (kept es)),
    )
