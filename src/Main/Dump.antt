-- ===== src/Main/Dump.antt =====
-- src/main.cpp: the memory dumps behind a run.

use tool_i8085_trace.Prelude.{
  ℕ, zero, suc, ◌+◌, ◌%◌, ◌<◌, ◌≡◌, refl, true, false, ◌&&◌, Option, none, some, List, [], ◌∷◌,
  ◌++◌, arith, ltb, if◌then◌else◌, u16,
}
use Prim.Native.Nat.{ℕ}

-- The addresses of the hexadecimal part of a row, with the rounds left.
unfoldable pub row_at : ℕ → ℕ → ℕ → ℕ → ℕ → List ℕ
row_at zero start len offset i = []
row_at (suc left) start len offset i =
    let rest = row_at left start len offset (i + 1) in
    if ltb i 16 && ltb (offset + i) len then u16 (start + offset + i) ∷ rest else []

-- The loop over the rows: `offset` is a UINT16. `none` where the rounds run out.
unfoldable pub dump_rows : ℕ → ℕ → ℕ → ℕ → Option (List (List ℕ))
dump_rows zero start len offset = none
dump_rows (suc left) start len offset = elim (ltb offset len) [
  | true ↦ elim (dump_rows left start len (u16 (offset + 16))) [
    | none ↦ none
    | some rows ↦ some (row_at 16 start len offset 0 ∷ rows)
  ]
  | false ↦ some []
]

-- The `n` addresses from `start` on.
abbrev pub span : ℕ → ℕ → List ℕ
span zero start = []
span (suc n) start = u16 start ∷ span n (start + 1)

abbrev pub concat : List (List ℕ) → List ℕ
concat [] = []
concat (r ∷ rs) = r ++ concat rs

-- What the dump shows: the rows, one behind the other.
abbrev pub Shows : Option (List (List ℕ)) → List ℕ → Type 0
Shows none addrs = ⊥
Shows (some rows) addrs = concat rows ≡ addrs

-- A dump of more than 0xFFF0 bytes never ends: whatever the number of rounds, the row offset has
-- not reached the length.
dump_rows_endless :
    (left start len offset : ℕ)
    → 0xfff0 < len
    → offset % 16 ≡ 0
    → offset < 65536
    → dump_rows left start len offset ≡ none
unfolding dump_rows
dump_rows_endless zero start len offset h m b = refl
dump_rows_endless (suc left) start len offset h m b =
    ground (arith, dump_rows_endless left start len (u16 (offset + 16)))
