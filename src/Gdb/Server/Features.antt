-- ===== src/Gdb/Server/Features.antt =====
-- src/gdb_stub.cpp: the target description, fetched in parts.
use tool_i8085_trace.Prelude.{
  length, ℕ, zero, suc, ◌+◌, ◌-◌, ◌≤◌, ◌<◌, ◌≡◌, refl, ap, true, false, Option, none, some, List,
  [], ◌∷◌, ◌++◌, arith, ◌==◌, drop, take,
}
use Prim.Native.Nat.{ℕ}
use tool_i8085_trace.Gdb.Server.{chunk_of}

-- A debugger's loop: parts of `len` characters until one that begins with `l`, with the rounds left.
abbrev pub fetch : ℕ → List ℕ → ℕ → ℕ → Option (List ℕ)
fetch zero xml offset len = none
fetch (suc left) xml offset len = elim (chunk_of xml offset len) [
  | [] ↦ none
  | mark ∷ part ↦ elim (mark == b'l') [
    | true ↦ some part
    | false ↦ elim (fetch left xml (offset + length part) len) [
      | none ↦ none
      | some rest ↦ some (part ++ rest)
    ]
  ]
]

length-drop : (n : ℕ) (xs : List ℕ) → length (drop n xs) ≡ length xs - n
length-drop zero xs = omega arith
length-drop (suc n) [] = omega arith
length-drop (suc n) (x ∷ xs) = omega (arith, length-drop n xs)

length-take : (n : ℕ) (xs : List ℕ) → n ≤ length xs → length (take n xs) ≡ n
length-take zero xs h = refl
length-take (suc n) [] h = absurd (omega arith)
length-take (suc n) (x ∷ xs) h = omega (arith, length-take n xs (omega arith))

take-drop_zero : (m : ℕ) (xs : List ℕ) → take m xs ++ drop m xs ≡ xs
take-drop_zero zero xs = refl
take-drop_zero (suc m) [] = refl
take-drop_zero (suc m) (x ∷ xs) = ap (λ (t : List ℕ). x ∷ t) (take-drop_zero m xs)

take_none : (m : ℕ) → take m [] ++ [] ≡ []
take_none zero = refl
take_none (suc m) = refl

take-drop : (n m : ℕ) (xs : List ℕ) → take m (drop n xs) ++ drop (n + m) xs ≡ drop n xs
take-drop zero m xs = let e : 0 + m ≡ m = omega arith in rw e (take-drop_zero m xs)
take-drop (suc n) m [] = let e : suc n + m ≡ suc (n + m) = omega arith in rw e (take_none m)
take-drop (suc n) m (x ∷ xs) =
    let e : suc n + m ≡ suc (n + m) = omega arith in rw e (take-drop n m xs)

take_all : (n : ℕ) (xs : List ℕ) → length xs ≤ n → take n xs ≡ xs
take_all zero [] h = refl
take_all zero (x ∷ xs) h = absurd (omega arith)
take_all (suc n) [] h = refl
take_all (suc n) (x ∷ xs) h = ap (λ (t : List ℕ). x ∷ t) (take_all n xs (omega arith))

drop_all : (n : ℕ) (xs : List ℕ) → length xs ≤ n → drop n xs ≡ []
drop_all zero [] h = refl
drop_all zero (x ∷ xs) h = absurd (omega arith)
drop_all (suc n) [] h = refl
drop_all (suc n) (x ∷ xs) h = drop_all n xs (omega arith)

-- A text that is fetched in parts arrives whole: whatever the size of the parts, above 0, a round
-- for each character and one more bring the text from an offset within it on and then end.
pub fetch-chunk_of :
    (left : ℕ) (xml : List ℕ) (offset len : ℕ)
    → 0 < len
    → offset ≤ length xml
    → length xml < left + offset
    → fetch left xml offset len ≡ some (drop offset xml)
unfolding chunk_of
fetch-chunk_of zero xml offset len p b h = absurd (omega arith)
fetch-chunk_of (suc left) xml offset len p b h =
    let d = drop offset xml in
    ground (
      arith,
      length-drop offset xml,
      drop_all offset xml,
      take_all (length xml - offset) d,
      take_all len d,
      length-take len d,
      take-drop offset len xml,
      fetch-chunk_of left xml (offset + len) len,
    )
