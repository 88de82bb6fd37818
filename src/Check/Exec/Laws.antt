-- ===== src/Check/Exec/Laws.antt =====
-- The log writer keeps exactly the first bytes of the output, and says when it lost some.
use run_forge.Common.{
  ℕ, zero, suc, ◌+◌, ◌-◌, ◌≤◌, ◌<◌, ◌≡◌, refl, sym, ◌∙◌, ap, true, false, List, [], ◌∷◌, ◌++◌, inl,
  inr, arith, Bool-cases, leb, ltb, length, length-append, take, All, if◌then◌else◌,
}
use run_forge.Check.Exec.{LogWriter, new_writer, write, write_all}
use mathlib.Core.List.{append-nil, append_assoc}

-- All that the chunks hold, in order.
abbrev pub concat : List (List ℕ) → List ℕ
concat [] = []
concat (chunk ∷ chunks) = chunk ++ concat chunks

take_all : (n : ℕ) (xs : List ℕ) → length xs ≤ n → take n xs ≡ xs
take_all zero [] h = refl
take_all (suc n) [] h = refl
take_all zero (x ∷ xs) h = absurd (omega arith)
take_all (suc n) (x ∷ xs) h = ap (λ t. x ∷ t) (take_all n xs (omega arith))

length-take : (n : ℕ) (xs : List ℕ) → n ≤ length xs → length (take n xs) ≡ n
length-take zero xs h = refl
length-take (suc n) [] h = absurd (omega arith)
length-take (suc n) (x ∷ xs) h = omega (arith, length-take n xs (omega arith))

take-append_long : (n : ℕ) (xs ys : List ℕ) → n ≤ length xs → take n (xs ++ ys) ≡ take n xs
take-append_long zero xs ys h = refl
take-append_long (suc n) [] ys h = absurd (omega arith)
take-append_long (suc n) (x ∷ xs) ys h = ap (λ t. x ∷ t) (take-append_long n xs ys (omega arith))

-- With `m` more than the length of `xs`.
take-append_short :
    (m n : ℕ) (xs ys : List ℕ) → n ≡ length xs + m → take n (xs ++ ys) ≡ xs ++ take m ys
take-append_short m n [] ys h = let e : n ≡ m = omega arith in rw e
take-append_short m zero (x ∷ xs) ys h = absurd (omega arith)
take-append_short m (suc n) (x ∷ xs) ys h =
    ap (λ t. x ∷ t) (take-append_short m n xs ys (omega arith))

-- The writer after it was given the bytes `seen`.
pub record Keeps (max_bytes : ℕ) (seen : List ℕ) (w : LogWriter) : Type 0 where
  pub written : w.written ≡ take max_bytes seen
  pub counted : w.bytes_written ≡ length (take max_bytes seen)
  pub lossy : w.truncated ≡ ltb max_bytes (length seen)

slice_lem :
    (r : ℕ) (chunk : List ℕ) → (if ltb r (length chunk) then take r chunk else chunk) ≡ take r chunk
slice_lem r chunk = elim (Bool-cases (ltb r (length chunk))) [
  | inl e ↦ rw e
  | inr e ↦ rw e (sym (take_all r chunk (ground arith)))
]

ltb-length-take :
    (r : ℕ) (chunk : List ℕ) → ltb (length (take r chunk)) (length chunk) ≡ ltb r (length chunk)
ltb-length-take r chunk = elim (Bool-cases (ltb r (length chunk))) [
  | inl e ↦ ground (arith, length-take r chunk)
  | inr e ↦ ground (arith, ap length (take_all r chunk (ground arith)))
]

write-full :
    (m : ℕ) (seen chunk : List ℕ) (w : LogWriter)
    → Keeps m seen w
    → m ≤ length seen
    → 0 < length chunk
    → Keeps m (seen ++ chunk) (write m w chunk)
unfolding write
write-full m seen chunk w k full some_bytes =
    let e = take-append_long m seen chunk full in
    let n = length-take m seen full in
    let t = length-append seen chunk in
    let done : leb m w.bytes_written ≡ true = ground (arith, k.counted) in
    rw done (record { written = k.written ∙ sym e; counted = rw e k.counted; lossy = ground arith })

write-room :
    (m : ℕ) (seen chunk : List ℕ) (w : LogWriter)
    → Keeps m seen w
    → length seen < m
    → Keeps m (seen ++ chunk) (write m w chunk)
unfolding write
write-room m seen chunk w k room =
    let all = take_all m seen (omega arith) in
    let bytes : w.bytes_written ≡ length seen = k.counted ∙ ap length all in
    let unfilled : leb m w.bytes_written ≡ false = ground arith in
    let r = m - w.bytes_written in
    let slice = slice_lem r chunk in
    let joined = take-append_short r m seen chunk (omega (arith, bytes)) in
    let kept = ltb-length-take r chunk in
    let len = length-append seen (take r chunk) in
    let total = length-append seen chunk in
    rw (unfilled, slice)
      (record {
        written = rw (joined, k.written, all);
        counted = rw joined (omega (arith, len, bytes));
        lossy = rw kept (ground arith);
      })

write-Keeps :
    (m : ℕ) (seen chunk : List ℕ) (w : LogWriter)
    → Keeps m seen w
    → 0 < length chunk
    → Keeps m (seen ++ chunk) (write m w chunk)
write-Keeps m seen chunk w k some_bytes = elim (Bool-cases (leb m (length seen))) [
  | inl e ↦ write-full m seen chunk w k (ground arith) some_bytes
  | inr e ↦ write-room m seen chunk w k (ground arith)
]

write_all-Keeps :
    (m : ℕ) (seen : List ℕ) (chunks : List (List ℕ)) (w : LogWriter)
    → Keeps m seen w
    → All (λ chunk. 0 < length chunk) chunks
    → Keeps m (seen ++ concat chunks) (write_all m w chunks)
unfolding write_all
write_all-Keeps m seen [] w k h = rw append-nil k
write_all-Keeps m seen (chunk ∷ chunks) w k (p, h) =
    rw append_assoc at (
      write_all-Keeps m (seen ++ chunk) chunks (write m w chunk) (write-Keeps m seen chunk w k p) h)

-- Given the non-empty chunks that a pipe delivers, the log holds exactly the first `max_bytes` bytes
-- of the output, the byte count is the length of the log, and the log is marked truncated exactly
-- when the output is longer than `max_bytes`.
pub write_all-new_writer :
    (max_bytes : ℕ) (chunks : List (List ℕ))
    → All (λ chunk. 0 < length chunk) chunks
    → Keeps max_bytes (concat chunks) (write_all max_bytes new_writer chunks)
write_all-new_writer m chunks h = write_all-Keeps m [] chunks new_writer start h
  where
    start : Keeps m [] new_writer
    start =
        let e = take_all m [] (omega arith) in
        record { written = sym e; counted = rw e; lossy = ground arith }
