-- ===== src/DataTx/Chunks.antt =====
-- The chunks are the buffer, cut in order.
use lo_ra_ham_daemon.Base.{
  Bool, Bool-cases, List, [], ap, arith, drop, false, if◌then◌else◌, inl, inr, length, length-drop,
  length-take, min, suc, sym, take, take-append-drop, true, zero, ℕ, ◌++◌, ◌+◌, ◌<◌, ◌==◌, ◌∷◌, ◌≡◌,
  ◌≤◌,
}
use mathlib.Core.Path.{subst}
use lo_ra_ham_daemon.DataTx.{chunk_size, chunk_loop, for_each_chunk}

-- The size that chunks have: the limit, or 255 where there is none below that.
abbrev pub effective : ℕ → ℕ
effective limit = if limit == 0 then 255 else min limit 255

module _ {S : Type 0} (handler : S → List ℕ → ℕ → S × Bool) (limit : ℕ) where
  -- What happens from an offset on: the handler gets the next chunk, which is full unless it is the
  -- last one, and the loop ends with the buffer or with the first chunk that the handler refuses.
  pub data Chunked : ℕ → List ℕ → S → ℕ × S → Type 0 where
    finished : (sent : ℕ) (s : S) → Chunked sent [] s (sent, s)
    refused :
        (sent : ℕ) (chunk rest : List ℕ) (s s' : S)
        → length chunk ≡ min (effective limit) (length (chunk ++ rest))
        → 0 < length chunk
        → handler s chunk sent ≡ (s', false)
        → Chunked sent (chunk ++ rest) s (sent, s')
    passed :
        (sent : ℕ) (chunk rest : List ℕ) (s s' : S) (r : ℕ × S)
        → length chunk ≡ min (effective limit) (length (chunk ++ rest))
        → 0 < length chunk
        → handler s chunk sent ≡ (s', true)
        → Chunked (sent + length chunk) rest s' r
        → Chunked sent (chunk ++ rest) s r

  pub chunk_size_lem : (n : ℕ) → chunk_size n limit ≡ min (effective limit) n
  unfolding chunk_size
  chunk_size_lem n = ground arith

  chunk_positive : (rest : List ℕ) → 0 < length rest → 0 < chunk_size (length rest) limit
  unfolding chunk_size
  chunk_positive rest h = ground arith

  pub loop_refuses :
      (fuel sent : ℕ) (rest : List ℕ) (s s' : S)
      → 0 < length rest
      → handler s (take (chunk_size (length rest) limit) rest) sent ≡ (s', false)
      → chunk_loop handler limit (suc fuel) sent rest s ≡ (sent, s')
  unfolding chunk_loop
  loop_refuses fuel sent rest s s' h e = ground (arith, chunk_positive rest)

  pub loop_passes :
      (fuel sent : ℕ) (rest : List ℕ) (s s' : S)
      → 0 < length rest
      → let n = chunk_size (length rest) limit in
        handler s (take n rest) sent ≡ (s', true)
        → chunk_loop handler limit (suc fuel) sent rest s
          ≡ chunk_loop handler limit fuel (sent + n) (drop n rest) s'
  unfolding chunk_loop
  loop_passes fuel sent rest s s' h e = ground (arith, chunk_positive rest)

  chunk_loop-Chunked :
      (fuel sent : ℕ) (rest : List ℕ) (s : S)
      → length rest ≤ fuel
      → Chunked sent rest s (chunk_loop handler limit fuel sent rest s)
  unfolding chunk_loop
  chunk_loop-Chunked zero sent [] s h = Chunked.finished sent s
  chunk_loop-Chunked zero sent (x ∷ rest) s h = absurd (omega arith)
  chunk_loop-Chunked (suc fuel) sent [] s h = Chunked.finished sent s
  chunk_loop-Chunked (suc fuel) sent (x ∷ xs) s h =
      let rest = x ∷ xs in
      let n = chunk_size (length rest) limit in
      let chunk = take n rest in
      let whole : chunk ++ drop n rest ≡ rest = take-append-drop n rest in
      let size : length chunk ≡ min (effective limit) (length (chunk ++ drop n rest)) =
        rw whole (omega (arith, length-take n rest, chunk_size_lem (length rest))) in
      let some_bytes : 0 < length chunk = omega (
        arith,
        length-take n rest,
        chunk_positive rest (omega arith),
        chunk_size_lem (length rest),
      ) in
      let s' = (handler s chunk sent).0 in
      let r = chunk_loop handler limit fuel (sent + n) (drop n rest) s' in
      let step : n ≡ length chunk =
        omega (arith, length-take n rest, chunk_size_lem (length rest)) in
      let less : length (drop n rest) ≤ fuel =
        omega (arith, length-drop n rest, chunk_positive rest (omega arith)) in
      elim (Bool-cases (handler s chunk sent).1) [
        | inr refuses ↦
            let e : handler s chunk sent ≡ (s', false) = ap (λ b. (s', b)) refuses in
            subst (Chunked sent rest s) (sym (loop_refuses fuel sent rest s s' (omega arith) e)) (
              subst (λ l. Chunked sent l s (sent, s')) whole
                (Chunked.refused sent chunk (drop n rest) s s' size some_bytes e))
        | inl takes ↦
            let e : handler s chunk sent ≡ (s', true) = ap (λ b. (s', b)) takes in
            subst (Chunked sent rest s) (sym (loop_passes fuel sent rest s s' (omega arith) e)) (
              subst (λ l. Chunked sent l s r) whole
                (Chunked.passed sent chunk (drop n rest) s s' r size some_bytes e (
                  subst (λ m. Chunked (sent + m) (drop n rest) s' r) step
                    (chunk_loop-Chunked fuel (sent + n) (drop n rest) s' less))))
      ]

-- Whatever the handler does: it gets the buffer in consecutive chunks with their offsets, each of
-- the full size but the last one; the first chunk that it refuses is the last one it gets; and the
-- number returned is the number of bytes in the chunks that it took.
pub for_each_chunk-Chunked :
    {S : Type 0} (handler : S → List ℕ → ℕ → S × Bool) (limit : ℕ) (buf : List ℕ) (s : S)
    → Chunked handler limit 0 buf s (for_each_chunk handler limit buf s)
unfolding for_each_chunk
for_each_chunk-Chunked handler limit buf s =
    chunk_loop-Chunked handler limit (length buf) 0 buf s (omega arith)
