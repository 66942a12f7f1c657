-- ===== src/Wire/Stream.antt =====
-- What the reads of message/be_acc_msg.h deliver, however the stream is cut into chunks.
use be_la.Prelude.{
  ℕ, zero, suc, ◌-◌, ◌≤◌, ◌<◌, ◌≡◌, refl, sym, ◌∙◌, ap, inl, inr, Bytes, List, [], ◌∷◌, ◌++◌, arith,
  leb, length, take, drop, Bool-cases, length-append, suc==zero, ltb-false, out_of_bounds,
  drop-append_ge, drop-append_le, take-append_ge, take-append_le,
}
use be_la.Wire.Receive.{
  Arrival, chunk, interrupted, closed, failed, Io, finished, died, put_back, with_prefix, read_loop,
}

-- The bytes that can still be read, up to the end of the stream or an error.
abbrev pub stream : List Arrival → Bytes
stream [] = []
stream (chunk b bs ∷ r) = b ∷ (bs ++ stream r)
stream (interrupted ∷ r) = stream r
stream (closed ∷ r) = []
stream (failed ∷ r) = []

stream-put_back : (bs : Bytes) (r : List Arrival) → stream (put_back bs r) ≡ bs ++ stream r
unfolding put_back
stream-put_back [] r = refl
stream-put_back (b ∷ bs) r = refl

-- A read of `n` bytes returned the first `n` of the stream and left the others.
abbrev pub Delivers : ℕ → List Arrival → Io Bytes → Type 0
Delivers n r o =
    (rest : List Arrival) × (o ≡ finished (take n (stream r)) rest)
    × (stream rest ≡ drop n (stream r))

with_prefix-Delivers :
    (b : ℕ) (bs : Bytes) (r : List Arrival) (n : ℕ) (o : Io Bytes)
    → suc (length bs) ≤ n
    → Delivers (n - suc (length bs)) r o
    → Delivers n (chunk b bs ∷ r) (with_prefix (b ∷ bs) o)
unfolding with_prefix
with_prefix-Delivers b bs r n o h (rest, e, s) = (
  rest,
  rw (e, take-append_ge n (b ∷ bs) (stream r) h),
  s ∙ sym (drop-append_ge n (b ∷ bs) (stream r) h),
)

-- With enough bytes on the stream and room in the buffer the loop returns the bytes that it is
-- asked for, the first of the stream, and leaves the others.
pub read_loop-Delivers :
    (room n : ℕ) (r : List Arrival)
    → n ≤ length (stream r)
    → n ≤ room
    → Delivers n r (read_loop room n r)
unfolding read_loop
read_loop-Delivers room zero [] h k = ([], refl, refl)
read_loop-Delivers room (suc n) [] h k = absurd (omega arith)
read_loop-Delivers room zero (chunk b bs ∷ r) h k = (chunk b bs ∷ r, refl, refl)
read_loop-Delivers room (suc n) (chunk b bs ∷ r) h k =
    rw (suc==zero n) (elim (Bool-cases (leb (suc n) (suc (length bs)))) [
      | inl last ↦
          rw (last, ltb-false room (suc n) k)
            (
              put_back (drop n bs) r,
              ap (λ t. finished (b ∷ t) (put_back (drop n bs) r))
                  (sym (take-append_le n bs (stream r) (ground arith))),
              stream-put_back (drop n bs) r ∙ sym (drop-append_le n bs (stream r) (ground arith)),
            )
      | inr more ↦
          rw (more, ltb-false room (suc (length bs)) (ground arith))
            (with_prefix-Delivers b bs r (suc n) _ (ground arith) (
              read_loop-Delivers (room - suc (length bs)) (suc n - suc (length bs)) r
                (ground (arith, length-append bs (stream r))) (omega arith)))
    ])
read_loop-Delivers room zero (interrupted ∷ r) h k = (interrupted ∷ r, refl, refl)
read_loop-Delivers room (suc n) (interrupted ∷ r) h k =
    rw (suc==zero n) (read_loop-Delivers room (suc n) r h k)
read_loop-Delivers room zero (closed ∷ r) h k = (closed ∷ r, refl, refl)
read_loop-Delivers room (suc n) (closed ∷ r) h k = absurd (omega arith)
read_loop-Delivers room zero (failed ∷ r) h k = (failed ∷ r, refl, refl)
read_loop-Delivers room (suc n) (failed ∷ r) h k = absurd (omega arith)

with_prefix_died :
    (p : Bytes) (o : Io Bytes) → o ≡ died out_of_bounds → with_prefix p o ≡ died out_of_bounds
unfolding with_prefix
with_prefix_died p o e = rw e

-- Asked for more bytes than the buffer holds, when the stream has as many, the loop writes outside
-- the buffer: nothing between the length in a message and the buffer checks the one by the other.
pub read_loop_overflow :
    (room n : ℕ) (r : List Arrival)
    → room < n
    → n ≤ length (stream r)
    → read_loop room n r ≡ died out_of_bounds
unfolding read_loop
read_loop_overflow room zero r k h = absurd (omega arith)
read_loop_overflow room (suc n) [] k h = absurd (omega arith)
read_loop_overflow room (suc n) (chunk b bs ∷ r) k h = ground (
  arith,
  length-append bs (stream r),
  with_prefix_died (b ∷ bs) (read_loop (room - suc (length bs)) (suc n - suc (length bs)) r),
  read_loop_overflow (room - suc (length bs)) (suc n - suc (length bs)) r,
)
read_loop_overflow room (suc n) (interrupted ∷ r) k h =
    rw (suc==zero n) (read_loop_overflow room (suc n) r k h)
read_loop_overflow room (suc n) (closed ∷ r) k h = absurd (omega arith)
read_loop_overflow room (suc n) (failed ∷ r) k h = absurd (omega arith)
