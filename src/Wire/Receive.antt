-- ===== src/Wire/Receive.antt =====
-- `_readn` and `acc_unix_recv_message` of message/be_acc_msg.h over a stream socket.
use be_la.Prelude.{
  ℕ, suc, ◌-◌, ◌^◌, Bytes, List, [], ◌∷◌, ◌++◌, Fault, assertion, null_access, out_of_bounds, ltb,
  leb, ◌==◌, if◌then◌else◌, length, take, drop,
}
use be_la.Wire.{AccMsgHeader, header_size, bytes_header, data_len}

-- What a `read` can meet next: bytes that have come (at least one), EINTR or EAGAIN, the end of
-- the stream, or another error.
pub data Arrival : Type 0 where
  chunk : ℕ → Bytes → Arrival
  interrupted closed failed : Arrival

-- A call that reads: it returns 0 or -1 with the arrivals that it left, waits for more, or dies.
pub data Io {ℓ} (A : Type ℓ) : Type ℓ where
  finished : A → List Arrival → Io A
  lost : List Arrival → Io A
  waiting : Io A
  died : Fault → Io A

infixl 5 ◌>>=◌
abbrev pub ◌>>=◌ {ℓ κ} : {A : Type ℓ} {B : Type κ} → Io A → (A → List Arrival → Io B) → Io B
finished a r >>= f = f a r
lost r >>= f = lost r
waiting >>= f = waiting
died e >>= f = died e

-- What a `read` leaves of a chunk.
unfoldable pub put_back : Bytes → List Arrival → List Arrival
put_back [] r = r
put_back (b ∷ bs) r = chunk b bs ∷ r

unfoldable pub with_prefix : Bytes → Io Bytes → Io Bytes
with_prefix p (finished bs r) = finished (p ++ bs) r
with_prefix p (lost r) = lost r
with_prefix p waiting = waiting
with_prefix p (died e) = died e

-- The loop. `room` is what is left of the buffer behind `msg + readed`: a read that delivers more
-- writes outside it. A read delivers the bytes that are there, `remain` of them at most.
unfoldable pub read_loop : ℕ → ℕ → List Arrival → Io Bytes
unfolding put_back with_prefix
read_loop room remain [] = if remain == 0 then finished [] [] else waiting
read_loop room remain (chunk b bs ∷ r) =
    let got = suc (length bs) in
    let more = with_prefix (b ∷ bs) (read_loop (room - got) (remain - got) r) in
    if remain == 0
    then finished [] (chunk b bs ∷ r)
    else if leb remain got
    then if ltb room remain
      then died out_of_bounds
      else finished (take remain (b ∷ bs)) (put_back (drop remain (b ∷ bs)) r)
    else if ltb room got
    then died out_of_bounds
    else more
read_loop room remain (interrupted ∷ r) =
    let again = read_loop room remain r in
    if remain == 0 then finished [] (interrupted ∷ r) else again
read_loop room remain (closed ∷ r) = if remain == 0 then finished [] (closed ∷ r) else lost r
read_loop room remain (failed ∷ r) =
    if remain == 0 then finished [] (failed ∷ r) else died null_access

-- `len` is a 32-bit pattern, negative from 2^31 on.
unfoldable pub readn : ℕ → ℕ → List Arrival → Io Bytes
unfolding read_loop
readn room len r = if leb (2 ^ 31) len then died assertion else read_loop room len r

-- The header goes to `*hdr`; `room` is the size of the buffer `body`.
unfoldable pub acc_unix_recv_message : ℕ → List Arrival → Io (AccMsgHeader × Bytes)
unfolding readn bytes_header data_len
acc_unix_recv_message room r = readn header_size header_size r >>= λ h r'.
    let hdr = bytes_header h in
    readn room (data_len hdr) r' >>= λ body r''. finished (hdr, body) r''
