-- ===== src/Wire/Message.antt =====
-- `acc_unix_recv_message` of message/be_acc_msg.h on what a peer sends.
use be_la.Prelude.{
  ℕ, ◌+◌, ◌-◌, ◌≤◌, ◌<◌, ◌^◌, ◌≡◌, sym, ◌∙◌, ap, true, Bytes, List, ◌++◌, arith, length, take, drop,
  length-append, take-append_left, drop-append_left, leb-false, leb-true, ◌⊎◌, assertion,
  out_of_bounds, subst, append_assoc,
}
use be_la.Wire.{
  AccMsgHeader, header_size, header_bytes, bytes_header, length-header_bytes,
  bytes_header-header_bytes, FitsWord, data_len,
}
use be_la.Wire.Send.{Write, sent, acc_unix_send_message}
use be_la.Wire.Receive.{Arrival, Io, finished, died, readn, ◌>>=◌, acc_unix_recv_message}
use be_la.Wire.Stream.{stream, read_loop-Delivers, read_loop_overflow}
use be_la.Wire.Transport.{message_bytes, SendsOf, send_message-SendsOf}

-- A read of a part that the stream begins with returns that part.
readn_prefix :
    (room n : ℕ) (p q : Bytes) (r : List Arrival)
    → n ≡ length p
    → stream r ≡ p ++ q
    → length p ≤ room
    → length p < 2 ^ 31
    → (rest : List Arrival) × (readn room n r ≡ finished p rest) × (stream rest ≡ q)
unfolding readn
readn_prefix room n p q r k e fits small =
    let (rest, d, s) =
      read_loop-Delivers room n r (omega (arith, ap length e, length-append p q)) (omega arith) in
    let part : take n (stream r) ≡ p = rw (k, e) (take-append_left p q) in
    let left : drop n (stream r) ≡ q = rw (k, e) (drop-append_left p q) in
    (rest, rw (leb-false (2 ^ 31) n (omega arith)) (d ∙ ap (λ t. finished t rest) part), s ∙ left)

-- What is done with the bytes of the header.
abbrev body_behind : ℕ → AccMsgHeader → List Arrival → Io (AccMsgHeader × Bytes)
body_behind room hdr r' = readn room (data_len hdr) r' >>= λ body r''. finished (hdr, body) r''

continue_with :
    (hdr : AccMsgHeader) (room : ℕ) (o : Io Bytes) (h : Bytes) (r' : List Arrival)
    → o ≡ finished h r'
    → bytes_header h ≡ hdr
    → (o >>= λ b s. body_behind room (bytes_header b) s) ≡ body_behind room hdr r'
continue_with hdr room o h r' e q = rw (e, q)

-- The header arrives first, and the rest of the call reads behind it.
recv_header :
    (room : ℕ) (hdr : AccMsgHeader) (q : Bytes) (r : List Arrival)
    → FitsWord hdr
    → stream r ≡ header_bytes hdr ++ q
    → (r' : List Arrival) × (stream r' ≡ q)
      × (acc_unix_recv_message room r ≡ body_behind room hdr r')
unfolding acc_unix_recv_message
recv_header room hdr q r f e =
    let (r', d, s) =
      readn_prefix header_size header_size (header_bytes hdr) q r (sym (length-header_bytes hdr)) e
        (omega (arith, length-header_bytes hdr)) (omega (arith, length-header_bytes hdr)) in
    (
      r',
      s,
      continue_with hdr room (readn header_size header_size r) (header_bytes hdr) r' d
          (bytes_header-header_bytes hdr f),
    )

-- A message whose header states its length, and whose body fits the buffer, is received as it was
-- sent, and what follows it stays on the stream.
pub recv_message_lem :
    (room : ℕ) (hdr : AccMsgHeader) (body more : Bytes) (r : List Arrival)
    → FitsWord hdr
    → hdr.total_len ≡ header_size + length body
    → hdr.total_len < 2 ^ 31
    → length body ≤ room
    → stream r ≡ message_bytes hdr body ++ more
    → (rest : List Arrival) × (acc_unix_recv_message room r ≡ finished (hdr, body) rest)
      × (stream rest ≡ more)
unfolding data_len
recv_message_lem room hdr body more r f len small fits e =
    let (r', s, whole) =
      recv_header room hdr (body ++ more) r f (e ∙ append_assoc (header_bytes hdr) body more) in
    let k : data_len hdr ≡ length body = omega arith in
    let (rest, d, left) = readn_prefix room (data_len hdr) body more r' k s fits (omega arith) in
    (rest, whole ∙ rw d, left)

-- When the fields of a header fit their words, its length is true and below 2^31, and the body
-- fits the receiver's buffer, what a successful send put on the wire, cut into chunks in any
-- way, is received as it was sent, and what follows it stays on the stream.
pub recv-send :
    (room : ℕ) (hdr : AccMsgHeader) (body more s : Bytes) (w : List Write) (r : List Arrival)
    → FitsWord hdr
    → hdr.total_len ≡ header_size + length body
    → hdr.total_len < 2 ^ 31
    → length body ≤ room
    → acc_unix_send_message hdr body w ≡ sent true s
    → stream r ≡ s ++ more
    → (rest : List Arrival) × (acc_unix_recv_message room r ≡ finished (hdr, body) rest)
      × (stream rest ≡ more)
recv-send room hdr body more s w r f len small fits done_send e =
    let q : s ≡ message_bytes hdr body =
      subst (SendsOf (message_bytes hdr body)) done_send (send_message-SendsOf hdr body w) in
    recv_message_lem room hdr body more r f len small fits (e ∙ ap (λ t. t ++ more) q)

-- A header that arrives and states a length below 2^31, but more bytes than the buffer holds,
-- makes the receiver write outside the buffer once that many bytes are on the stream: no test
-- compares the two.
pub recv_message_overflow :
    (room : ℕ) (hdr : AccMsgHeader) (q : Bytes) (r : List Arrival)
    → FitsWord hdr
    → stream r ≡ header_bytes hdr ++ q
    → header_size + room < hdr.total_len
    → hdr.total_len < 2 ^ 31
    → hdr.total_len ≤ header_size + length q
    → acc_unix_recv_message room r ≡ died out_of_bounds
unfolding data_len readn
recv_message_overflow room hdr q r f e big small there =
    let (r', s, whole) = recv_header room hdr q r f e in
    let k : data_len hdr ≡ hdr.total_len - header_size = omega arith in
    whole
    ∙ rw (k, leb-false (2 ^ 31) (hdr.total_len - header_size) (omega arith))
        (rw (
          read_loop_overflow room (hdr.total_len - header_size) r' (omega arith)
            (omega (arith, ap length s))))

-- A header that arrives and states less than its own size, or a length that is negative and
-- stays so without the header, ends the process of the receiver by an assertion.
pub recv_message_bad_length :
    (room : ℕ) (hdr : AccMsgHeader) (q : Bytes) (r : List Arrival)
    → FitsWord hdr
    → stream r ≡ header_bytes hdr ++ q
    → (hdr.total_len < header_size) ⊎ (header_size + 2 ^ 31 ≤ hdr.total_len)
    → acc_unix_recv_message room r ≡ died assertion
unfolding data_len readn
recv_message_bad_length room hdr q r f e bad =
    let (r', s, whole) = recv_header room hdr q r f e in
    let fits = f.total_len_fits in whole ∙ rw (leb-true (2 ^ 31) (data_len hdr) (omega arith))
