-- ===== src/Wire/Tests.antt =====
-- The transport of message/be_acc_msg.h at concrete inputs.
use be_la.Prelude.{◌≡◌, refl, true, List, [], ◌∷◌, arith, inl, assertion, out_of_bounds, Bytes}
use be_la.Wire.{AccMsgHeader, FitsWord, header_bytes}
use be_la.Wire.Iovec.{get_next_send_iovec}
use be_la.Wire.Send.{Write, wrote, sent, acc_unix_send_message}
use be_la.Wire.Advance.{Advances, get_next_send_iovec-Advances}
use be_la.Wire.Receive.{Arrival, chunk, interrupted, finished, died, acc_unix_recv_message}
use be_la.Wire.Stream.{stream}
use be_la.Wire.Transport.{message_bytes, SendsOf, send_message-SendsOf}
use be_la.Wire.Message.{recv-send, recv_message_overflow, recv_message_bad_length}

-- A message of three bytes.
abbrev hdr : AccMsgHeader
hdr = record { total_len = 19; acc_type = 1; msg_type = 1; code = 0 }

abbrev body : Bytes
body = 65 ∷ 66 ∷ 67 ∷ []

abbrev wire : Bytes
wire = 19 ∷ 0 ∷ 0 ∷ 0 ∷ 1 ∷ 0 ∷ 0 ∷ 0 ∷ 1 ∷ 0 ∷ 0 ∷ 0 ∷ 0 ∷ 0 ∷ 0 ∷ 0 ∷ 65 ∷ 66 ∷ 67 ∷ []

-- Cut inside the header and inside the body.
abbrev writes : List Write
writes = wrote 5 ∷ Write.interrupted ∷ wrote 13 ∷ wrote 1 ∷ []

abbrev arrivals : List Arrival
arrivals =
    chunk 19 (0 ∷ 0 ∷ [])
    ∷ interrupted
    ∷ chunk 0 (1 ∷ 0 ∷ 0 ∷ 0 ∷ 1 ∷ 0 ∷ 0 ∷ 0 ∷ 0 ∷ 0 ∷ 0 ∷ 0 ∷ 65 ∷ [])
    ∷ chunk 66 (67 ∷ [])
    ∷ []

send_in_parts : acc_unix_send_message hdr body writes ≡ sent true wire
unfolding acc_unix_send_message header_bytes
send_in_parts = refl

recv_in_parts : acc_unix_recv_message 2048 arrivals ≡ finished (hdr, body) []
unfolding acc_unix_recv_message header_bytes
recv_in_parts = refl

hdr-FitsWord : FitsWord hdr
hdr-FitsWord = omega arith

get_next_send_iovec-Advances_example :
    Advances (wire ∷ (body ∷ [])) 2 20 (get_next_send_iovec (wire ∷ (body ∷ [])) 2 20)
get_next_send_iovec-Advances_example =
    get_next_send_iovec-Advances (wire ∷ (body ∷ [])) 2 20 (omega arith)

send_message-SendsOf_example :
    SendsOf (message_bytes hdr body) (acc_unix_send_message hdr body writes)
send_message-SendsOf_example = send_message-SendsOf hdr body writes

recv-send_example :
    (rest : List Arrival) × (acc_unix_recv_message 2048 arrivals ≡ finished (hdr, body) rest)
    × (stream rest ≡ [])
recv-send_example =
    recv-send 2048 hdr body [] wire writes arrivals hdr-FitsWord refl (omega arith) (omega arith)
      send_in_parts refl

recv_message_overflow_example : acc_unix_recv_message 2 arrivals ≡ died out_of_bounds
unfolding header_bytes
recv_message_overflow_example =
    recv_message_overflow 2 hdr body arrivals hdr-FitsWord refl (omega arith) (omega arith)
      (omega arith)

-- The answer to it, with no body.
abbrev reply : AccMsgHeader
reply = record { total_len = 16; acc_type = 1; msg_type = 1; code = 0 }

abbrev short_arrivals : List Arrival
short_arrivals = chunk 15 (0 ∷ 0 ∷ 0 ∷ 1 ∷ 0 ∷ 0 ∷ 0 ∷ 1 ∷ 0 ∷ 0 ∷ 0 ∷ 0 ∷ 0 ∷ 0 ∷ 0 ∷ []) ∷ []

recv_message_bad_length_example : acc_unix_recv_message 2048 short_arrivals ≡ died assertion
unfolding header_bytes
recv_message_bad_length_example =
    recv_message_bad_length 2048 (record hdr { total_len = 15 }) [] short_arrivals (omega arith)
      refl (inl (omega arith))
