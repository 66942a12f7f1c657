-- ===== src/Wire/Exchange.antt =====
-- `wait_read_event` and `acc_unix_send_recv` of message/be_acc_msg.h: a message and its answer.
use be_la.Prelude.{
  ℕ, ◌+◌, ◌≤◌, ◌<◌, ◌^◌, ◌≡◌, refl, Bool, true, false, Bytes, List, ◌++◌, Fault, Status, success,
  failure, length, if◌then◌else◌,
}
use be_la.Wire.{AccMsgHeader, header_size, FitsWord}
use be_la.Wire.Send.{Write, Sent, sent, pending, acc_unix_send_message}
use be_la.Wire.Receive.{Arrival, Io, finished, lost, waiting, died, acc_unix_recv_message}
use be_la.Wire.Stream.{stream}
use be_la.Wire.Transport.{granted, message_bytes, send_message_ends}
use be_la.Wire.Message.{recv_message_lem}

-- What `poll` does: it returns a positive number or not, and leaves `revents` set or not.
pub record Poll : Type 0 where
  pub positive : Bool
  pub revents : Bool

unfoldable pub wait_read_event : Poll → Status
wait_read_event p = if p.positive then if p.revents then success else failure else failure

-- The call returns 0 with the answer, returns -1, waits, or dies.
pub data Exchanged : Type 0 where
  answered : AccMsgHeader → Bytes → Exchanged
  refused blocked : Exchanged
  dead : Fault → Exchanged

unfoldable pub recv_result : Io (AccMsgHeader × Bytes) → Exchanged
recv_result (finished (hdr, body) rest) = answered hdr body
recv_result (lost rest) = refused
recv_result waiting = blocked
recv_result (died f) = dead f

unfoldable pub when_sent : ℕ → Status → List Arrival → Sent → Exchanged
unfolding recv_result
when_sent room ready arrivals (sent false s) = refused
when_sent room failure arrivals (sent true s) = refused
when_sent room success arrivals (sent true s) = recv_result (acc_unix_recv_message room arrivals)
when_sent room ready arrivals (pending s) = blocked

-- `room` is the size of `recv_body`.
unfoldable pub acc_unix_send_recv :
    ℕ → AccMsgHeader → Bytes → List Write → Poll → List Arrival → Exchanged
unfolding wait_read_event when_sent
acc_unix_send_recv room send_hdr send_body writes poll arrivals =
    when_sent room (wait_read_event poll) arrivals (acc_unix_send_message send_hdr send_body writes)

-- When the writes take the whole message, the poll succeeds, and the peer's answer is on the
-- stream with a length that is true and fits the buffer, the call returns that answer.
pub send_recv_answered :
    (room : ℕ) (hdr reply : AccMsgHeader) (body reply_body more : Bytes) (writes : List Write)
    (arrivals : List Arrival)
    → length (message_bytes hdr body) ≤ granted writes
    → FitsWord reply
    → reply.total_len ≡ header_size + length reply_body
    → reply.total_len < 2 ^ 31
    → length reply_body ≤ room
    → stream arrivals ≡ message_bytes reply reply_body ++ more
    → acc_unix_send_recv room hdr body writes (record { positive = true; revents = true }) arrivals
      ≡ answered reply reply_body
unfolding acc_unix_send_recv wait_read_event when_sent recv_result
send_recv_answered room hdr reply body reply_body more writes arrivals enough f len small fits e =
    let (rest, q, _) = recv_message_lem room reply reply_body more arrivals f len small fits e in
    rw (send_message_ends hdr body writes enough, q) refl
