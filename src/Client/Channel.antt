-- ===== src/Client/Channel.antt =====
-- vnf/cgnat-acc/acc_channel_vsocket.c: the three calls of the client over its channel.
use be_la.Prelude.{
  ℕ, ◌+◌, ◌≤◌, ◌≡◌, refl, Bool, true, Bytes, Option, none, some, List, [], ◌++◌, Fault, Status,
  success, failure, ◌==◌, ◌&&◌, if◌then◌else◌, length, arith,
}
use be_la.Vendor.{acc_type_flow}
use be_la.Wire.{
  AccMsgHeader, header_size, FitsWord, acc_unix_hello, acc_unix_add_flows, acc_unix_disconnect,
  acc_unix_success,
}
use be_la.Wire.Send.{Write}
use be_la.Wire.Receive.{Arrival}
use be_la.Wire.Stream.{stream}
use be_la.Wire.Transport.{granted, message_bytes}
use be_la.Wire.Exchange.{
  Poll, Exchanged, answered, refused, blocked, dead, acc_unix_send_recv, send_recv_answered,
}
use be_la.Daemon.Channel.{reply_header}
use be_la.Client.{ErrorCode, disconnect, flows_accept, flows_rejection}

-- A call that returns, waits, or dies.
pub data Called {ℓ} (A : Type ℓ) : Type ℓ where
  returned : A → Called A
  stuck : Called A
  killed : Fault → Called A

-- What an exchange meets.
pub record Line : Type 0 where
  pub writes : List Write
  pub poll : Poll
  pub arrivals : List Arrival

abbrev pub request : ℕ → ℕ → AccMsgHeader
request type len = record {
  total_len = header_size + len;
  acc_type = acc_type_flow;
  msg_type = type;
  code = 0;
}

-- The body of the answer has no buffer.
abbrev pub exchange : ℕ → Bytes → Line → Exchanged
exchange type body l =
    acc_unix_send_recv 0 (request type (length body)) body l.writes l.poll l.arrivals

-- The test of an answer.
unfoldable pub agrees : ℕ → AccMsgHeader → Bool
agrees type replay = (replay.code == acc_unix_success) && (replay.msg_type == type)

unfoldable pub connect_result : ℕ → Exchanged → Called ℕ
connect_result fd (answered replay b) =
    if agrees acc_unix_hello replay then returned fd else returned 0
connect_result fd refused = returned 0
connect_result fd blocked = stuck
connect_result fd (dead f) = killed f

-- `fd` is what the channel's `open` returns, `hostname` what `gethostname` writes. The handle is
-- the descriptor, 0 for NULL.
unfoldable pub acc_channel_connect : Option ℕ → Option Bytes → Line → Called ℕ
unfolding connect_result
acc_channel_connect none hostname l = returned 0
acc_channel_connect (some fd) none l = returned 0
acc_channel_connect (some fd) (some hostname) l =
    connect_result fd (exchange acc_unix_hello hostname l)

unfoldable pub add_flows_result : Exchanged → Called ErrorCode
add_flows_result (answered replay b) =
    if agrees acc_unix_add_flows replay then returned flows_accept else returned flows_rejection
add_flows_result refused = returned disconnect
add_flows_result blocked = stuck
add_flows_result (dead f) = killed f

-- `flows` is the memory of the flows.
unfoldable pub acc_channel_add_flows : Bytes → Line → Called ErrorCode
unfolding add_flows_result
acc_channel_add_flows flows l = add_flows_result (exchange acc_unix_add_flows flows l)

-- The channel is closed on both paths.
unfoldable pub disconnect_result : Exchanged → Called (Unit {0})
disconnect_result (answered replay b) = returned tt
disconnect_result refused = returned tt
disconnect_result blocked = stuck
disconnect_result (dead f) = killed f

unfoldable pub acc_channel_disconnect : Line → Called (Unit {0})
unfolding disconnect_result
acc_channel_disconnect l = disconnect_result (exchange acc_unix_disconnect [] l)

-- The error code for the status of the daemon's handler.
abbrev pub error_code_of : Status → ErrorCode
error_code_of success = flows_accept
error_code_of failure = flows_rejection

abbrev pub clear : List Write → List Arrival → Line
clear writes arrivals = record {
  writes = writes;
  poll = record { positive = true; revents = true };
  arrivals = arrivals;
}

-- When the request is written whole, the poll succeeds, and the daemon's answer to it arrives,
-- `add_flows` returns FLOWS_ACCEPT for a handler that returned 0 and FLOWS_REJECTION for one that
-- did not.
pub add_flows_answer :
    (flows more : Bytes) (s : Status) (writes : List Write) (arrivals : List Arrival)
    → length (message_bytes (request acc_unix_add_flows (length flows)) flows) ≤ granted writes
    → stream arrivals
      ≡ message_bytes (reply_header (request acc_unix_add_flows (length flows)) s) [] ++ more
    → acc_channel_add_flows flows (clear writes arrivals) ≡ returned (error_code_of s)
unfolding acc_channel_add_flows add_flows_result agrees
add_flows_answer flows more s writes arrivals enough e =
    let hdr = request acc_unix_add_flows (length flows) in
    rw
      (send_recv_answered 0 hdr (reply_header hdr s) flows [] more writes arrivals enough (fits s)
        refl (omega arith) (omega arith) e)
      (by_status s)
  where
    fits : (s : Status) → FitsWord (reply_header (request acc_unix_add_flows (length flows)) s)
    fits success = omega arith
    fits failure = omega arith

    by_status :
        (s : Status)
        → add_flows_result
            (answered (reply_header (request acc_unix_add_flows (length flows)) s) [])
          ≡ returned (error_code_of s)
    by_status success = refl
    by_status failure = refl
