-- ===== src/Dialogue.antt =====
-- The client of vnf/cgnat-acc/acc_channel_vsocket.c and the daemon of be_la/be_channel.c, each with
-- what the other sends: a request of the client, its handler, and the answer.
mod Tests
use be_la.Prelude.{
  ℕ, ◌+◌, ◌^◌, ◌≤◌, ◌<◌, ◌≡◌, refl, sym, ◌∙◌, ap, Bytes, some, List, [], ◌++◌, Status, success,
  failure, done, ◌>>=◌, length, arith, true, length-append, inl,
}
use be_la.Cards.{BeCardInner}
use be_la.Context.{hostname_size}
use be_la.Session.Handlers.{Env}
use be_la.Session.Ready.{Setup, HasBackend, HasDriver, Allowed}
use be_la.Wire.{
  AccMsgHeader, header_size, FitsWord, acc_unix_hello, header_bytes, length-header_bytes,
}
use be_la.Wire.Receive.{Arrival, finished, acc_unix_recv_message}
use be_la.Wire.Send.{Write, Sent, sent, acc_unix_send_message}
use be_la.Wire.Stream.{stream}
use be_la.Wire.Transport.{granted, message_bytes, send_message_ends}
use be_la.Wire.Message.{recv_message_lem}
use be_la.Wire.Exchange.{answered, send_recv_answered}
use be_la.Daemon.{Daemon, card_at}
use be_la.Daemon.Channel.{answer, do_vm_request_read, buf_size, reply_header}
use be_la.Daemon.Ends.{read_finished}
use be_la.Daemon.Ready.{DaemonReady}
use be_la.Daemon.Progress.{answer_returns}
use be_la.Client.{ErrorCode}
use be_la.Client.Channel.{
  Called, returned, request, agrees, connect_result, acc_channel_connect, clear,
}

-- The daemon's answer to a request.
abbrev pub answer_to : AccMsgHeader → Status → Bytes
answer_to hdr t = message_bytes (reply_header hdr t) []

reply-FitsWord :
    (type len : ℕ) (t : Status) → type < 2 ^ 32 → FitsWord (reply_header (request type len) t)
reply-FitsWord type len success h = omega arith
reply-FitsWord type len failure h = omega arith

-- What the daemon makes of a request, however it is cut.
abbrev Served :
    Setup → Env → Daemon → ℕ → List Write → List Arrival → AccMsgHeader → Status → Daemon → Type 0
Served s env d arg writes arrivals hdr t d' =
    (do_vm_request_read env arrivals writes d arg ≡ done (some (d', sent true (answer_to hdr t))))
    × DaemonReady s d'

serve :
    (s : Setup) (env : Env) (d : Daemon) (arg type : ℕ) (c : BeCardInner) (body more : Bytes)
    (writes : List Write) (arrivals : List Arrival)
    → HasBackend s
    → DaemonReady s d
    → card_at arg d.table.acc_cards ≡ some c
    → Allowed s c type
    → type < 2 ^ 32
    → length body ≤ buf_size
    → header_size ≤ granted writes
    → stream arrivals ≡ message_bytes (request type (length body)) body ++ more
    → (t : Status) × (d' : Daemon) × Served s env d arg writes arrivals
        (request type (length body))
        t
        d'
serve s env d arg type c body more writes arrivals back ready at ok small fits room e =
    let hdr = request type (length body) in
    let (rest, got, _) =
      recv_message_lem buf_size hdr body more arrivals (omega arith) refl (omega arith) fits e in
    let (d', t, k, v) = answer_returns s env writes d arg c hdr body back ready at ok in
    let out = send_message_ends (reply_header hdr t) [] writes (
      omega (
        arith,
        length-append (header_bytes (reply_header hdr t)) [],
        length-header_bytes (reply_header hdr t),
      )) in
    (
      t,
      d',
      (
        read_finished env arrivals rest writes d arg c (hdr, body) at got
            ∙ ap (λ o. o >>= λ r. done (some r)) (k ∙ ap (λ (x : Sent). done (d', x)) out),
        v,
      ),
    )

-- The handle for the status of the daemon's handler: the descriptor, or NULL.
abbrev pub handle_for : ℕ → Status → ℕ
handle_for fd success = fd
handle_for fd failure = 0

connect_answer :
    (fd : ℕ) (hostname more : Bytes) (t : Status) (writes : List Write) (arrivals : List Arrival)
    → length hostname < 64
    → length (message_bytes (request acc_unix_hello (length hostname)) hostname) ≤ granted writes
    → stream arrivals ≡ answer_to (request acc_unix_hello (length hostname)) t ++ more
    → acc_channel_connect (some fd) (some hostname) (clear writes arrivals)
      ≡ returned (handle_for fd t)
unfolding acc_channel_connect connect_result agrees
connect_answer fd hostname more t writes arrivals small enough e =
    let hdr = request acc_unix_hello (length hostname) in
    rw
      (send_recv_answered 0 hdr (reply_header hdr t) hostname [] more writes arrivals enough
        (reply-FitsWord acc_unix_hello (length hostname) t (omega arith)) refl (omega arith)
        (omega arith) e)
      (by_status t)
  where
    by_status :
        (t : Status)
        → connect_result fd
            (answered (reply_header (request acc_unix_hello (length hostname)) t) [])
          ≡ returned (handle_for fd t)
    by_status success = refl
    by_status failure = refl

-- A client that connects with a host name of less than 64 bytes, to a ready daemon whose card for
-- the channel has a driver: however the HELLO is cut on its way, and the answer on its way back,
-- when the writes on both sides take the messages and the client's poll reports the answer, the
-- callback of the daemon returns with the answer and leaves the daemon ready, and the client's
-- call returns the descriptor, or NULL when the handler's status was -1.
pub connect_served :
    (s : Setup) (env : Env) (d : Daemon) (arg fd : ℕ) (c : BeCardInner)
    (hostname more behind : Bytes) (asks answers : List Write) (there : List Arrival)
    (back : Status → List Arrival)
    → HasBackend s
    → DaemonReady s d
    → card_at arg d.table.acc_cards ≡ some c
    → HasDriver s c.card
    → length hostname < 64
    → length (message_bytes (request acc_unix_hello (length hostname)) hostname) ≤ granted asks
    → header_size ≤ granted answers
    → stream there ≡ message_bytes (request acc_unix_hello (length hostname)) hostname ++ more
    → ((t : Status)
        → stream (back t) ≡ answer_to (request acc_unix_hello (length hostname)) t ++ behind)
    → (t : Status) × (d' : Daemon) × (do_vm_request_read env there answers d arg
        ≡ done (some (d', sent true (answer_to (request acc_unix_hello (length hostname)) t))))
      × DaemonReady s d'
      × (acc_channel_connect (some fd) (some hostname) (clear asks (back t))
          ≡ returned (handle_for fd t))
connect_served s env d arg fd c hostname more behind asks answers there back reg ready at drv small
      enough room e e' =
    let (t, d', (k, v)) =
      serve s env d arg acc_unix_hello c hostname more answers there reg ready at (inl (refl, drv))
        (omega arith) (omega arith) room e in
    (t, d', k, v, connect_answer fd hostname behind t asks (back t) small enough (e' t))
