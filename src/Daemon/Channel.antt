-- ===== src/Daemon/Channel.antt =====
-- be_la/be_channel.c: the socket to a virtual machine, and the event of a message on it.
use be_la.Prelude.{
  ℕ, ◌+◌, ◌-◌, Bytes, Option, none, some, List, Status, success, failure, Outcome, done, crash,
  true, assertion, null_access, use_after_free, ◌>>=◌, if◌then◌else◌,
}
use be_la.Vendor.{AccCard}
use be_la.Cards.{BeCardInner, be_la_get_acc_cardptr, be_acc_card_unreg, is_null}
use be_la.Session.Handlers.{Env, be_acc_flush_rules, be_acc_message_process}
use be_la.Wire.{AccMsgHeader, header_size}
use be_la.Wire.Receive.{Arrival, Io, finished, lost, waiting, died, acc_unix_recv_message}
use be_la.Wire.Send.{Write, Sent, sent, acc_unix_send_message}
use be_la.Daemon.{Daemon, card_at, store}

-- What the system calls of one `vm_channel_open` return: `access`, `socket`, `connect`,
-- `evutil_make_socket_nonblocking` and `event_new`.
pub record Network : Type 0 where
  pub access : Status
  pub socket : Option ℕ
  pub connect : Status
  pub nonblocking : Status
  pub event : Option ℕ

-- The descriptor, `none` for -1, with how many sockets are open.
unfoldable pub connected : Network → ℕ → Option ℕ → Option ℕ × ℕ
connected n fds none = (none, fds)
connected n fds (some fd) = elim n.connect [
  | success ↦ (some fd, fds + 1)
  | failure ↦ (none, fds + 1)
]

-- The socket stays open when `connect` fails.
unfoldable pub unix_socket_clnt_init : Network → ℕ → Option ℕ × ℕ
unfolding connected
unix_socket_clnt_init n fds = elim n.access [
  | failure ↦ (none, fds)
  | success ↦ connected n fds n.socket
]

-- `vm_channel_open` behind `event_new`.
unfoldable pub add_event : Daemon → BeCardInner → Option ℕ → Status × Daemon
add_event d be_card none = (
  failure,
  record d {
    table = store d.table (record be_card { read_event = none });
    open_fds = d.open_fds - 1;
  },
)
add_event d be_card (some event) =
    (success, record d { table = store d.table (record be_card { read_event = some event }) })

-- `vm_channel_open` from `evutil_make_socket_nonblocking` on.
unfoldable pub watch : Network → Daemon → BeCardInner → Status × Daemon
unfolding add_event
watch n d be_card = elim n.nonblocking [
  | failure ↦ (failure, record d { open_fds = d.open_fds - 1 })
  | success ↦ add_event d be_card n.event
]

-- `vm_channel_open` with a descriptor: the assertion reads the object that the path finds.
unfoldable pub open_on : Network → Daemon → Option BeCardInner → Outcome (Status × Daemon)
unfolding watch is_null
open_on n d none = crash null_access
open_on n d (some be_card) =
    if is_null be_card.context then done (watch n d be_card) else crash assertion

unfoldable pub opened : Network → Daemon → Option BeCardInner → Option ℕ → Outcome (Status × Daemon)
unfolding open_on
opened n d be_card none = done (failure, d)
opened n d be_card (some fd) = open_on n d be_card

-- `path` is the string that starts at `card->vmpath`.
unfoldable pub vm_channel_open : Network → Daemon → Bytes → Outcome (Status × Daemon)
unfolding unix_socket_clnt_init opened
vm_channel_open n d path =
    let (fd, fds) = unix_socket_clnt_init n d.open_fds in
    opened n (record d { open_fds = fds }) (be_la_get_acc_cardptr d.table path) fd

unfoldable pub vm_channel_close : AccCard → Outcome Status
vm_channel_close card = crash null_access

-- The size of each buffer of `do_vm_request_read`.
abbrev pub buf_size : ℕ
buf_size = 2048

-- The end of a channel: the event is freed, the rules are flushed, the card is removed. The
-- status that `be_acc_card_unreg` returns is not read.
unfoldable pub end_channel : Env → Daemon → BeCardInner → Outcome Daemon
end_channel env d card = be_acc_flush_rules env d.world (record card { read_event = none }) >>= λ r.
    be_acc_card_unreg (store d.table r.1) r.1 >>= λ u.
    done (record { table = u.1; world = r.0; open_fds = d.open_fds - 1 })

abbrev pub reply_code : Status → ℕ
reply_code success = 0
reply_code failure = 1

-- The reply header: `*out_len` is 0 in every handler.
abbrev pub reply_header : AccMsgHeader → Status → AccMsgHeader
reply_header hdr s = record {
  total_len = header_size;
  acc_type = hdr.acc_type;
  msg_type = hdr.msg_type;
  code = reply_code s;
}

-- A message that was received is handled and answered.
unfoldable pub answer :
    Env → List Write → Daemon → BeCardInner → AccMsgHeader × Bytes → Outcome (Daemon × Sent)
answer env writes d card (hdr, buf) =
    be_acc_message_process env d.world card hdr.msg_type buf >>= λ r. done (
      record d { table = store d.table r.card; world = r.world },
      acc_unix_send_message (reply_header hdr r.status) List.[] writes,
    )

-- The callback behind the call of `acc_unix_recv_message`; `none` while that waits for bytes. At the
-- end of a channel nothing is left to send.
unfoldable pub received :
    Env
    → List Write
    → Daemon
    → BeCardInner
    → Io (AccMsgHeader × Bytes)
    → Outcome (Option (Daemon × Sent))
unfolding end_channel answer
received env writes d card (finished m rest) = answer env writes d card m >>= λ r. done (some r)
received env writes d card (lost rest) =
    end_channel env d card >>= λ e. done (some (e, sent true List.[]))
received env writes d card waiting = done none
received env writes d card (died f) = crash f

-- The callback of a card object, `arg` its address.
unfoldable pub do_vm_request_read :
    Env → List Arrival → List Write → Daemon → ℕ → Outcome (Option (Daemon × Sent))
unfolding received
do_vm_request_read env arrivals writes d arg = elim (card_at arg d.table.acc_cards) [
  | none ↦ crash use_after_free
  | some card ↦ received env writes d card (acc_unix_recv_message buf_size arrivals)
]
