-- ===== src/Daemon/Ends.antt =====
-- How the channel of a card ends in be_la/be_channel.c.
use mathlib.Core.Option
use be_la.Prelude.{
  >>=-eq-done, ℕ, ◌≡◌, refl, sym, ◌∙◌, ap, true, Bytes, none, some, List, [], done, crash,
  assertion, ◌>>=◌, arith,
}
use be_la.Cards.{BeCardInner, AccCardsTable}
use be_la.Session.Handlers.{Env, be_acc_message_process}
use be_la.Session.Lifecycle.{flush_none, same}
use be_la.Session.Close.{disconnect_leaves}
use be_la.Wire.{AccMsgHeader, acc_unix_disconnect}
use be_la.Wire.Receive.{Arrival, finished, lost, acc_unix_recv_message}
use be_la.Wire.Send.{Write, Sent, sent, acc_unix_send_message}
use be_la.Daemon.{Daemon, card_at, store}
use be_la.Daemon.Channel.{end_channel, answer, received, do_vm_request_read, buf_size, reply_header}
use be_la.Daemon.Objects.{card_at-write_card, written, written_same}

pub read_lost :
    (env : Env) (arrivals rest : List Arrival) (writes : List Write) (d : Daemon) (arg : ℕ)
    (c : BeCardInner)
    → card_at arg d.table.acc_cards ≡ some c
    → acc_unix_recv_message buf_size arrivals ≡ lost rest
    → do_vm_request_read env arrivals writes d arg
      ≡ (end_channel env d c >>= λ e. done (some (e, sent true [])))
unfolding do_vm_request_read received
read_lost env arrivals rest writes d arg c q r = rw (q, do_vm_request_read) (rw r refl)

pub read_finished :
    (env : Env) (arrivals rest : List Arrival) (writes : List Write) (d : Daemon) (arg : ℕ)
    (c : BeCardInner) (m : AccMsgHeader × Bytes)
    → card_at arg d.table.acc_cards ≡ some c
    → acc_unix_recv_message buf_size arrivals ≡ finished m rest
    → do_vm_request_read env arrivals writes d arg
      ≡ (answer env writes d c m >>= λ r. done (some r))
unfolding do_vm_request_read received
read_finished env arrivals rest writes d arg c m q r = rw (q, do_vm_request_read) (rw r refl)

-- When the channel of a card that has no context is closed, the daemon dies by an assertion.
pub close_without_context :
    (env : Env) (arrivals rest : List Arrival) (writes : List Write) (d : Daemon) (arg : ℕ)
    (c : BeCardInner)
    → card_at arg d.table.acc_cards ≡ some c
    → c.context ≡ none
    → acc_unix_recv_message buf_size arrivals ≡ lost rest
    → do_vm_request_read env arrivals writes d arg ≡ crash assertion
unfolding end_channel
close_without_context env arrivals rest writes d arg c q n r =
    read_lost env arrivals rest writes d arg c q r
    ∙ rw (flush_none env d.world (record c { read_event = none }) n) refl

answered-disconnect :
    (env : Env) (writes : List Write) (d : Daemon) (c : BeCardInner) (hdr : AccMsgHeader)
    (buf : Bytes) (r : Daemon × Sent)
    → hdr.msg_type ≡ acc_unix_disconnect
    → answer env writes d c (hdr, buf) ≡ done r
    → (c' : BeCardInner) × (r.0.table ≡ store d.table c') × (c'.context ≡ none) × (c'.addr ≡ c.addr)
unfolding answer
answered-disconnect env writes d c hdr buf r t e =
    let (p, h, k) =
      >>=-eq-done (be_acc_message_process env d.world c hdr.msg_type buf)
        (λ p. done (
          record d { table = store d.table p.card; world = p.world },
          acc_unix_send_message (reply_header hdr p.status) [] writes,
        ))
        e in
    let (_, card, _) = disconnect_leaves env d.world c buf p (rw t at h) in
    (
      p.card,
      sym (ap (λ (u : Daemon × Sent). u.0.table) (same k)),
      ap (λ (u : BeCardInner). u.context) card,
      ap (λ (u : BeCardInner). u.addr) card,
    )

-- When a card's DISCONNECT was received and handled, and its channel is closed next, the daemon
-- dies by an assertion.
pub disconnect_then_close :
    (env env' : Env) (arrivals left arrivals' left' : List Arrival) (writes writes' : List Write)
    (d : Daemon) (arg : ℕ) (c : BeCardInner) (hdr : AccMsgHeader) (buf : Bytes) (r : Daemon × Sent)
    → card_at arg d.table.acc_cards ≡ some c
    → acc_unix_recv_message buf_size arrivals ≡ finished (hdr, buf) left
    → hdr.msg_type ≡ acc_unix_disconnect
    → do_vm_request_read env arrivals writes d arg ≡ done (some r)
    → acc_unix_recv_message buf_size arrivals' ≡ lost left'
    → do_vm_request_read env' arrivals' writes' r.0 arg ≡ crash assertion
disconnect_then_close env env' arrivals left arrivals' left' writes writes' d arg c hdr buf r q m t
      e l =
    let (s, h, k) =
      >>=-eq-done (answer env writes d c (hdr, buf)) (λ s. done (some s))
        (sym (read_finished env arrivals left writes d arg c (hdr, buf) q m) ∙ e) in
    let p : s ≡ r = ground arith in
    let (c', table, gone, addr) = answered-disconnect env writes d c hdr buf r t (h ∙ ap done p) in
    let at : card_at arg r.0.table.acc_cards ≡ some (written c' c) =
      ap (λ (u : AccCardsTable). card_at arg u.acc_cards) table
      ∙ card_at-write_card arg c' d.table.acc_cards
      ∙ ap (Option.map (written c')) q in
    close_without_context env' arrivals' left' writes' r.0 arg (written c' c) at
      (ap (λ (u : BeCardInner). u.context) (written_same c' c (sym addr)) ∙ gone) l
