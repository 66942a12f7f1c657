-- ===== src/Daemon/Progress.antt =====
-- The event loop of be_la/be_main.c goes on: the callbacks return from a ready state.
use be_la.Prelude.{
  Status, ℕ, zero, suc, ◌≡◌, ◌≢◌, refl, ◌∙◌, ap, subst, Bytes, none, some, List, [], ◌∷◌, replicate,
  done, true, ◌-◌,
}
use be_la.Cards.{BeCardInner, AccCardsTable, be_la_acc_cards_init, acc_card_max_num}
use be_la.Session.{World}
use be_la.Session.Handlers.{Env}
use be_la.Session.Ready.{Setup, HasBackend, OptionReady, WorldReady, Allowed}
use be_la.Session.Returns.{message_returns, flush_returns}
use be_la.Wire.{AccMsgHeader}
use be_la.Wire.Receive.{Arrival, finished, lost, acc_unix_recv_message}
use be_la.Wire.Send.{Write, sent, acc_unix_send_message}
use be_la.Daemon.{Daemon, card_at, store}
use be_la.Daemon.Channel.{end_channel, answer, buf_size, reply_header}
use be_la.Daemon.Objects.{addr-card_at}
use be_la.Daemon.Ends.{read_lost, read_finished}
use be_la.Daemon.Events.{
  Event, command, readable, Turn, turn_command, turn_readable, Turns, rest, turn,
}
use be_la.Daemon.Ready.{
  SlotsReady, AddrsDistinct, DaemonReady, card_at-CardReady, write-AddrsDistinct, write-SlotsReady,
}
use be_la.Daemon.Commands.{Answered, Answered-ReadEnds, command_returns, unreg_returns}
use be_la.Daemon.Opened.{store-DaemonReady}

-- A virtual machine takes the whole answer to a message, whatever its status.
abbrev pub Taken : AccMsgHeader → List Write → Type 0
Taken hdr writes =
    (status : Status)
    → (out : Bytes) × (acc_unix_send_message (reply_header hdr status) [] writes ≡ sent true out)

-- What a virtual machine does on its channel that the daemon stands: an allowed message of any
-- cutting, whose answer it takes, and the end of the channel while the card has a context.
pub data Stands (s : Setup) (d : Daemon) (arrivals : List Arrival) (writes : List Write) (arg : ℕ)
    : Type 0 where
  message :
      (c : BeCardInner) (hdr : AccMsgHeader) (buf : Bytes) (left : List Arrival)
      → card_at arg d.table.acc_cards ≡ some c
      → acc_unix_recv_message buf_size arrivals ≡ finished (hdr, buf) left
      → Allowed s c hdr.msg_type
      → Taken hdr writes
      → Stands s d arrivals writes arg
  ended :
      (c : BeCardInner) (left : List Arrival)
      → card_at arg d.table.acc_cards ≡ some c
      → acc_unix_recv_message buf_size arrivals ≡ lost left
      → c.context ≢ none
      → Stands s d arrivals writes arg

abbrev pub Permits : Setup → Daemon → Event → Type 0
Permits s d (command a buf) = Answered d a buf
Permits s d (readable env arrivals writes arg) = Stands s d arrivals writes arg

-- A message that is allowed is answered with the status of its handler.
pub answer_returns :
    (s : Setup) (env : Env) (writes : List Write) (d : Daemon) (arg : ℕ) (c : BeCardInner)
    (hdr : AccMsgHeader) (buf : Bytes)
    → HasBackend s
    → DaemonReady s d
    → card_at arg d.table.acc_cards ≡ some c
    → Allowed s c hdr.msg_type
    → (d' : Daemon) × (status : Status) × (answer env writes d c (hdr, buf)
        ≡ done (d', acc_unix_send_message (reply_header hdr status) [] writes))
      × DaemonReady s d'
unfolding answer
answer_returns s env writes d arg c hdr buf back v at ok =
    let here = card_at-CardReady s arg d.table.acc_cards c v.slots at in
    let (r, e, (world, card, addr, same_card)) =
      message_returns s env d.world c hdr.msg_type buf back v.world here ok in
    let found : card_at r.card.addr d.table.acc_cards ≡ some c =
      ap (λ a. card_at a d.table.acc_cards) (addr ∙ addr-card_at arg d.table.acc_cards c at) ∙ at in
    (
      record d { table = store d.table r.card; world = r.world },
      r.status,
      rw e refl,
      record {
        world = world;
        slots =
            write-SlotsReady s r.card c d.table.acc_cards v.addrs v.slots found
              (subst (λ k. OptionReady s k r.card.context) same_card card);
        addrs = write-AddrsDistinct r.card d.table.acc_cards v.addrs;
      },
    )

end_returns :
    (s : Setup) (env : Env) (d : Daemon) (arg : ℕ) (c : BeCardInner)
    → HasBackend s
    → DaemonReady s d
    → card_at arg d.table.acc_cards ≡ some c
    → c.context ≢ none
    → (d' : Daemon) × (end_channel env d c ≡ done d') × DaemonReady s d'
unfolding end_channel
end_returns s env d arg c back v at there =
    let freed = record c { read_event = none } in
    let (r, e, (world, gone)) =
      flush_returns s env d.world freed v.world back
        (card_at-CardReady s arg d.table.acc_cards c v.slots at) there in
    let no_context : r.1.context ≡ none = ap (λ (k : BeCardInner). k.context) gone in
    let stored = store-DaemonReady s d r.1 no_context v in
    let (t', u, (slots, addrs)) =
      unreg_returns s (store d.table r.1) r.1 no_context (ap (λ (k : BeCardInner). k.plugin) gone)
        (ap (λ (k : BeCardInner). k.read_event) gone) stored.slots stored.addrs in
    (
      record { table = t'; world = r.0; open_fds = d.open_fds - 1 },
      rw (e, u) refl,
      record { world = world; slots = slots; addrs = addrs },
    )

-- From a ready state every event that the daemon stands is a turn of its loop, and leaves a ready
-- state.
pub event_returns :
    (s : Setup) (d : Daemon) (e : Event)
    → HasBackend s
    → DaemonReady s d
    → Permits s d e
    → (d' : Daemon) × Turn d e d' × DaemonReady s d'
event_returns s d (command a buf) back v ok =
    let (d', e, w) = command_returns s a d buf v ok in
    (d', turn_command (Answered-ReadEnds ok) e, w)
event_returns s d (readable env arrivals writes arg) back v
      (message c hdr buf left at recv ok taken) =
    let (d', status, e, w) = answer_returns s env writes d arg c hdr buf back v at ok in
    let (out, whole) = taken status in
    (
      d',
      turn_readable {out = out}
          (read_finished env arrivals left writes d arg c (hdr, buf) at recv ∙ rw (e, whole) refl),
      w,
    )
event_returns s d (readable env arrivals writes arg) back v (ended c left at recv there) =
    let (d', e, w) = end_returns s env d arg c back v at there in
    (
      d',
      turn_readable {out = []} (read_lost env arrivals left writes d arg c at recv ∙ rw e refl),
      w,
    )

-- Events each of which the daemon stands in the state that those before it leave.
pub data AllPermitted (s : Setup) : Daemon → List Event → Type 0 where
  no_more : {d : Daemon} → AllPermitted s d []
  next :
      {d : Daemon} {e : Event} {es : List Event}
      → Permits s d e
      → ((d' : Daemon) → Turn d e d' → AllPermitted s d' es)
      → AllPermitted s d (e ∷ es)

init-SlotsReady : (s : Setup) (n : ℕ) → SlotsReady s (replicate n none)
init-SlotsReady s zero = tt
init-SlotsReady s (suc n) = init-SlotsReady s n

init-AddrsDistinct : (n : ℕ) → AddrsDistinct (replicate n none)
init-AddrsDistinct zero = tt
init-AddrsDistinct (suc n) = init-AddrsDistinct n

-- The daemon in front of its first event.
abbrev pub first_state : AccCardsTable → World → ℕ → Daemon
first_state t₀ w fds = record { table = (be_la_acc_cards_init t₀).1; world = w; open_fds = fds }

pub first-DaemonReady :
    (s : Setup) (t₀ : AccCardsTable) (w : World) (fds : ℕ)
    → WorldReady s w
    → DaemonReady s (first_state t₀ w fds)
unfolding be_la_acc_cards_init
first-DaemonReady s t₀ w fds v = record {
  world = v;
  slots = init-SlotsReady s acc_card_max_num;
  addrs = init-AddrsDistinct acc_card_max_num;
}

pub events_return :
    (s : Setup) (d : Daemon) (es : List Event)
    → HasBackend s
    → DaemonReady s d
    → AllPermitted s d es
    → (d' : Daemon) × Turns d es d' × DaemonReady s d'
events_return s d _ back v no_more = (d, rest, v)
events_return s d _ back v (next {e = e} {es = es} ok later) =
    let (d₁, t, w) = event_returns s d e back v ok in
    let (d₂, ts, x) = events_return s d₁ es back w (later d₁ t) in (d₂, turn t ts, x)
