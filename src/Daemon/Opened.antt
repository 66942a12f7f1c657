-- ===== src/Daemon/Opened.antt =====
-- What opening a channel (be_la/be_channel.c) for a card without a context leaves of the daemon.
use be_la.Prelude.{
  ℕ, ◌≡◌, refl, sym, subst, Bool, true, false, Option, none, some, [], ◌∷◌, Status, success,
  failure, Outcome, done, ◌==◌, if◌then◌else◌, ◌-◌,
}
use be_la.Cards.{BeCardInner, Slots, is_null}
use be_la.Session.Ready.{Setup, OptionReady, CardReady}
use be_la.Daemon.{Daemon, write_card, overlay, store}
use be_la.Daemon.Channel.{Network, add_event, watch, open_on, opened}
use be_la.Daemon.Ready.{SlotsReady, DaemonReady, write-AddrsDistinct}

write_none :
    (s : Setup) (new : BeCardInner) (l : Slots)
    → new.context ≡ none
    → SlotsReady s l
    → SlotsReady s (write_card new l)
unfolding write_card
write_none s new [] n v = tt
write_none s new (none ∷ r) n v = write_none s new r n v
write_none s new (some b ∷ r) n (x, v) = (go (b.addr == new.addr), write_none s new r n v)
  where
    go : (t : Bool) → CardReady s (if t then overlay new b else b)
    go true = subst (OptionReady s b.card) (sym n) tt
    go false = x

-- A write that leaves no context.
pub store-DaemonReady :
    (s : Setup) (d : Daemon) (c : BeCardInner)
    → c.context ≡ none
    → DaemonReady s d
    → DaemonReady s (record d { table = store d.table c })
store-DaemonReady s d c n v = record {
  world = v.world;
  slots = write_none s c d.table.acc_cards n v.slots;
  addrs = write-AddrsDistinct c d.table.acc_cards v.addrs;
}

with_fds :
    (s : Setup) (d : Daemon) (n : ℕ) → DaemonReady s d → DaemonReady s (record d { open_fds = n })
with_fds s d n v = record { world = v.world; slots = v.slots; addrs = v.addrs }

add_event-DaemonReady :
    (s : Setup) (d : Daemon) (c : BeCardInner) (e : Option ℕ)
    → c.context ≡ none
    → DaemonReady s d
    → DaemonReady s (add_event d c e).1
unfolding add_event
add_event-DaemonReady s d c none n v =
    with_fds s (record d { table = store d.table (record c { read_event = none }) })
      (d.open_fds - 1) (store-DaemonReady s d (record c { read_event = none }) n v)
add_event-DaemonReady s d c (some e) n v =
    store-DaemonReady s d (record c { read_event = some e }) n v

watch-DaemonReady :
    (s : Setup) (n : Network) (d : Daemon) (c : BeCardInner)
    → c.context ≡ none
    → DaemonReady s d
    → DaemonReady s (watch n d c).1
unfolding watch
watch-DaemonReady s n d c k v =
    elim n.nonblocking
      as (λ t.
        DaemonReady s
          (elim t as (λ _. Status × Daemon) [
            | failure ↦ (failure, record d { open_fds = d.open_fds - 1 })
            | success ↦ add_event d c n.event
          ]).1) [
            | success ↦ add_event-DaemonReady s d c n.event k v
            | failure ↦ with_fds s d (d.open_fds - 1) v
          ]

-- What a command comes to.
abbrev pub Answers : Setup → Outcome (Status × Daemon) → Type 0
Answers s o = (r : Status × Daemon) × (o ≡ done r) × DaemonReady s r.1

-- The client side of a channel returns, whether or not its socket is opened.
pub opened_returns :
    (s : Setup) (n : Network) (d : Daemon) (c : BeCardInner) (fd : Option ℕ)
    → c.context ≡ none
    → DaemonReady s d
    → Answers s (opened n d (some c) fd)
unfolding opened open_on is_null
opened_returns s n d c none k v = ((failure, d), refl, v)
opened_returns s n d c (some fd) k v = (watch n d c, rw k refl, watch-DaemonReady s n d c k v)
