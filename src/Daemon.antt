-- ===== src/Daemon.antt =====
-- be_la/be_channel.c, be_la_cmd.c and be_main.c: the events of the daemon on its card table.
-- The callbacks keep a pointer to a card object; here it is the object's address, and a callback
-- on an object that no slot holds is a use after `free`.
pub mod Channel
pub mod Command
pub mod Keeps
pub mod Events
pub mod Objects
pub mod Connect
pub mod Unended
pub mod Ends
pub mod Ready
pub mod Opened
pub mod Commands
pub mod Progress
pub mod Address
pub mod Server
mod Tests
use be_la.Prelude.{ℕ, suc, Bool, Bytes, Option, none, some, List, [], ◌∷◌, ◌==◌, if◌then◌else◌}
use be_la.Cards.{BeCardInner, AccCardsTable, Slots}
use be_la.Session.{World}

-- The globals of the program. `open_fds` counts the sockets that it has to its virtual machines.
pub record Daemon : Type 0 where
  pub table : AccCardsTable
  pub world : World
  pub open_fds : ℕ

-- The object with this address.
unfoldable pub card_at : ℕ → Slots → Option BeCardInner
card_at a [] = none
card_at a (none ∷ r) = card_at a r
card_at a (some c ∷ r) = if c.addr == a then some c else card_at a r

-- The fields that the program writes behind the registered ones.
abbrev pub overlay : BeCardInner → BeCardInner → BeCardInner
overlay new c = record c {
  fd = new.fd;
  context = new.context;
  read_event = new.read_event;
  plugin = new.plugin;
}

-- What is written through a pointer to the object `new`.
unfoldable pub write_card : BeCardInner → Slots → Slots
write_card new [] = []
write_card new (none ∷ r) = none ∷ write_card new r
write_card new (some c ∷ r) =
    some (if c.addr == new.addr then overlay new c else c) ∷ write_card new r

abbrev pub store : AccCardsTable → BeCardInner → AccCardsTable
store t c = record t { acc_cards = write_card c t.acc_cards }
