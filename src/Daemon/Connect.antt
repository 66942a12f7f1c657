-- ===== src/Daemon/Connect.antt =====
-- What a registration by be_la/be_la_cmd.c leaves, with the connection that it opens.
use mathlib.Core.Option
use be_la.Prelude.{
  ℕ, ◌+◌, ◌≡◌, refl, sym, ◌∙◌, ap, true, Bytes, Option, none, some, Status, success, failure, done,
  ◌>>=◌, str_eq, str_eq_iff,
}
use be_la.Vendor.{AccCard, CmdHdr, ends, cmd_type_register}
use be_la.Cards.{
  BeCardInner, AccCardsTable, fresh_card, be_la_get_acc_cardptr, be_acc_card_reg, is_null,
}
use be_la.Cards.Lookup.{cardptr-reg, cardptr-find_card, reg_again}
use be_la.Daemon.{Daemon, store}
use be_la.Daemon.Channel.{
  Network, unix_socket_clnt_init, connected, add_event, watch, open_on, opened, vm_channel_open,
}
use be_la.Daemon.Command.{Around, connect_vm, register_command, be_la_cmd_process}
use be_la.Daemon.Keeps.{path_at-ends}
use be_la.Daemon.Objects.{find_card-write_card, written, written_same}

-- Every system call succeeds.
abbrev pub all_well : ℕ → ℕ → Network
all_well fd event = record {
  access = success;
  socket = some fd;
  connect = success;
  nonblocking = success;
  event = some event;
}

-- The virtual machine refuses the connection.
abbrev pub refused : ℕ → Status → Option ℕ → Network
refused fd nonblocking event = record {
  access = success;
  socket = some fd;
  connect = failure;
  nonblocking = nonblocking;
  event = event;
}

str_eq_same : (p : Bytes) → str_eq p p ≡ true
str_eq_same p = (str_eq_iff p p).1 refl

-- The card that a registration just made.
pub cardptr_registered :
    (t t' : AccCardsTable) (card : AccCard) (addr : ℕ)
    → be_acc_card_reg t card (some addr) ≡ done (success, t')
    → be_la_get_acc_cardptr t' card.vmpath ≡ some (fresh_card addr card)
cardptr_registered t t' card addr h =
    cardptr-reg t t' card addr card.vmpath h ∙ rw (str_eq_same card.vmpath) refl

opened_well :
    (d : Daemon) (c : BeCardInner) (fd event : ℕ)
    → c.context ≡ none
    → opened (all_well fd event) d (some c) (some fd)
      ≡ done (success, record d { table = store d.table (record c { read_event = some event }) })
unfolding opened open_on watch add_event is_null
opened_well d c fd event n = rw n

cardptr-store :
    (t : AccCardsTable) (p : Bytes) (c new : BeCardInner)
    → be_la_get_acc_cardptr t p ≡ some c
    → be_la_get_acc_cardptr (store t new) p ≡ some (written new c)
cardptr-store t p c new h =
    cardptr-find_card (store t new) p
    ∙ find_card-write_card p new t.acc_cards
    ∙ ap (Option.map (written new)) (sym (cardptr-find_card t p) ∙ h)

-- A REGISTER command whose path ends in its array.
register_at :
    (a : Around) (d : Daemon) (cmd : CmdHdr)
    → cmd.cmd_type ≡ cmd_type_register
    → ends cmd.card.vmpath ≡ true
    → be_la_cmd_process a d cmd
      ≡ (be_acc_card_reg d.table cmd.card a.allocated >>= λ r. connect_vm a d cmd.card.vmpath r)
unfolding be_la_cmd_process register_command be_acc_card_reg
register_at a d cmd type ended = rw (path_at-ends cmd ended, type) refl

-- When the path of a REGISTER command ends in its array, its card can be registered, and every call
-- on the network succeeds, the command returns 0, the socket is open, and the path finds the new
-- card with its event and with no context and no plugin.
pub register_connects :
    (d : Daemon) (cmd : CmdHdr) (t' : AccCardsTable) (addr fd event : ℕ) (behind : BeCardInner)
    → cmd.cmd_type ≡ cmd_type_register
    → ends cmd.card.vmpath ≡ true
    → be_acc_card_reg d.table cmd.card (some addr) ≡ done (success, t')
    → (d' : Daemon) × (be_la_cmd_process
          (record { allocated = some addr; network = all_well fd event; behind = behind })
          d
          cmd
        ≡ done (success, d'))
      × (be_la_get_acc_cardptr d'.table cmd.card.vmpath
          ≡ some (record (fresh_card addr cmd.card) { read_event = some event }))
      × (d'.open_fds ≡ d.open_fds + 1)
unfolding connect_vm vm_channel_open unix_socket_clnt_init connected
register_connects d cmd t' addr fd event behind type ended h =
    let c = fresh_card addr cmd.card in
    let found = cardptr_registered d.table t' cmd.card addr h in
    (
      record d {
        table = store t' (record c { read_event = some event });
        open_fds = d.open_fds + 1;
      },
      register_at (record { allocated = some addr; network = all_well fd event; behind = behind }) d
            cmd type ended
          ∙ rw (h, found)
              (opened_well (record d { table = t'; open_fds = d.open_fds + 1 }) c fd event refl),
      cardptr-store t' cmd.card.vmpath c (record c { read_event = some event }) found
          ∙ ap some (written_same (record c { read_event = some event }) c refl),
      refl,
    )

-- When the path of a REGISTER command ends in its array and its card can be registered, but the
-- virtual machine refuses the connection, the command returns -1, the card stays registered and the socket stays open; and
-- the same command again returns -1, whatever the network does then.
pub register_refused :
    (d : Daemon) (cmd : CmdHdr) (t' : AccCardsTable) (addr fd : ℕ) (nonblocking : Status)
    (event : Option ℕ) (behind : BeCardInner) (later : Around)
    → cmd.cmd_type ≡ cmd_type_register
    → ends cmd.card.vmpath ≡ true
    → be_acc_card_reg d.table cmd.card (some addr) ≡ done (success, t')
    → (d' : Daemon) × (be_la_cmd_process
          (record {
            allocated = some addr;
            network = refused fd nonblocking event;
            behind = behind;
          })
          d
          cmd
        ≡ done (failure, d'))
      × (d'.table ≡ t')
      × (d'.open_fds ≡ d.open_fds + 1)
      × (be_la_cmd_process later d' cmd ≡ done (failure, d'))
unfolding connect_vm vm_channel_open unix_socket_clnt_init connected opened
register_refused d cmd t' addr fd nonblocking event behind later type ended h = (
  record d { table = t'; open_fds = d.open_fds + 1 },
  register_at
        (record { allocated = some addr; network = refused fd nonblocking event; behind = behind })
        d cmd type ended
      ∙ rw h refl,
  refl,
  refl,
  register_at later (record d { table = t'; open_fds = d.open_fds + 1 }) cmd type ended
      ∙ rw (reg_again d.table t' cmd.card addr later.allocated h) refl,
)
