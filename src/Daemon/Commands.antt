-- ===== src/Daemon/Commands.antt =====
-- The commands of be_la/be_la_cmd.c that the daemon answers, and the state that they leave.
use be_la.Prelude.{
  ℕ, ◌≡◌, ◌≢◌, refl, sym, ◌∙◌, ap, subst, true, false, Bytes, Option, none, some, success, failure,
  done, ◌==◌, head_byte, length, arith, Bool-cases, inl, inr, ◌⊎◌, set, ◌+◌, ◌-◌,
}
use be_la.Vendor.{AccCard, ends, cmd_type_register, cmd_type_unregister}
use be_la.Cards.{
  BeCardInner, AccCardsTable, Slots, fresh_card, find_free, find_path, clear_found,
  be_la_get_acc_card, be_acc_card_reg, reg_as, be_acc_card_unreg, is_null,
}
use be_la.Session.Ready.{Setup}
use be_la.Daemon.{Daemon}
use be_la.Daemon.Channel.{unix_socket_clnt_init, vm_channel_open}
use be_la.Daemon.Command.{
  Around, connect_vm, register_command, unregister_command, path_at, connection_ended,
  be_la_cmd_process, bytes_cmd, cmd_size, be_cmd_request_process,
}
use be_la.Daemon.Keeps.{path_at-ends}
use be_la.Daemon.Events.{ReadEnds}
use be_la.Daemon.Connect.{cardptr_registered}
use be_la.Daemon.Opened.{Answers, opened_returns}
use be_la.Daemon.Ready.{
  SlotsReady, IsFreeAddr, AddrsDistinct, DaemonReady, clear-AddrsDistinct, clear-SlotsReady,
  fill-AddrsDistinct, fill-SlotsReady,
}

-- The address that `calloc` returned, if any, is that of no object.
abbrev pub IsNewAddr : Option ℕ → Slots → Type 0
IsNewAddr none l = Unit {0}
IsNewAddr (some addr) l = IsFreeAddr addr l

-- The commands that the daemon answers, beside those that it cannot read or does not know: a
-- REGISTER with an uuid and a path that ends in its array, and an UNREGISTER behind which the buffer has NULL pointers.
pub data Answered (d : Daemon) (a : Around) : Option Bytes → Type 0 where
  unread : Answered d a none
  bad_length : (b : Bytes) → length b ≢ cmd_size → Answered d a (some b)
  unknown :
      (b : Bytes)
      → (bytes_cmd b).cmd_type ≢ cmd_type_register
      → (bytes_cmd b).cmd_type ≢ cmd_type_unregister
      → Answered d a (some b)
  registers :
      (b : Bytes)
      → (bytes_cmd b).cmd_type ≡ cmd_type_register
      → head_byte (bytes_cmd b).card.vm_uuid ≢ 0
      → head_byte (bytes_cmd b).card.vmpath ≢ 0
      → ends (bytes_cmd b).card.vmpath ≡ true
      → IsNewAddr a.allocated d.table.acc_cards
      → Answered d a (some b)
  unregisters :
      (b : Bytes)
      → (bytes_cmd b).cmd_type ≡ cmd_type_unregister
      → a.behind.context ≡ none
      → a.behind.plugin ≡ none
      → a.behind.read_event ≡ none
      → Answered d a (some b)

-- The table of a registration at a slot.
abbrev filled_table : AccCardsTable → AccCard → ℕ → ℕ → AccCardsTable
filled_table t card addr i = record t {
  acc_cards = set t.acc_cards i (some (fresh_card addr card));
  reg_num = t.reg_num + 1;
}

-- A registration of a card with an uuid and a path is refused, or fills a slot.
reg_returns :
    (t : AccCardsTable) (card : AccCard) (alloc : Option ℕ)
    → head_byte card.vm_uuid ≢ 0
    → head_byte card.vmpath ≢ 0
    → (be_acc_card_reg t card alloc ≡ done (failure, t))
      ⊎ ((addr : ℕ) × (i : ℕ) × (alloc ≡ some addr)
          × (be_acc_card_reg t card alloc ≡ done (success, filled_table t card addr i)))
unfolding be_acc_card_reg reg_as be_la_get_acc_card
reg_returns t card alloc u p =
    go (find_path card.vmpath t.acc_cards) (find_free t.acc_cards) alloc refl refl
  where
    has_uuid : (head_byte card.vm_uuid == 0) ≡ false
    has_uuid = ground arith

    has_path : (head_byte card.vmpath == 0) ≡ false
    has_path = ground arith

    go :
        (at free alloc : Option ℕ)
        → find_path card.vmpath t.acc_cards ≡ at
        → find_free t.acc_cards ≡ free
        → (be_acc_card_reg t card alloc ≡ done (failure, t))
          ⊎ ((addr : ℕ) × (i : ℕ) × (alloc ≡ some addr)
              × (be_acc_card_reg t card alloc ≡ done (success, filled_table t card addr i)))
    go (some j) f b q r = inl (rw (has_uuid, has_path, q) refl)
    go none none b q r = inl (rw (has_uuid, has_path, q, r) refl)
    go none (some i) none q r = inl (rw (has_uuid, has_path, q, r) refl)
    go none (some i) (some addr) q r = inr (addr, i, refl, rw (has_uuid, has_path, q, r) refl)

register_returns :
    (s : Setup) (a : Around) (d : Daemon) (card : AccCard)
    → DaemonReady s d
    → head_byte card.vm_uuid ≢ 0
    → head_byte card.vmpath ≢ 0
    → IsNewAddr a.allocated d.table.acc_cards
    → Answers s (register_command a d card card.vmpath)
unfolding register_command be_acc_card_reg connect_vm vm_channel_open
register_returns s a d card v u p new = elim (reg_returns d.table card a.allocated u p) [
  | inl e ↦ ((failure, d), rw e refl, v)
  | inr (addr, i, q, e) ↦
      let t' = filled_table d.table card addr i in
      let (fd, fds) = unix_socket_clnt_init a.network d.open_fds in
      let found =
        cardptr_registered d.table t' card addr (ap (be_acc_card_reg d.table card) (sym q) ∙ e) in
      let ready : DaemonReady s (record d { table = t'; open_fds = fds }) = record {
        world = v.world;
        slots = fill-SlotsReady s i addr card d.table.acc_cards v.slots;
        addrs =
            fill-AddrsDistinct i addr card d.table.acc_cards
              (subst (λ o. IsNewAddr o d.table.acc_cards) q new) v.addrs;
      } in
      let (r, k, w) =
        opened_returns s a.network (record d { table = t'; open_fds = fds }) (fresh_card addr card)
          fd refl ready in
      (r, rw (e, found) k, w)
]

-- A removal returns when the three pointers are NULL.
pub unreg_returns :
    (s : Setup) (t : AccCardsTable) (c : BeCardInner)
    → c.context ≡ none
    → c.plugin ≡ none
    → c.read_event ≡ none
    → SlotsReady s t.acc_cards
    → AddrsDistinct t.acc_cards
    → (t' : AccCardsTable) × (be_acc_card_unreg t c ≡ done (success, t'))
      × (SlotsReady s t'.acc_cards × AddrsDistinct t'.acc_cards)
unfolding be_acc_card_unreg is_null be_la_get_acc_card clear_found
unreg_returns s t c n p e v a = go (find_path c.vmpath t.acc_cards) refl
  where
    go :
        (at : Option ℕ)
        → find_path c.vmpath t.acc_cards ≡ at
        → (t' : AccCardsTable) × (be_acc_card_unreg t c ≡ done (success, t'))
          × (SlotsReady s t'.acc_cards × AddrsDistinct t'.acc_cards)
    go none q = (t, rw (n, p, e, q) refl, (v, a))
    go (some i) q = (
      record t { acc_cards = set t.acc_cards i none; reg_num = t.reg_num - 1 },
      rw (n, p, e, q) refl,
      (clear-SlotsReady s i t.acc_cards v, clear-AddrsDistinct i t.acc_cards a),
    )

unregister_returns :
    (s : Setup) (a : Around) (d : Daemon) (card : AccCard) (path : Bytes)
    → DaemonReady s d
    → a.behind.context ≡ none
    → a.behind.plugin ≡ none
    → a.behind.read_event ≡ none
    → Answers s (unregister_command a d card path)
unfolding unregister_command
unregister_returns s a d card path v n p e =
    let (t', k, (slots, addrs)) =
      unreg_returns s d.table (record a.behind { card = record card { vmpath = path } }) n p e
        v.slots v.addrs in
    (
      (success, record d { table = t' }),
      rw k refl,
      record { world = v.world; slots = slots; addrs = addrs },
    )

-- A read of another length.
unreadable :
    (a : Around) (d : Daemon) (b : Bytes)
    → (length b == cmd_size) ≡ false
    → be_cmd_request_process a d (some b) ≡ done (d, connection_ended)
unfolding be_cmd_request_process
unreadable a d b q = elim (Bool-cases (length b == 0)) [
  | inl z ↦ rw z refl
  | inr z ↦ rw (z, q) refl
]

read_command :
    (s : Setup) (a : Around) (d : Daemon) (b : Bytes)
    → DaemonReady s d
    → Answers s (be_la_cmd_process a d (bytes_cmd b))
    → (d' : Daemon) × (be_cmd_request_process a d (some b) ≡ done (d', connection_ended))
      × DaemonReady s d'
unfolding be_cmd_request_process
read_command s a d b v (r, e, w) = elim (Bool-cases (length b == cmd_size)) [
  | inl q ↦
      let some_bytes : (length b == 0) ≡ false = ground arith in
      (r.1, rw (some_bytes, q, e) refl, w)
  | inr q ↦ (d, unreadable a d b q, v)
]

-- The callback of a command that the daemon answers returns, with the connection closed and its event
-- deleted, and leaves the daemon ready.
pub command_returns :
    (s : Setup) (a : Around) (d : Daemon) (buf : Option Bytes)
    → DaemonReady s d
    → Answered d a buf
    → (d' : Daemon) × (be_cmd_request_process a d buf ≡ done (d', connection_ended))
      × DaemonReady s d'
unfolding be_cmd_request_process be_la_cmd_process
command_returns s a d _ v unread = (d, refl, v)
command_returns s a d _ v (bad_length b n) =
    let q : (length b == cmd_size) ≡ false = ground arith in (d, unreadable a d b q, v)
command_returns s a d _ v (unknown b n m) =
    let p : ((bytes_cmd b).cmd_type == cmd_type_register) ≡ false = ground arith in
    let q : ((bytes_cmd b).cmd_type == cmd_type_unregister) ≡ false = ground arith in
    read_command s a d b v ((failure, d), rw (p, q) refl, v)
command_returns s a d _ v (registers b t u p ended new) =
    let (r, e, w) = register_returns s a d (bytes_cmd b).card v u p new in
    let path = path_at-ends (bytes_cmd b) ended in read_command s a d b v (r, rw (path, t) e, w)
command_returns s a d _ v (unregisters b t n p e) =
    let (r, k, w) = unregister_returns s a d (bytes_cmd b).card (path_at (bytes_cmd b)) v n p e in
    let not_reg : ((bytes_cmd b).cmd_type == cmd_type_register) ≡ false = rw t refl in
    let unreg : ((bytes_cmd b).cmd_type == cmd_type_unregister) ≡ true = rw t refl in
    read_command s a d b v (r, rw (not_reg, unreg) k, w)

-- The path of a REGISTER that the daemon answers ends in its array.
pub Answered-ReadEnds :
    {d : Daemon} {a : Around} {buf : Option Bytes} → Answered d a buf → ReadEnds buf
Answered-ReadEnds unread = tt
Answered-ReadEnds (bad_length b n) = λ size type. absurd (n size)
Answered-ReadEnds (unknown b n m) = λ size type. absurd (n type)
Answered-ReadEnds (registers b t u p ended new) = λ size type. ended
Answered-ReadEnds (unregisters b t n p e) = λ size type. absurd (omega arith)
