-- ===== src/Daemon/Keeps.antt =====
-- The card table stays well formed through the events of be_la/be_channel.c and be_la_cmd.c.
use be_la.Prelude.{
  >>=-eq-done, ℕ, suc, ◌-◌, ◌≡◌, refl, sym, ◌∙◌, ap, subst, Bool, true, false, Bytes, Option, none,
  some, List, [], ◌∷◌, Status, success, failure, done, crash, assertion, ◌>>=◌, ◌==◌, if◌then◌else◌,
  length, arith,
}
use be_la.Vendor.{AccCard, CmdHdr, ends, cmd_type_register, cmd_type_unregister}
use be_la.Cards.{
  BeCardInner, AccCardsTable, Slots, be_la_get_acc_cardptr, be_acc_card_reg, reg_as,
  be_acc_card_unreg, is_null,
}
use be_la.Cards.Table.{Absent, Distinct, count_used}
use be_la.Cards.Invariant.{IsValid, reg-IsValid, unreg-IsValid}
use be_la.Session.Handlers.{Env, be_acc_flush_rules, be_acc_message_process}
use be_la.Session.Lifecycle.{same}
use be_la.Wire.{AccMsgHeader}
use be_la.Wire.Receive.{Arrival, Io, finished, lost, waiting, died, acc_unix_recv_message}
use be_la.Wire.Send.{Write, Sent, sent, acc_unix_send_message}
use be_la.Daemon.{Daemon, card_at, write_card, store, overlay}
use be_la.Daemon.Channel.{
  Network, unix_socket_clnt_init, add_event, watch, open_on, opened, vm_channel_open, end_channel,
  answer, received, do_vm_request_read, buf_size, reply_header,
}
use be_la.Daemon.Command.{
  Around, connect_vm, register_command, unregister_command, path_at, be_la_cmd_process,
}

length-write_card : (c : BeCardInner) (l : Slots) → length (write_card c l) ≡ length l
unfolding write_card
length-write_card c [] = refl
length-write_card c (none ∷ r) = ap suc (length-write_card c r)
length-write_card c (some b ∷ r) = ap suc (length-write_card c r)

count_used-write_card : (c : BeCardInner) (l : Slots) → count_used (write_card c l) ≡ count_used l
unfolding write_card
count_used-write_card c [] = refl
count_used-write_card c (none ∷ r) = count_used-write_card c r
count_used-write_card c (some b ∷ r) = ap suc (count_used-write_card c r)

Absent-write_card :
    (p : Bytes) (c : BeCardInner) (l : Slots) → Absent p l → Absent p (write_card c l)
unfolding write_card
Absent-write_card p c [] a = tt
Absent-write_card p c (none ∷ r) a = Absent-write_card p c r a
Absent-write_card p c (some b ∷ r) (x, a) = (ground arith, Absent-write_card p c r a)

Distinct-write_card : (c : BeCardInner) (l : Slots) → Distinct l → Distinct (write_card c l)
unfolding write_card
Distinct-write_card c [] a = tt
Distinct-write_card c (none ∷ r) a = Distinct-write_card c r a
Distinct-write_card c (some b ∷ r) (x, a) = (here (b.addr == c.addr), Distinct-write_card c r a)
  where
    here : (t : Bool) → Absent (if t then overlay c b else b).vmpath (write_card c r)
    here true = Absent-write_card b.vmpath c r x
    here false = Absent-write_card b.vmpath c r x

pub store-IsValid : (t : AccCardsTable) (c : BeCardInner) → IsValid t → IsValid (store t c)
store-IsValid t c v = record {
  size = length-write_card c t.acc_cards ∙ v.size;
  counted = v.counted ∙ sym (count_used-write_card c t.acc_cards);
  distinct = Distinct-write_card c t.acc_cards v.distinct;
}

abbrev pub Valid : Daemon → Type 0
Valid d = IsValid d.table

add_event-Valid :
    (d : Daemon) (c : BeCardInner) (e : Option ℕ) → Valid d → Valid (add_event d c e).1
unfolding add_event
add_event-Valid d c none v = store-IsValid d.table (record c { read_event = none }) v
add_event-Valid d c (some e) v = store-IsValid d.table (record c { read_event = some e }) v

watch-Valid : (n : Network) (d : Daemon) (c : BeCardInner) → Valid d → Valid (watch n d c).1
unfolding watch
watch-Valid n d c v =
    elim n.nonblocking
      as (λ s.
        Valid
          (elim s as (λ _. Status × Daemon) [
            | failure ↦ (failure, record d { open_fds = d.open_fds - 1 })
            | success ↦ add_event d c n.event
          ]).1) [ success ↦ add_event-Valid d c n.event v | failure ↦ v ]

opened-Valid :
    (n : Network) (d : Daemon) (c : Option BeCardInner) (fd : Option ℕ) (r : Status × Daemon)
    → Valid d
    → opened n d c fd ≡ done r
    → Valid r.1
unfolding opened open_on
opened-Valid n d c none r v e = subst (λ (k : Status × Daemon). Valid k.1) (same e) v
opened-Valid n d none (some fd) r v e = ground arith
opened-Valid n d (some c) (some fd) r v e = go (is_null c.context) e
  where
    go : (t : Bool) → (if t then done (watch n d c) else crash assertion) ≡ done r → Valid r.1
    go true k = subst (λ (k : Status × Daemon). Valid k.1) (same k) (watch-Valid n d c v)
    go false k = ground arith

connect_vm-Valid :
    (a : Around) (d : Daemon) (path : Bytes) (s : Status × AccCardsTable) (r : Status × Daemon)
    → IsValid s.1
    → connect_vm a d path s ≡ done r
    → Valid r.1
unfolding connect_vm vm_channel_open
connect_vm-Valid a d path (failure, t) r v e = subst (λ (k : Status × Daemon). Valid k.1) (same e) v
connect_vm-Valid a d path (success, t) r v e =
    let (fd, fds) = unix_socket_clnt_init a.network d.open_fds in
    opened-Valid a.network (record d { table = t; open_fds = fds }) (be_la_get_acc_cardptr t path)
      fd r v e

register_command-Valid :
    (a : Around) (d : Daemon) (card : AccCard) (r : Status × Daemon)
    → Valid d
    → register_command a d card card.vmpath ≡ done r
    → Valid r.1
unfolding register_command be_acc_card_reg
register_command-Valid a d card r v e =
    let (s, h, k) =
      >>=-eq-done (reg_as d.table card card.vmpath a.allocated) (λ s. connect_vm a d card.vmpath s)
        e in
    connect_vm-Valid a d card.vmpath s r (reg-IsValid d.table s.1 card a.allocated s.0 v h) k

unregister_command-Valid :
    (a : Around) (d : Daemon) (card : AccCard) (path : Bytes) (r : Status × Daemon)
    → Valid d
    → unregister_command a d card path ≡ done r
    → Valid r.1
unfolding unregister_command
unregister_command-Valid a d card path r v e =
    let u = record a.behind { card = record card { vmpath = path } } in
    let (s, h, k) =
      >>=-eq-done (be_acc_card_unreg d.table u) (λ s. done (s.0, record d { table = s.1 })) e in
    subst (λ (k : Status × Daemon). Valid k.1) (same k) (unreg-IsValid d.table s.1 u s.0 v h)

-- The path of a command that is a REGISTER ends in its array.
abbrev pub PathEnds : CmdHdr → Type 0
PathEnds cmd = cmd.cmd_type ≡ cmd_type_register → ends cmd.card.vmpath ≡ true

pub path_at-ends : (cmd : CmdHdr) → ends cmd.card.vmpath ≡ true → path_at cmd ≡ cmd.card.vmpath
unfolding path_at
path_at-ends cmd e = rw e refl

pub cmd_process-Valid :
    (a : Around) (d : Daemon) (cmd : CmdHdr) (r : Status × Daemon)
    → PathEnds cmd
    → Valid d
    → be_la_cmd_process a d cmd ≡ done r
    → Valid r.1
unfolding be_la_cmd_process
cmd_process-Valid a d cmd r ended v e =
    go (cmd.cmd_type == cmd_type_register) (cmd.cmd_type == cmd_type_unregister) refl e
  where
    go :
        (reg unreg : Bool)
        → (cmd.cmd_type == cmd_type_register) ≡ reg
        → (if reg
            then register_command a d cmd.card (path_at cmd)
            else if unreg
            then unregister_command a d cmd.card (path_at cmd)
            else done (failure, d))
          ≡ done r
        → Valid r.1
    go true _ q k =
        let same_path = path_at-ends cmd (ended (ground arith)) in
        register_command-Valid a d cmd.card r v
          (subst (λ p. register_command a d cmd.card p ≡ done r) same_path k)
    go false true q k = unregister_command-Valid a d cmd.card (path_at cmd) r v k
    go false false q k = subst (λ (k : Status × Daemon). Valid k.1) (same k) v

end_channel-Valid :
    (env : Env) (d : Daemon) (c : BeCardInner) (d' : Daemon)
    → Valid d
    → end_channel env d c ≡ done d'
    → Valid d'
unfolding end_channel
end_channel-Valid env d c d' v e =
    let (r, _, k) =
      >>=-eq-done (be_acc_flush_rules env d.world (record c { read_event = none }))
        (λ r. be_acc_card_unreg (store d.table r.1) r.1 >>= λ u.
          done (record { table = u.1; world = r.0; open_fds = d.open_fds - 1 }))
        e in
    let (u, h, q) =
      >>=-eq-done (be_acc_card_unreg (store d.table r.1) r.1)
        (λ u. done (record { table = u.1; world = r.0; open_fds = d.open_fds - 1 })) k in
    subst Valid (same q)
      (unreg-IsValid (store d.table r.1) u.1 r.1 u.0 (store-IsValid d.table r.1 v) h)

answer-Valid :
    (env : Env) (writes : List Write) (d : Daemon) (c : BeCardInner) (m : AccMsgHeader × Bytes)
    (r : Daemon × Sent)
    → Valid d
    → answer env writes d c m ≡ done r
    → Valid r.0
unfolding answer
answer-Valid env writes d c (hdr, buf) r v e =
    let (p, _, k) =
      >>=-eq-done (be_acc_message_process env d.world c hdr.msg_type buf)
        (λ p. done (
          record d { table = store d.table p.card; world = p.world },
          acc_unix_send_message (reply_header hdr p.status) [] writes,
        ))
        e in
    subst (λ (k : Daemon × Sent). Valid k.0) (same k) (store-IsValid d.table p.card v)

received-Valid :
    (env : Env) (writes : List Write) (d : Daemon) (c : BeCardInner) (i : Io (AccMsgHeader × Bytes))
    (r : Daemon × Sent)
    → Valid d
    → received env writes d c i ≡ done (some r)
    → Valid r.0
unfolding received
received-Valid env writes d c (finished m rest) r v e =
    let (p, h, k) = >>=-eq-done (answer env writes d c m) (λ p. done (some p)) e in
    let q : p ≡ r = ground arith in
    subst (λ (k : Daemon × Sent). Valid k.0) q (answer-Valid env writes d c m p v h)
received-Valid env writes d c (lost rest) r v e =
    let (p, h, k) = >>=-eq-done (end_channel env d c) (λ p. done (some (p, sent true []))) e in
    let q : (p, sent true []) ≡ r = ground arith in
    subst (λ (k : Daemon × Sent). Valid k.0) q (end_channel-Valid env d c p v h)
received-Valid env writes d c waiting r v e = ground arith
received-Valid env writes d c (died f) r v e = ground arith

pub request_read-Valid :
    (env : Env) (arrivals : List Arrival) (writes : List Write) (d : Daemon) (arg : ℕ)
    (r : Daemon × Sent)
    → Valid d
    → do_vm_request_read env arrivals writes d arg ≡ done (some r)
    → Valid r.0
unfolding do_vm_request_read
request_read-Valid env arrivals writes d arg r v e = go (card_at arg d.table.acc_cards) refl
  where
    go : (o : Option BeCardInner) → card_at arg d.table.acc_cards ≡ o → Valid r.0
    go none q = ground arith
    go (some c) q =
        received-Valid env writes d c (acc_unix_recv_message buf_size arrivals) r v
          (rw (q, do_vm_request_read) at e)
