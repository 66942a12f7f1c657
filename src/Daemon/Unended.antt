-- ===== src/Daemon/Unended.antt =====
-- A REGISTER of be_la/be_la_cmd.c whose path does not end in its array.
use be_la.Prelude.{
  ℕ, ◌+◌, ◌≡◌, refl, ◌∙◌, false, Bytes, none, some, [], ◌∷◌, ◌++◌, success, done, crash,
  null_access, ◌==◌, arith, Bool-cases, inl, inr, Option-cases, str_eq, bytes_eq, set,
}
use be_la.Vendor.{AccCard, CmdHdr, ends, cmd_type_register}
use be_la.Cards.{
  BeCardInner, AccCardsTable, Slots, fresh_card, find_path, find_free, reg_as,
  be_la_get_acc_cardptr,
}
use be_la.Cards.Table.{
  FreeAt, first, later, find_free-FreeAt, find_card, find_card-Absent, find_path-none,
}
use be_la.Cards.Lookup.{cardptr-find_card}
use be_la.Wire.{word_bytes}
use be_la.Daemon.{Daemon}
use be_la.Daemon.Channel.{unix_socket_clnt_init, connected, open_on, opened, vm_channel_open}
use be_la.Daemon.Command.{connect_vm, register_command, path_at, be_la_cmd_process}
use be_la.Daemon.Connect.{all_well}

-- A string differs from the one that goes on behind it.
str_eq-unended :
    (v : Bytes) (b : ℕ) (r : Bytes)
    → ends v ≡ false
    → (b == 0) ≡ false
    → str_eq v (v ++ (b ∷ r)) ≡ false
unfolding ends bytes_eq
str_eq-unended [] b r e n = rw n refl
str_eq-unended (x ∷ v) b r e n = elim (Bool-cases (x == 0)) [
  | inl z ↦ absurd (ground arith)
  | inr z ↦ ground (arith, str_eq-unended v b r (ground arith) n)
]

-- A card of another path does not change what is found.
find_card-other :
    {l l' : Slots} {i : ℕ} {c : BeCardInner} (p : Bytes)
    → FreeAt l i l' c
    → str_eq c.vmpath p ≡ false
    → find_card p l' ≡ find_card p l
find_card-other p (first r c) h = rw h refl
find_card-other p (later d f) h = rw (find_card-other p f h) refl

-- The table of a registration under a string that is not the stored path.
registered_unended :
    (t t' : AccCardsTable) (card : AccCard) (path : Bytes) (addr : ℕ)
    → str_eq card.vmpath path ≡ false
    → reg_as t card path (some addr) ≡ done (success, t')
    → be_la_get_acc_cardptr t' path ≡ none
unfolding reg_as
registered_unended t t' card path addr other h = elim (Option-cases (find_free t.acc_cards)) [
  | inl e ↦ absurd (ground arith)
  | inr (i, e) ↦
      let fresh : find_path path t.acc_cards ≡ none = ground arith in
      let result : t' ≡ record t {
        acc_cards = set t.acc_cards i (some (fresh_card addr card));
        reg_num = t.reg_num + 1;
      } =
        ground arith in
      rw (result, cardptr-find_card)
        (find_card-other path (find_free-FreeAt t.acc_cards i (fresh_card addr card) e) other
          ∙ find_card-Absent path t.acc_cards (find_path-none path t.acc_cards fresh))
]

path_at-unended :
    (cmd : CmdHdr)
    → cmd.cmd_type ≡ cmd_type_register
    → ends cmd.card.vmpath ≡ false
    → str_eq cmd.card.vmpath (path_at cmd) ≡ false
unfolding path_at word_bytes
path_at-unended cmd type unended =
    rw (unended, type) (str_eq-unended cmd.card.vmpath 1 (0 ∷ 0 ∷ 0 ∷ []) unended refl)

-- When no byte of the path of a REGISTER command is NUL, its card can be registered, and every call
-- on the network succeeds, the daemon reads NULL and dies.
pub unended_register :
    (d : Daemon) (cmd : CmdHdr) (t' : AccCardsTable) (addr fd event : ℕ) (behind : BeCardInner)
    → cmd.cmd_type ≡ cmd_type_register
    → ends cmd.card.vmpath ≡ false
    → reg_as d.table cmd.card (path_at cmd) (some addr) ≡ done (success, t')
    → be_la_cmd_process
        (record { allocated = some addr; network = all_well fd event; behind = behind })
        d
        cmd
      ≡ crash null_access
unfolding be_la_cmd_process register_command connect_vm vm_channel_open unix_socket_clnt_init
    connected opened open_on
unended_register d cmd t' addr fd event behind type unended h =
    let other : str_eq cmd.card.vmpath (path_at cmd) ≡ false = path_at-unended cmd type unended in
    rw (h, registered_unended d.table t' cmd.card (path_at cmd) addr other h, type) refl
