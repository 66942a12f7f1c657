-- ===== src/Daemon/Command.antt =====
-- be_la/be_la_cmd.c and `be_cmd_request_process` of be_la/be_main.c: the commands.
use be_la.Prelude.{
  List, [], ◌∷◌, ℕ, Bytes, Option, none, some, Status, success, failure, Outcome, done, ◌>>=◌, ◌++◌,
  ◌==◌, if◌then◌else◌, length, take, drop,
}
use be_la.Vendor.{AccCard, CmdHdr, ends, cmd_type_register, cmd_type_unregister}
use be_la.Cards.{BeCardInner, AccCardsTable, reg_as, be_acc_card_unreg}
use be_la.Wire.{bytes_word, word_bytes}
use be_la.Daemon.{Daemon}
use be_la.Daemon.Channel.{Network, vm_channel_open}

-- What one command meets: the address that `calloc` returns, the network, and the memory behind
-- the command in the buffer, read as the rest of a `be_card_inner_t`.
pub record Around : Type 0 where
  pub allocated : Option ℕ
  pub network : Network
  pub behind : BeCardInner

-- The string that starts at `cmd->card.vmpath`: without a NUL in the array it runs on into
-- `cmd_type`, which stands behind it. In the table `fd`, which is 0, stands behind the copy.
unfoldable pub path_at : CmdHdr → Bytes
unfolding ends
path_at cmd =
    if ends cmd.card.vmpath then cmd.card.vmpath else cmd.card.vmpath ++ word_bytes cmd.cmd_type

-- `CMD_TYPE_REGISTER` behind the call of `be_acc_card_reg`.
unfoldable pub connect_vm :
    Around → Daemon → Bytes → Status × AccCardsTable → Outcome (Status × Daemon)
unfolding vm_channel_open
connect_vm a d path (failure, t) = done (failure, record d { table = t })
connect_vm a d path (success, t) = vm_channel_open a.network (record d { table = t }) path

-- The command on a card, with the string of its path.
unfoldable pub register_command : Around → Daemon → AccCard → Bytes → Outcome (Status × Daemon)
unfolding connect_vm
register_command a d card path = reg_as d.table card path a.allocated >>= λ r. connect_vm a d path r

-- The card of the command is passed as if it were a `be_card_inner_t`.
unfoldable pub unregister_command : Around → Daemon → AccCard → Bytes → Outcome (Status × Daemon)
unregister_command a d card path =
    be_acc_card_unreg d.table (record a.behind { card = record card { vmpath = path } }) >>= λ r.
    done (r.0, record d { table = r.1 })

unfoldable pub be_la_cmd_process : Around → Daemon → CmdHdr → Outcome (Status × Daemon)
unfolding register_command unregister_command
be_la_cmd_process a d cmd =
    if cmd.cmd_type == cmd_type_register
    then register_command a d cmd.card (path_at cmd)
    else if cmd.cmd_type == cmd_type_unregister
    then unregister_command a d cmd.card (path_at cmd)
    else done (failure, d)

-- `cmd_hdr_t` in the bytes of a command: 272 bytes.
abbrev pub cmd_size : ℕ
cmd_size = 272

unfoldable pub bytes_cmd : Bytes → CmdHdr
bytes_cmd b = record {
  card = record {
    vendor = bytes_word (take 4 b);
    model = bytes_word (take 4 (drop 4 b));
    acc_type = bytes_word (take 4 (drop 8 b));
    vm_uuid = take 128 (drop 12 b);
    vmpath = take 128 (drop 140 b);
  };
  cmd_type = bytes_word (take 4 (drop 268 b));
}

-- The calls on a command's connection and on its event.
pub data ConnectionCall : Type 0 where
  close event_del : ConnectionCall

abbrev pub connection_ended : List ConnectionCall
connection_ended = close ∷ event_del ∷ []

-- `buf` is what the `read` delivered, `none` when it failed. The command's status is dropped.
unfoldable pub be_cmd_request_process :
    Around → Daemon → Option Bytes → Outcome (Daemon × List ConnectionCall)
unfolding be_la_cmd_process bytes_cmd
be_cmd_request_process a d none = done (d, close ∷ event_del ∷ [])
be_cmd_request_process a d (some buf) =
    if length buf == 0
    then done (d, close ∷ event_del ∷ [])
    else if length buf == cmd_size
    then (be_la_cmd_process a d (bytes_cmd buf) >>= λ r. done (r.1, close ∷ event_del ∷ []))
    else done (d, close ∷ event_del ∷ [])
