-- ===== src/Daemon/Tests.antt =====
-- The events of be_la/be_channel.c and be_la_cmd.c at concrete inputs.
use be_la.Prelude.{
  ℕ, ◌+◌, ◌≡◌, refl, true, Bytes, none, some, List, [], ◌∷◌, ◌++◌, success, failure, done, crash,
  assertion, false, null_access, set, codes, replicate, bytes_eq, c_str, drop, arith,
}
use be_la.Vendor.{ends, CmdHdr}
use be_la.Context.{AccContext, blank_context}
use be_la.Cards.{
  reg_as, BeCardInner, AccCardsTable, blank_table, fresh_card, holds_path, find_path, find_free,
  fill_slot, at_index, is_null, be_la_get_acc_card, be_la_get_acc_cardptr, be_acc_card_reg,
  be_la_acc_cards_init,
}
use be_la.Cards.Invariant.{IsValid}
use be_la.Plugin.{blank_plugins}
use be_la.Plugin.Drivers.{liquidio_remote, s_liquidio_plugin, acc_context_destory}
use be_la.RuleBe.{blank_registry, get_rule_be_by_name, acc_get_rule_be_by_name}
use be_la.Session.{World, ovs}
use be_la.Session.Handlers.{
  Env, filled, backend, acc_flush_rules, be_acc_flush_rules, disconnect_message_handle,
  be_acc_message_process,
}
use be_la.Wire.{AccMsgHeader, bytes_word, bytes_header, data_len}
use be_la.Wire.Receive.{Arrival, chunk, closed, finished, lost, acc_unix_recv_message}
use be_la.Wire.Send.{wrote, sent, acc_unix_send_message}
use be_la.Wire
use be_la.Daemon.{Daemon, card_at, write_card}
use be_la.Daemon.Channel.{
  buf_size, connected, unix_socket_clnt_init, add_event, watch, open_on, opened, vm_channel_open,
  answer, received, do_vm_request_read,
}
use be_la.Daemon.Command.{
  Around, connect_vm, register_command, path_at, connection_ended, be_la_cmd_process, bytes_cmd,
  be_cmd_request_process,
}
use be_la.Daemon.Events.{command, turn_command, rest, turn, Turns-IsValid}
use be_la.Daemon.Unended.{unended_register}
use be_la.Daemon.Connect.{all_well, refused, register_connects, register_refused}
use be_la.Daemon.Address.{client_address, vm_address, address_overflow}
use be_la.Daemon.Server.{
  Connections, Accepting, be_cmd_server_process, accepted_command, watch_command, daemon_main,
  dispatching, be_cmd_srv_init, main_behind,
}
use be_la.Daemon.Ends.{disconnect_then_close}

abbrev world : World
world = record {
  plugins = set blank_plugins 34 s_liquidio_plugin;
  rule_bes = set blank_registry 0 (record { name = codes "ovs-rule"; funcs = some ovs });
  heap = record { live_contexts = 0; live_remotes = 0 };
  switch = record { executed = []; live_rules = 0 };
  context_host_id = 0;
}

abbrev env : Env
env = record {
  memory = record { for_remote = true; for_context = true };
  for_rules = true;
  host = record { system_result = λ n c. success; ssh_result = λ n r c. success };
}

abbrev at_start : Daemon
at_start = record { table = blank_table; world = world; open_fds = 0 }

abbrev word : ℕ → Bytes
word n = n ∷ 0 ∷ 0 ∷ 0 ∷ []

abbrev uuid : Bytes
uuid = codes "u" ++ replicate 127 0

abbrev path : Bytes
path = codes "/tmp/v" ++ replicate 122 0

abbrev cmd : CmdHdr
cmd = record {
  card = record { vendor = 4; model = 6; acc_type = 1; vm_uuid = uuid; vmpath = path };
  cmd_type = 1;
}

abbrev request_bytes : Bytes
request_bytes = word 4 ++ (word 6 ++ (word 1 ++ (uuid ++ (path ++ word 1))))

path-ends : ends path ≡ true
unfolding ends
path-ends = refl

request_cmd : bytes_cmd request_bytes ≡ cmd
unfolding bytes_cmd bytes_word
request_cmd = refl

abbrev card : BeCardInner
card = fresh_card 5 cmd.card

abbrev reg_table : AccCardsTable
reg_table = record { acc_cards = set blank_table.acc_cards 0 (some card); reg_num = 1 }

reg_runs : be_acc_card_reg blank_table cmd.card (some 5) ≡ done (success, reg_table)
unfolding be_acc_card_reg reg_as find_path find_free fill_slot holds_path
reg_runs = refl

abbrev with_card : BeCardInner → Daemon
with_card c = record {
  table = record { acc_cards = set blank_table.acc_cards 0 (some c); reg_num = 1 };
  world = world;
  open_fds = 1;
}

abbrev watched : BeCardInner
watched = record card { read_event = some 9 }

register_connects_example :
    (d' : Daemon) × (be_la_cmd_process
        (record { allocated = some 5; network = all_well 7 9; behind = card })
        at_start
        cmd
      ≡ done (success, d'))
    × (be_la_get_acc_cardptr d'.table path ≡ some watched)
    × (d'.open_fds ≡ 0 + 1)
register_connects_example =
    register_connects at_start cmd reg_table 5 7 9 card refl path-ends reg_runs

abbrev unended_cmd : CmdHdr
unended_cmd = record cmd { card = record cmd.card { vmpath = replicate 128 97 } }

abbrev unended_table : AccCardsTable
unended_table = record {
  acc_cards = set blank_table.acc_cards 0 (some (fresh_card 5 unended_cmd.card));
  reg_num = 1;
}

unended_runs :
    reg_as blank_table unended_cmd.card (path_at unended_cmd) (some 5)
    ≡ done (success, unended_table)
unfolding reg_as find_path find_free fill_slot holds_path path_at
unended_runs = refl

unended_register_example :
    be_la_cmd_process
      (record { allocated = some 5; network = all_well 7 9; behind = card })
      at_start
      unended_cmd
    ≡ crash null_access
unfolding ends
unended_register_example =
    unended_register at_start unended_cmd unended_table 5 7 9 card refl refl unended_runs

abbrev later : Around
later = record { allocated = some 6; network = all_well 8 10; behind = card }

register_refused_example :
    (d' : Daemon) × (be_la_cmd_process
        (record { allocated = some 5; network = refused 7 success none; behind = card })
        at_start
        cmd
      ≡ done (failure, d'))
    × (d'.table ≡ reg_table)
    × (d'.open_fds ≡ 0 + 1)
    × (be_la_cmd_process later d' cmd ≡ done (failure, d'))
register_refused_example =
    register_refused at_start cmd reg_table 5 7 success none card later refl path-ends reg_runs

abbrev ended : List Arrival
ended = closed ∷ []

ended_lost : acc_unix_recv_message buf_size ended ≡ lost []
unfolding acc_unix_recv_message
ended_lost = refl

abbrev context : AccContext
context = filled world (codes "guest") (record blank_context { ssh_remote = some liquidio_remote })

abbrev greeted : BeCardInner
greeted = record watched { plugin = some (4, 6); context = some context }

abbrev busy : Daemon
busy = record (with_card greeted) {
  world = record world {
    heap = record { live_contexts = 1; live_remotes = 1 };
    context_host_id = 1;
  };
}

-- The bytes of a DISCONNECT, and of its answer.
abbrev goodbye : List Arrival
goodbye = chunk 16 (0 ∷ 0 ∷ 0 ∷ (word 1 ++ (word 3 ++ word 0))) ∷ []

abbrev goodbye_hdr : AccMsgHeader
goodbye_hdr = record { total_len = 16; acc_type = 1; msg_type = 3; code = 0 }

goodbye_comes : acc_unix_recv_message buf_size goodbye ≡ finished (goodbye_hdr, []) []
unfolding acc_unix_recv_message
goodbye_comes = refl

abbrev left : Daemon
left = record (with_card (record watched { plugin = none; context = none })) {
  world = record busy.world {
    switch = acc_flush_rules ovs env context world.switch;
    heap = record { live_contexts = 0; live_remotes = 1 };
  };
}

goodbye_runs :
    do_vm_request_read env goodbye (wrote 16 ∷ []) busy 5
    ≡ done (some (left, sent true (word 16 ++ (word 1 ++ (word 3 ++ word 0)))))
unfolding do_vm_request_read card_at write_card acc_unix_recv_message received answer
    be_acc_message_process disconnect_message_handle be_acc_flush_rules backend
    acc_get_rule_be_by_name get_rule_be_by_name bytes_eq acc_unix_send_message Wire.header_bytes
    acc_context_destory
goodbye_runs = refl

disconnect_then_close_example : do_vm_request_read env ended [] left 5 ≡ crash assertion
unfolding card_at
disconnect_then_close_example =
    disconnect_then_close env env goodbye [] ended [] (wrote 16 ∷ []) [] busy 5 greeted goodbye_hdr
      [] (left, sent true (word 16 ++ (word 1 ++ (word 3 ++ word 0)))) refl goodbye_comes refl
      goodbye_runs ended_lost

abbrev around : Around
around = record { allocated = some 5; network = all_well 7 9; behind = card }

request_runs :
    be_cmd_request_process around at_start (some request_bytes)
    ≡ done (with_card watched, connection_ended)
unfolding be_cmd_request_process path_at ends bytes_cmd bytes_word be_la_cmd_process be_acc_card_reg
    reg_as find_path find_free fill_slot connect_vm register_command vm_channel_open
    unix_socket_clnt_init connected opened open_on watch add_event is_null write_card
    be_la_get_acc_cardptr be_la_get_acc_card holds_path bytes_eq at_index
request_runs = refl

Turns-IsValid_example : IsValid (with_card watched).table
unfolding be_la_acc_cards_init bytes_cmd
Turns-IsValid_example =
    Turns-IsValid blank_table world 0 (command around (some request_bytes) ∷ []) (with_card watched)
      (turn (turn_command (λ size type. path-ends) request_runs) rest)

address_overflow_example :
    (c_str (drop 2 (client_address 77 (codes "/tmp/v"))) ≡ codes "/tmp/v")
    × (drop 110 (client_address 77 (codes "/tmp/v")) ≡ 0 ∷ [])
    × (c_str (drop 2 (vm_address 77 (codes "/tmp/v"))) ≡ codes "/tmp/v")
    × (drop 110 (vm_address 77 (codes "/tmp/v")) ≡ 77 ∷ [])
address_overflow_example = address_overflow 77 (codes "/tmp/v") (omega arith)

abbrev nobody : Connections
nobody = record { open_fds = 0; waiting_events = 0; live_events = 0 }

abbrev one_waits : Connections
one_waits = record { open_fds = 1; waiting_events = 1; live_events = 1 }

abbrev accepting : Accepting
accepting = record { accept = some 8; nonblocking = success; event_new = true }

one_connects : be_cmd_server_process accepting nobody ≡ done one_waits
unfolding be_cmd_server_process accepted_command watch_command
one_connects = refl

-- Without memory for the event, the daemon dies.
no_event : be_cmd_server_process (record accepting { event_new = false }) nobody ≡ crash null_access
unfolding be_cmd_server_process accepted_command watch_command
no_event = refl

main_runs :
    daemon_main (record {
      listening = record { access = success; socket = some 4; bind = success; listen = success };
      event_base_new = true;
      event_new = true;
    })
    ≡ dispatching 4
unfolding daemon_main be_cmd_srv_init main_behind
main_runs = refl
