-- ===== src/Startup/Tests.antt =====
-- The start of be_la/be_main.c's daemon at concrete inputs.
use be_la.Prelude.{
  ℕ, ◌≡◌, ◌↔◌, Bytes, some, List, [], ◌∷◌, ◌++◌, success, true, done, set, codes, replicate, arith,
}
use be_la.Vendor.{AccCard}
use be_la.Cards.{reg_as, BeCardInner, blank_table, fresh_card, reg_as}
use be_la.Plugin.Drivers.{Heap}
use be_la.Ovs.Edit.{OvsState}
use be_la.Session.Handlers.{Env}
use be_la.Session.Ready.{HasBackend, HasDriver}
use be_la.Session.Dispatch.{acc_unix_server_msg_init}
use be_la.Wire.{AccMsgHeader}
use be_la.Wire.Receive.{Arrival, chunk}
use be_la.Wire.Send.{wrote}
use be_la.Daemon.{Daemon}
use be_la.Daemon.Command.{Around}
use be_la.Daemon.Connect.{all_well}
use be_la.Daemon.Events.{Event, command, readable}
use be_la.Startup.{Globals, Module, ovs_rules, server_messages, start, blank_globals}
use be_la.Startup.Order.{
  order_lni, netronome_module, intel_qat_module, liquidio_module, setup_of, started, Served,
  start-Served,
}
use be_la.Startup.Serves.{world_of}

abbrev link_order : List Module
link_order = liquidio_module ∷ netronome_module ∷ intel_qat_module ∷ []

abbrev word : ℕ → Bytes
word n = n ∷ 0 ∷ 0 ∷ 0 ∷ []

abbrev uuid : Bytes
uuid = codes "u" ++ replicate 127 0

abbrev path : Bytes
path = codes "/tmp/v" ++ replicate 122 0

abbrev agilio_card : AccCard
agilio_card = record { vendor = 1; model = 1; acc_type = 1; vm_uuid = uuid; vmpath = path }

start-Served_example :
    (g : Globals) × (start (ovs_rules ∷ server_messages ∷ link_order) blank_globals ≡ done (some g))
    × (g.handlers ≡ (acc_unix_server_msg_init blank_globals.handlers).1)
    × HasBackend (setup_of g)
    × (HasDriver (setup_of g) agilio_card ↔ Served agilio_card)
start-Served_example = start-Served link_order agilio_card order_lni (omega arith)

abbrev heap : Heap
heap = record { live_contexts = 0; live_remotes = 0 }

abbrev switch : OvsState
switch = record { executed = []; live_rules = 0 }

abbrev env : Env
env = record {
  memory = record { for_remote = true; for_context = true };
  for_rules = true;
  host = record { system_result = λ n c. success; ssh_result = λ n r c. success };
}

abbrev request_bytes : Bytes
request_bytes = word 1 ++ (word 1 ++ (word 1 ++ (uuid ++ (path ++ word 1))))

abbrev card : BeCardInner
card = fresh_card 5 agilio_card

abbrev watched : BeCardInner
watched = record card { read_event = some 9 }

abbrev around : Around
around = record { allocated = some 5; network = all_well 7 9; behind = card }

abbrev with_card : Daemon
with_card = record {
  table = record { acc_cards = set blank_table.acc_cards 0 (some watched); reg_num = 1 };
  world = world_of started heap switch;
  open_fds = 1;
}

-- A HELLO of 5 bytes, which comes in two pieces.
abbrev greeting : List Arrival
greeting =
    chunk 21 (0 ∷ 0 ∷ 0 ∷ (word 1 ++ (word 1 ++ (word 0 ++ codes "gue"))))
    ∷ (chunk 115 (116 ∷ []) ∷ [])

abbrev greeting_hdr : AccMsgHeader
greeting_hdr = record { total_len = 21; acc_type = 1; msg_type = 1; code = 0 }

-- The registration of a card, and a HELLO on its channel.
abbrev events : List Event
events = command around (some request_bytes) ∷ readable env greeting (wrote 16 ∷ []) 5 ∷ []
