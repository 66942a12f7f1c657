-- ===== src/Dialogue/Tests.antt =====
-- The client and the daemon with each other at concrete inputs.
use be_la.Prelude.{
  ℕ, ◌≡◌, refl, true, Bytes, some, List, [], ◌∷◌, ◌++◌, Status, success, failure, done, set, codes,
  replicate, arith,
}
use be_la.Vendor.{AccCard}
use be_la.Context.{AccContext, blank_context}
use be_la.Cards.{BeCardInner, blank_table, fresh_card}
use be_la.Plugin.Drivers.{netronome, s_netronome_plugin}
use be_la.Session.Handlers.{Env}
use be_la.Session.Ready.{HasDriver}
use be_la.Wire.{acc_unix_hello, header_bytes, word_bytes}
use be_la.Wire.Receive.{Arrival, chunk}
use be_la.Wire.Send.{sent, wrote}
use be_la.Wire.Stream.{stream}
use be_la.Wire.Transport.{message_bytes}
use be_la.Daemon.{Daemon, card_at}
use be_la.Daemon.Channel.{do_vm_request_read}
use be_la.Daemon.Ready.{DaemonReady}
use be_la.Client.Channel.{returned, request, acc_channel_connect, clear}
use be_la.Startup.Order.{setup_of, started, started-HasBackend}
use be_la.Startup.Serves.{world_of}
use be_la.Dialogue.{answer_to, handle_for, connect_served}

abbrev env : Env
env = record {
  memory = record { for_remote = true; for_context = true };
  for_rules = true;
  host = record { system_result = λ n c. success; ssh_result = λ n r c. success };
}

abbrev agilio_card : AccCard
agilio_card = record {
  vendor = 1;
  model = 1;
  acc_type = 1;
  vm_uuid = codes "u";
  vmpath = codes "/tmp/v";
}

abbrev agilio_driver : HasDriver (setup_of started) agilio_card
agilio_driver = record {
  entry = s_netronome_plugin;
  there = refl;
  driver = netronome;
  has_funcs = refl;
}

abbrev card : BeCardInner
card = record (fresh_card 5 agilio_card) { read_event = some 9 }

abbrev daemon : BeCardInner → Daemon
daemon c = record {
  table = record { acc_cards = set blank_table.acc_cards 0 (some c); reg_num = 1 };
  world =
      world_of started (record { live_contexts = 0; live_remotes = 0 })
        (record { executed = []; live_rules = 0 });
  open_fds = 1;
}

ready : DaemonReady (setup_of started) (daemon card)
ready = record {
  world = record { plugins_are = refl; rule_bes_are = refl };
  slots = (tt, tt);
  addrs = (tt, tt);
}

abbrev word : ℕ → Bytes
word n = n ∷ 0 ∷ 0 ∷ 0 ∷ []

-- A HELLO that comes in two pieces.
abbrev hello : List Arrival
hello =
    chunk 21 (0 ∷ 0 ∷ 0 ∷ (word 1 ++ (word 1 ++ (word 0 ++ codes "gue"))))
    ∷ chunk b's' (codes "t")
    ∷ []

hello_comes : stream hello ≡ message_bytes (request acc_unix_hello 5) (codes "guest") ++ []
unfolding header_bytes word_bytes
hello_comes = refl

abbrev code : Status → ℕ
code success = 0
code failure = 1

abbrev replies : ℕ → Status → List Arrival
replies type t = chunk 16 (0 ∷ 0 ∷ 0 ∷ (word 1 ++ (word type ++ word (code t)))) ∷ []

hello_answered : (t : Status) → stream (replies 1 t) ≡ answer_to (request acc_unix_hello 5) t ++ []
unfolding header_bytes word_bytes
hello_answered success = refl
hello_answered failure = refl

connect_served_example :
    (t : Status) × (d' : Daemon) × (do_vm_request_read env hello (wrote 16 ∷ []) (daemon card) 5
      ≡ done (some (d', sent true (answer_to (request acc_unix_hello 5) t))))
    × DaemonReady (setup_of started) d'
    × (acc_channel_connect (some 3) (some (codes "guest")) (clear (wrote 21 ∷ []) (replies 1 t))
        ≡ returned (handle_for 3 t))
unfolding card_at header_bytes
connect_served_example =
    connect_served (setup_of started) env (daemon card) 5 3 card (codes "guest") [] []
      (wrote 21 ∷ []) (wrote 16 ∷ []) hello (replies 1) started-HasBackend ready refl agilio_driver
      (omega arith) (omega arith) (omega arith) hello_comes hello_answered

abbrev context : AccContext
context = record blank_context { be = some 0 }

abbrev served_card : BeCardInner
served_card = record card { context = some context }

abbrev flows : Bytes
flows = replicate 92 0

abbrev flows_message : List Arrival
flows_message = chunk 108 (0 ∷ 0 ∷ 0 ∷ (word 1 ++ (word 2 ++ (word 0 ++ flows)))) ∷ []
