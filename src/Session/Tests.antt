-- ===== src/Session/Tests.antt =====
-- The message handlers of message/be_acc_msg.c at concrete inputs.
use be_la.Prelude.{
  ◌+◌, ◌≡◌, refl, true, Bytes, none, some, [], success, done, set, codes, arith, length, c_str,
  drop,
}
use be_la.Context.{AccContext, blank_context}
use be_la.Cards.{BeCardInner, fresh_card}
use be_la.Plugin.{blank_plugins, checked, be_plugin_match}
use be_la.Plugin.Drivers.{
  liquidio, liquidio_remote, s_liquidio_plugin, context_init, attach_remote, acc_context_alloc,
  be_plugin_context_init,
}
use be_la.RuleBe.{blank_registry}
use be_la.Session.{World, ovs}
use be_la.Session.Handlers.{
  Env, Reply, filled, give_context, drop_old_context, hello_matched, hello_found,
  hello_message_handle, acc_flush_rules, be_acc_message_process,
}
use be_la.Session.Lifecycle.{Balanced}
use be_la.Session.Hello.{hello_gives}
use be_la.Session.Balance.{message_process-Balanced}
use be_la.Session.Ready.{Setup}
use be_la.Session.Dispatch.{acc_unix_server_msg_init, dispatch, dispatch-message_process}

abbrev world : World
world = record {
  plugins = set blank_plugins 34 s_liquidio_plugin;
  rule_bes = set blank_registry 0 (record { name = codes "ovs-rule"; funcs = some ovs });
  heap = record { live_contexts = 0; live_remotes = 0 };
  switch = record { executed = []; live_rules = 0 };
  context_host_id = 0;
}

abbrev env : Env
env = record {
  memory = record { for_remote = true; for_context = true };
  for_rules = true;
  host = record { system_result = λ n c. success; ssh_result = λ n r c. success };
}

abbrev card : BeCardInner
card =
    fresh_card 5
      (record { vendor = 4; model = 6; acc_type = 1; vm_uuid = codes "u"; vmpath = codes "/tmp/v" })

abbrev greeting : Bytes
greeting = codes "guest"

abbrev after_hello : Reply
after_hello = record {
  status = success;
  card = record card {
    plugin = some (4, 6);
    context =
        some (filled world greeting (record blank_context { ssh_remote = some liquidio_remote }));
  };
  world = record world {
    heap = record { live_contexts = 1; live_remotes = 1 };
    context_host_id = 1;
  };
}

hello_runs : be_acc_message_process env world card 1 greeting ≡ done after_hello
unfolding be_acc_message_process hello_message_handle hello_found hello_matched be_plugin_match
    checked drop_old_context be_plugin_context_init context_init acc_context_alloc attach_remote
    give_context
hello_runs = refl

message_process-Balanced_example : Balanced 0 after_hello.world after_hello.card
message_process-Balanced_example =
    message_process-Balanced 0 env world card 1 greeting after_hello refl hello_runs

abbrev after_bye : Reply
after_bye = record {
  status = success;
  card = record card { plugin = none; context = none };
  world = record after_hello.world {
    switch =
        acc_flush_rules ovs env
          (filled world greeting (record blank_context { ssh_remote = some liquidio_remote }))
          world.switch;
    heap = record { live_contexts = 0; live_remotes = 1 };
  };
}

match_runs : be_plugin_match world.plugins card.card ≡ done (some (4, 6))
unfolding be_plugin_match checked
match_runs = refl

hello_gives_example :
    (r : Reply) × (x : AccContext) × (be_acc_message_process env world card 1 greeting ≡ done r)
    × (r.status ≡ success)
    × (r.card.context ≡ some x)
    × (length x.names ≡ 512)
    × (c_str (drop 256 x.names) ≡ codes "br0")
    × (x.hostid ≡ 0)
    × (r.world.heap.live_contexts ≡ 0 + 1)
unfolding checked
hello_gives_example =
    hello_gives env world card greeting (4, 6) s_liquidio_plugin liquidio (omega arith) match_runs
      refl refl refl refl

abbrev setup : Setup
setup = record { plugins = world.plugins; rule_bes = world.rule_bes; ovs_at = 0 }

dispatch-message_process_example :
    dispatch (acc_unix_server_msg_init []).1 env world card 7 greeting
    ≡ be_acc_message_process env world card 7 greeting
dispatch-message_process_example = dispatch-message_process [] env world card 7 greeting
