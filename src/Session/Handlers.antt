-- ===== src/Session/Handlers.antt =====
-- The message handlers of message/be_acc_msg.c. A handler returns its status with what it leaves
-- of the card and of the world; `*out_len` is 0 wherever it is written.
use be_la.Prelude.{
  ℕ, ◌+◌, ◌*◌, ◌/◌, ◌%◌, ◌^◌, Bool, Bytes, Option, none, some, Status, success, failure, Outcome,
  done, crash, assertion, null_call, null_access, out_of_bounds, ◌>>=◌, ltb, leb, ◌==◌,
  if◌then◌else◌, codes, get_elem?, length,
}
use be_la.Context.{AccContext, hostname_size}
use be_la.Cards.{BeCardInner}
use be_la.Plugin.{AccPlugin, be_plugin_match, checked, slot_of}
use be_la.Plugin.Drivers.{
  Driver, Heap, Memory, acc_context_destory, be_plugin_context_init, be_plugin_context_destory,
}
use be_la.RuleBe.{acc_get_rule_be_by_name}
use be_la.Ovs.Edit.{Host, OvsState, acc_ovs_add_rules, acc_ovs_flush_rules}
use be_la.Session.{World, RuleFuncs, ovs, flow_size, bytes_flows}
use be_la.Session.Names.{hello_names}
use be_la.Wire.{acc_unix_hello, acc_unix_add_flows, acc_unix_disconnect, acc_unix_max_type}

-- What the environment does during one event: `malloc`, `calloc` of the rules, and commands.
pub record Env : Type 0 where
  pub memory : Memory
  pub for_rules : Bool
  pub host : Host

pub record Reply : Type 0 where
  pub status : Status
  pub card : BeCardInner
  pub world : World

-- The plugin entry that the card's pointer designates.
abbrev pub plugin_at : World → ℕ × ℕ → Outcome (AccPlugin Driver)
plugin_at w (v, m) = checked (get_elem? w.plugins (slot_of v m))

-- `be_plugin_context_destory` and `card->context = NULL`, if the card has a context.
unfoldable pub drop_old_context :
    World → AccPlugin Driver → BeCardInner → Outcome (World × BeCardInner)
drop_old_context w p c = elim c.context [
  | none ↦ done (w, c)
  | some old ↦ be_plugin_context_destory p old w.heap >>= λ h.
      done (record w { heap = h }, record c { context = none })
]

-- The fields of a new context.
abbrev pub filled : World → Bytes → AccContext → AccContext
filled w message context = record context {
  names = hello_names message (length message) context.names;
  hostid = w.context_host_id;
  be = acc_get_rule_be_by_name w.rule_bes (codes "ovs-rule");
}

unfoldable pub give_context : World → BeCardInner → Bytes → Option AccContext × Heap → Reply
give_context w c message (none, h) = record {
  status = failure;
  card = record c { plugin = none };
  world = record w { heap = h };
}
give_context w c message (some context, h) = record {
  status = success;
  card = record c { context = some (filled w message context) };
  world = record w { heap = h; context_host_id = (w.context_host_id + 1) % 2 ^ 32 };
}

-- `hello_message_handle` behind a successful match.
unfoldable pub hello_matched : Env → World → BeCardInner → Bytes → ℕ × ℕ → Outcome Reply
hello_matched env w c message at = plugin_at w at >>= λ p.
    drop_old_context w p (record c { plugin = some at }) >>= λ r.
    be_plugin_context_init p env.memory r.0.heap >>= λ made.
    done (give_context r.0 r.1 message made)

-- The match is the first thing that is written to the card.
unfoldable pub hello_found : Env → World → BeCardInner → Bytes → Option (ℕ × ℕ) → Outcome Reply
hello_found env w c message none =
    done (record { status = failure; card = record c { plugin = none }; world = w })
hello_found env w c message (some at) = hello_matched env w c message at

unfoldable pub hello_message_handle : Env → World → BeCardInner → Bytes → Outcome Reply
hello_message_handle env w c message =
    if ltb hostname_size (length message)
    then done (record { status = failure; card = c; world = w })
    else be_plugin_match w.plugins c.card >>= λ found. hello_found env w c message found

-- The backend that the context designates.
unfoldable pub backend : World → AccContext → Outcome RuleFuncs
backend w context = elim context.be [
  | none ↦ crash null_access
  | some i ↦ elim (get_elem? w.rule_bes i) [
    | none ↦ crash out_of_bounds
    | some e ↦ elim e.funcs [ none ↦ crash null_call | some f ↦ done f ]
  ]
]

unfoldable pub acc_add_rules :
    RuleFuncs → Env → AccContext → ℕ → Bytes → OvsState → Status × OvsState
acc_add_rules ovs env context n message s =
    acc_ovs_add_rules env.host context (bytes_flows n message) env.for_rules s

unfoldable pub add_flows_message_handle : Env → World → BeCardInner → Bytes → Outcome Reply
unfolding backend acc_add_rules
add_flows_message_handle env w c message =
    let n_flows = length message / flow_size in
    if n_flows * flow_size == length message
    then elim c.context [
      | none ↦ crash assertion
      | some context ↦ backend w context >>= λ f.
          let (status, s) = acc_add_rules f env context n_flows message w.switch in
          done (record { status = status; card = c; world = record w { switch = s } })
    ]
    else done (record { status = failure; card = c; world = w })

unfoldable pub acc_flush_rules : RuleFuncs → Env → AccContext → OvsState → OvsState
acc_flush_rules ovs env context s = (acc_ovs_flush_rules env.host context s).1

-- The context is freed here, and not by the plugin.
unfoldable pub be_acc_flush_rules : Env → World → BeCardInner → Outcome (World × BeCardInner)
unfolding backend acc_flush_rules acc_context_destory
be_acc_flush_rules env w c = elim c.context [
  | none ↦ crash assertion
  | some context ↦ backend w context >>= λ f. done (
    record w { switch = acc_flush_rules f env context w.switch; heap = acc_context_destory w.heap },
    record c { plugin = none; context = none },
  )
]

unfoldable pub disconnect_message_handle : Env → World → BeCardInner → Outcome Reply
unfolding be_acc_flush_rules
disconnect_message_handle env w c =
    be_acc_flush_rules env w c >>= λ r. done (record { status = success; card = r.1; world = r.0 })

-- `s_msg_handle` has 10 entries, of which `acc_unix_server_msg_init` fills three. `type` is a
-- 32-bit pattern; a negative one is an index outside the array, too.
unfoldable pub be_acc_message_process : Env → World → BeCardInner → ℕ → Bytes → Outcome Reply
unfolding hello_message_handle add_flows_message_handle disconnect_message_handle
be_acc_message_process env w c type message =
    if leb acc_unix_max_type type
    then crash out_of_bounds
    else if type == acc_unix_hello
    then hello_message_handle env w c message
    else if type == acc_unix_add_flows
    then add_flows_message_handle env w c message
    else if type == acc_unix_disconnect
    then disconnect_message_handle env w c
    else crash null_call
