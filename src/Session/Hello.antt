-- ===== src/Session/Hello.antt =====
-- What a HELLO of message/be_acc_msg.c gives a card.
use be_la.Prelude.{
  ℕ, ◌+◌, ◌≤◌, ◌≡◌, refl, ◌∙◌, ap, true, Bytes, Option, none, some, success, done, length, c_str,
  codes, drop, ltb-false,
}
use be_la.Context.{AccContext, hostname_size, bridge_size, blank_context}
use be_la.Cards.{BeCardInner}
use be_la.Plugin.{AccPlugin, be_plugin_match}
use be_la.Plugin.Drivers.{
  Driver, netronome, intel_qat, liquidio, Heap, Memory, context_init, attach_remote,
  acc_context_alloc, be_plugin_context_init, liquidio_remote,
}
use be_la.Session.{World}
use be_la.Session.Names.{hello-bridge}
use be_la.Session.Handlers.{
  Env, Reply, plugin_at, give_context, filled, hello_matched, hello_found, hello_message_handle,
  be_acc_message_process,
}
use be_la.Session.Lifecycle.{init_driver, drop_none}
use be_la.Wire.{acc_unix_hello}

abbrev enough : Memory
enough = record { for_remote = true; for_context = true }

-- With memory every driver makes a context with zeroed names.
init_gives :
    (d : Driver) (h : Heap)
    → (x : AccContext) × (h' : Heap) × (context_init d enough h ≡ (some x, h'))
      × (x.names ≡ blank_context.names)
      × (h'.live_contexts ≡ h.live_contexts + 1)
unfolding context_init acc_context_alloc attach_remote
init_gives netronome h =
    (blank_context, record h { live_contexts = h.live_contexts + 1 }, refl, refl, refl)
init_gives intel_qat h =
    (blank_context, record h { live_contexts = h.live_contexts + 1 }, refl, refl, refl)
init_gives liquidio h = (
  record blank_context { ssh_remote = some liquidio_remote },
  record { live_contexts = h.live_contexts + 1; live_remotes = h.live_remotes + 1 },
  refl,
  refl,
  refl,
)

-- A HELLO of at most 256 bytes, on a card that had no context and whose entry in the plugin table
-- matches and has functions, with memory there, returns 0 and gives the card a context: its names
-- fill their arrays, its bridge is "br0", its cookie is the counter's value, and one more live
-- context is counted.
pub hello_gives :
    (env : Env) (w : World) (c : BeCardInner) (message : Bytes) (at : ℕ × ℕ) (p : AccPlugin Driver)
    (d : Driver)
    → length message ≤ hostname_size
    → be_plugin_match w.plugins c.card ≡ done (some at)
    → plugin_at w at ≡ done p
    → p.funcs ≡ some d
    → c.context ≡ none
    → env.memory ≡ record { for_remote = true; for_context = true }
    → (r : Reply) × (x : AccContext) × (be_acc_message_process env w c acc_unix_hello message
        ≡ done r)
      × (r.status ≡ success)
      × (r.card.context ≡ some x)
      × (length x.names ≡ hostname_size + bridge_size)
      × (c_str (drop hostname_size x.names) ≡ codes "br0")
      × (x.hostid ≡ w.context_host_id)
      × (r.world.heap.live_contexts ≡ w.heap.live_contexts + 1)
unfolding be_acc_message_process hello_message_handle hello_found hello_matched give_context
hello_gives env w c message at p d short match here drv fresh mem =
    let (made, h, e, names, counts) = init_gives d w.heap in
    let c' = record c { plugin = some at } in
    let new : Option AccContext × Heap = (some made, h) in
    let init : be_plugin_context_init p env.memory w.heap ≡ done new =
      init_driver p env.memory w.heap d drv ∙ rw mem (ap done e) in
    let (size, bridge) = hello-bridge message (length message) made.names short (ap length names) in
    (
      give_context w c' message new,
      filled w message made,
      rw (ltb-false hostname_size (length message) short, match, here, drop_none w p c' fresh, init)
          refl,
      refl,
      refl,
      size,
      bridge,
      refl,
      counts,
    )
