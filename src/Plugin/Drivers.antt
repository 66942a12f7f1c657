-- ===== src/Plugin/Drivers.antt =====
-- plugins/netronome, plugins/intel_qat and plugins/cavium: the functions of the three drivers, and
-- the plugins that their `module_init` lines register.
use be_la.Prelude.{
  ℕ, ◌+◌, ◌-◌, Bool, Option, none, some, Status, success, Outcome, done, crash, assertion,
  null_call, ◌>>=◌, codes, if◌then◌else◌, bit_or,
}
use be_la.Vendor.{
  vendor_netronome, vendor_intel, vendor_cavium, agilio_isa_4000, qat_dh8950, liquidio_ii,
  acc_type_flow, acc_type_crypto, acc_type_decrypto, acc_type_compress, acc_type_uncompress,
}
use be_la.Context.{AccContext, SshRemote, blank_context}
use be_la.Plugin.{AccPlugin}

-- Which driver's functions the pointers of a plugin designate.
pub data Driver : Type 0 where
  netronome intel_qat liquidio : Driver

-- The allocations that are live: contexts, and remote shells of contexts.
pub record Heap : Type 0 where
  pub live_contexts : ℕ
  pub live_remotes : ℕ

-- What the calls of `malloc` return in one event.
pub record Memory : Type 0 where
  pub for_remote : Bool
  pub for_context : Bool

-- `acc_context_alloc`
unfoldable pub acc_context_alloc : Memory → Heap → Option AccContext × Heap
acc_context_alloc m h =
    if m.for_context
    then (some blank_context, record h { live_contexts = h.live_contexts + 1 })
    else (none, h)

-- `acc_context_destory`
unfoldable pub acc_context_destory : Heap → Heap
acc_context_destory h = record h { live_contexts = h.live_contexts - 1 }

abbrev pub liquidio_remote : SshRemote
liquidio_remote = record {
  remote_ip = codes "169.254.1.1";
  username = codes "root";
  password = codes "liquidio";
  port = 22;
}

unfoldable pub attach_remote : Option AccContext × Heap → Option AccContext × Heap
attach_remote (none, h) = (none, record h { live_remotes = h.live_remotes - 1 })
attach_remote (some c, h) = (some (record c { ssh_remote = some liquidio_remote }), h)

unfoldable pub context_init : Driver → Memory → Heap → Option AccContext × Heap
unfolding acc_context_alloc attach_remote
context_init netronome m h = acc_context_alloc m h
context_init intel_qat m h = acc_context_alloc m h
context_init liquidio m h =
    if m.for_remote
    then attach_remote (acc_context_alloc m (record h { live_remotes = h.live_remotes + 1 }))
    else (none, h)

unfoldable pub free_remote : Option SshRemote → Heap → Outcome Heap
free_remote none h = crash assertion
free_remote (some r) h = done (record h { live_remotes = h.live_remotes - 1 })

-- The context is that of the card, which the callers have tested.
unfoldable pub context_destroy : Driver → AccContext → Heap → Outcome Heap
unfolding acc_context_destory free_remote
context_destroy netronome c h = done (acc_context_destory h)
context_destroy intel_qat c h = done (acc_context_destory h)
context_destroy liquidio c h = free_remote c.ssh_remote h >>= λ h'. done (acc_context_destory h')

-- `be_plugin_context_init` and `be_plugin_context_destory`: calls through the plugin's pointers.
unfoldable pub be_plugin_context_init :
    AccPlugin Driver → Memory → Heap → Outcome (Option AccContext × Heap)
unfolding context_init
be_plugin_context_init p m h = elim p.funcs [
  | none ↦ crash null_call
  | some d ↦ done (context_init d m h)
]

unfoldable pub be_plugin_context_destory : AccPlugin Driver → AccContext → Heap → Outcome Heap
unfolding context_destroy
be_plugin_context_destory p c h = elim p.funcs [
  | none ↦ crash null_call
  | some d ↦ context_destroy d c h
]

abbrev pub s_netronome_plugin : AccPlugin Driver
s_netronome_plugin = record {
  funcs = some netronome;
  name = codes "netronome plugin";
  vendor = vendor_netronome;
  model = agilio_isa_4000;
  acc_type = bit_or acc_type_flow acc_type_compress;
}

abbrev pub s_intel_qat_plugin : AccPlugin Driver
s_intel_qat_plugin = record {
  funcs = some intel_qat;
  name = codes "Intel QAT plugin";
  vendor = vendor_intel;
  model = qat_dh8950;
  acc_type =
      bit_or (bit_or (bit_or acc_type_crypto acc_type_decrypto) acc_type_compress)
        acc_type_uncompress;
}

abbrev pub s_liquidio_plugin : AccPlugin Driver
s_liquidio_plugin = record {
  funcs = some liquidio;
  name = codes "Cavium LiquidIO II plugin";
  vendor = vendor_cavium;
  model = liquidio_ii;
  acc_type = acc_type_flow;
}

-- The `init` and `destroy` functions of the three drivers.
unfoldable pub driver_init : Driver → Status
driver_init netronome = success
driver_init intel_qat = success
driver_init liquidio = success

unfoldable pub driver_destroy : Driver → Status
driver_destroy netronome = success
driver_destroy intel_qat = success
driver_destroy liquidio = success
