-- ===== src/Startup/Order.antt =====
-- common/be_module.h: what the functions of `module_init` leave, in every order in which the linker
-- may put those of one level.
use be_la.Prelude.{
  ℕ, zero, suc, bytes_eq, ◌<◌, ◌⊎◌, ◌↔◌, inl, inr, length, ◌==◌, Bool-cases, ◌≡◌, refl, sym, ◌∙◌,
  ap, none, some, List, [], ◌∷◌, done, replicate, set, get_elem?, arith,
}
use be_la.Vendor.{
  AccCard, vendor_netronome, vendor_intel, vendor_cavium, agilio_isa_4000, qat_dh8950, liquidio_ii,
  model_max,
}
use be_la.Plugin.Table.{entry-set}
use be_la.Session.Made.{some_inj, none-some}
use be_la.Plugin.{
  AccPlugin, blank_plugin, blank_plugins, be_plugin_register, be_plugin_is_registed, be_plugin_init,
  store_plugin, checked, has_funcs, slot_of,
}
use be_la.Plugin.Drivers.{
  Driver, driver_init, netronome, intel_qat, liquidio, s_netronome_plugin, s_intel_qat_plugin,
  s_liquidio_plugin,
}
use be_la.RuleBe.{
  acc_rule_be_register, blank_registry, get_rule_be_by_name, acc_get_rule_be_by_name,
}
use be_la.Session.{ovs}
use be_la.Session.Ready.{Setup, HasBackend, HasDriver}
use be_la.Session.Dispatch.{acc_unix_server_msg_init, hello, add_flows, disconnect}
use be_la.Startup.{
  Globals, blank_globals, Module, ovs_rules, server_messages, plugin, acc_rule_ovs,
  acc_ovs_rule_be_register, run_function, module_init, start,
}

abbrev pub netronome_module : Module
netronome_module = plugin netronome s_netronome_plugin

abbrev pub intel_qat_module : Module
intel_qat_module = plugin intel_qat s_intel_qat_plugin

abbrev pub liquidio_module : Module
liquidio_module = plugin liquidio s_liquidio_plugin

-- The orders of the three registrations of level 10.
pub data LinkOrder : List Module → Type 0 where
  order_nil : LinkOrder (netronome_module ∷ intel_qat_module ∷ liquidio_module ∷ [])
  order_nli : LinkOrder (netronome_module ∷ liquidio_module ∷ intel_qat_module ∷ [])
  order_inl : LinkOrder (intel_qat_module ∷ netronome_module ∷ liquidio_module ∷ [])
  order_iln : LinkOrder (intel_qat_module ∷ liquidio_module ∷ netronome_module ∷ [])
  order_lni : LinkOrder (liquidio_module ∷ netronome_module ∷ intel_qat_module ∷ [])
  order_lin : LinkOrder (liquidio_module ∷ intel_qat_module ∷ netronome_module ∷ [])

-- What `main` finds.
abbrev pub started : Globals
started = record {
  rule_bes = set blank_registry 0 acc_rule_ovs;
  handlers = none ∷ some hello ∷ some add_flows ∷ some disconnect ∷ replicate 6 none;
  plugins =
      set (set (set blank_plugins 8 s_netronome_plugin) 26 s_intel_qat_plugin) 34 s_liquidio_plugin;
}

-- The three registrations write different entries, so that their order does not matter.
pub start-started :
    (plugins : List Module)
    → LinkOrder plugins
    → start (ovs_rules ∷ server_messages ∷ plugins) blank_globals ≡ done (some started)
unfolding start module_init run_function acc_ovs_rule_be_register acc_unix_server_msg_init
    be_plugin_register driver_init acc_rule_be_register get_rule_be_by_name be_plugin_is_registed
    checked has_funcs store_plugin be_plugin_init
start-started _ order_nil = refl
start-started _ order_nli = refl
start-started _ order_inl = refl
start-started _ order_iln = refl
start-started _ order_lni = refl
start-started _ order_lin = refl

abbrev pub setup_of : Globals → Setup
setup_of g = record { plugins = g.plugins; rule_bes = g.rule_bes; ovs_at = 0 }

pub started-HasBackend : HasBackend (setup_of started)
unfolding acc_get_rule_be_by_name get_rule_be_by_name bytes_eq
started-HasBackend = record {
  found = refl;
  entry = acc_rule_ovs;
  there = refl;
  funcs = ovs;
  has_funcs = refl;
}

replicate-all :
    (n i : ℕ) (e : AccPlugin Driver)
    → get_elem? (replicate n blank_plugin) i ≡ some e
    → e ≡ blank_plugin
replicate-all zero i e h = ground arith
replicate-all (suc n) zero e h = sym (some_inj h)
replicate-all (suc n) (suc i) e h = replicate-all n i e h

-- An entry with functions behind a write is the written one or was there.
written_driver :
    (t : List (AccPlugin Driver)) (at i : ℕ) (p e : AccPlugin Driver)
    → at < length t
    → get_elem? (set t at p) i ≡ some e
    → (at ≡ i) ⊎ (get_elem? t i ≡ some e)
written_driver t at i p e in_range h = elim (Bool-cases (at == i)) [
  | inl q ↦ inl (ground arith)
  | inr q ↦ inr (rw q at (sym (entry-set t at i p in_range) ∙ h))
]

abbrev with_netronome : List (AccPlugin Driver)
with_netronome = set blank_plugins 8 s_netronome_plugin

abbrev with_intel_qat : List (AccPlugin Driver)
with_intel_qat = set with_netronome 26 s_intel_qat_plugin

driver_entries :
    (i : ℕ) (e : AccPlugin Driver) (d : Driver)
    → get_elem? started.plugins i ≡ some e
    → e.funcs ≡ some d
    → (i ≡ 8) ⊎ ((i ≡ 26) ⊎ (i ≡ 34))
driver_entries i e d h f =
    elim (written_driver with_intel_qat 34 i s_liquidio_plugin e (omega arith) h) [
      | inl q ↦ inr (inr (sym q))
      | inr h₁ ↦ elim (written_driver with_netronome 26 i s_intel_qat_plugin e (omega arith) h₁) [
        | inl q ↦ inr (inl (sym q))
        | inr h₂ ↦ elim (written_driver blank_plugins 8 i s_netronome_plugin e (omega arith) h₂) [
          | inl q ↦ inl (sym q)
          | inr h₃ ↦ absurd (
              none-some
                (sym (ap (λ (p : AccPlugin Driver). p.funcs) (replicate-all 42 i e h₃)) ∙ f))
        ]
      ]
    ]

-- The cards that the program has a driver for.
pub data Served (card : AccCard) : Type 0 where
  agilio : card.vendor ≡ vendor_netronome → card.model ≡ agilio_isa_4000 → Served card
  qat : card.vendor ≡ vendor_intel → card.model ≡ qat_dh8950 → Served card
  liquid : card.vendor ≡ vendor_cavium → card.model ≡ liquidio_ii → Served card

at_slot :
    (card : AccCard) (i : ℕ) (e : AccPlugin Driver)
    → slot_of card.vendor card.model ≡ i
    → get_elem? started.plugins i ≡ some e
    → get_elem? started.plugins (slot_of card.vendor card.model) ≡ some e
at_slot card i e q h = ap (get_elem? started.plugins) q ∙ h

Served-HasDriver : (card : AccCard) → Served card → HasDriver (setup_of started) card
Served-HasDriver card (agilio v m) = record {
  entry = s_netronome_plugin;
  there = at_slot card 8 s_netronome_plugin (omega arith) refl;
  driver = netronome;
  has_funcs = refl;
}
Served-HasDriver card (qat v m) = record {
  entry = s_intel_qat_plugin;
  there = at_slot card 26 s_intel_qat_plugin (omega arith) refl;
  driver = intel_qat;
  has_funcs = refl;
}
Served-HasDriver card (liquid v m) = record {
  entry = s_liquidio_plugin;
  there = at_slot card 34 s_liquidio_plugin (omega arith) refl;
  driver = liquidio;
  has_funcs = refl;
}

HasDriver-Served :
    (card : AccCard) → card.model < model_max → HasDriver (setup_of started) card → Served card
HasDriver-Served card small drv =
    elim (driver_entries (slot_of card.vendor card.model) drv.entry drv.driver drv.there
      drv.has_funcs) [
        | inl q ↦ agilio (omega arith) (omega arith)
        | inr (inl q) ↦ qat (omega arith) (omega arith)
        | inr (inr q) ↦ liquid (omega arith) (omega arith)
      ]

-- In every order of the three plugins' registrations, behind those of the rule backend and of the
-- message handlers, no registration fails and the program reaches `main`; the handlers stand as
-- `acc_unix_server_msg_init` puts them, the backend that HELLO looks up is there with its
-- functions, and a card whose model is in range has a driver exactly when it is an Agilio ISA 4000
-- of Netronome, a QAT DH8950 of Intel or a LiquidIO II of Cavium.
pub start-Served :
    (plugins : List Module) (card : AccCard)
    → LinkOrder plugins
    → card.model < model_max
    → (g : Globals) × (start (ovs_rules ∷ server_messages ∷ plugins) blank_globals ≡ done (some g))
      × (g.handlers ≡ (acc_unix_server_msg_init blank_globals.handlers).1)
      × HasBackend (setup_of g)
      × (HasDriver (setup_of g) card ↔ Served card)
unfolding acc_unix_server_msg_init
start-Served plugins card order small = (
  started,
  start-started plugins order,
  refl,
  started-HasBackend,
  (HasDriver-Served card small, Served-HasDriver card),
)
