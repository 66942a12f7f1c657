-- ===== src/Session/Ready.antt =====
-- What the handlers of message/be_acc_msg.c rely on: the plugins and the rule backends that are
-- registered before `main`, and contexts that were made with them.
use be_la.Prelude.{ℕ, ◌+◌, ◌≡◌, ◌≢◌, ◌⊎◌, Option, none, some, List, codes, length, get_elem?}
use be_la.Context.{AccContext, SshRemote, hostname_size, bridge_size}
use be_la.Vendor.{AccCard}
use be_la.Cards.{BeCardInner}
use be_la.Plugin.{AccPlugin, slot_of}
use be_la.Plugin.Drivers.{Driver, netronome, intel_qat, liquidio}
use be_la.RuleBe.{AccRuleBe, acc_get_rule_be_by_name}
use be_la.Session.{World, RuleFuncs}
use be_la.Wire.{acc_unix_hello, acc_unix_add_flows, acc_unix_disconnect}

-- The two tables, which no message changes, and where the backend of the contexts stands.
pub record Setup : Type 0 where
  pub plugins : List (AccPlugin Driver)
  pub rule_bes : List (AccRuleBe RuleFuncs)
  pub ovs_at : ℕ

-- The backend that HELLO looks up is there, with its functions.
pub record HasBackend (s : Setup) : Type 0 where
  pub found : acc_get_rule_be_by_name s.rule_bes (codes "ovs-rule") ≡ some s.ovs_at
  pub entry : AccRuleBe RuleFuncs
  pub there : get_elem? s.rule_bes s.ovs_at ≡ some entry
  pub funcs : RuleFuncs
  pub has_funcs : entry.funcs ≡ some funcs

-- The entry of the card's vendor and model has the functions of a driver.
pub record HasDriver (s : Setup) (card : AccCard) : Type 0 where
  pub entry : AccPlugin Driver
  pub there : get_elem? s.plugins (slot_of card.vendor card.model) ≡ some entry
  pub driver : Driver
  pub has_funcs : entry.funcs ≡ some driver

-- What a driver expects of the contexts that it made.
abbrev pub RemoteOf : Driver → AccContext → Type 0
RemoteOf netronome x = Unit {0}
RemoteOf intel_qat x = Unit {0}
RemoteOf liquidio x = (r : SshRemote) × (x.ssh_remote ≡ some r)

pub record ContextReady (s : Setup) (card : AccCard) (x : AccContext) : Type 0 where
  pub backend_is : x.be ≡ some s.ovs_at
  pub names_fit : length x.names ≡ hostname_size + bridge_size
  pub by_driver : HasDriver s card
  pub remote : RemoteOf by_driver.driver x

abbrev pub OptionReady : Setup → AccCard → Option AccContext → Type 0
OptionReady s card none = Unit {0}
OptionReady s card (some x) = ContextReady s card x

abbrev pub CardReady : Setup → BeCardInner → Type 0
CardReady s c = OptionReady s c.card c.context

pub record WorldReady (s : Setup) (w : World) : Type 0 where
  pub plugins_are : w.plugins ≡ s.plugins
  pub rule_bes_are : w.rule_bes ≡ s.rule_bes

-- The messages that a guest may send: a HELLO when the card's entry has a driver; flows or a
-- DISCONNECT when the card has a context.
abbrev pub Allowed : Setup → BeCardInner → ℕ → Type 0
Allowed s c type =
    ((type ≡ acc_unix_hello) × HasDriver s c.card)
    ⊎ (((type ≡ acc_unix_add_flows) × (c.context ≢ none))
        ⊎ ((type ≡ acc_unix_disconnect) × (c.context ≢ none)))
