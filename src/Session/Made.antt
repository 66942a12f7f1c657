-- ===== src/Session/Made.antt =====
-- What `hello_message_handle` of message/be_acc_msg.c does to a card's old context and its new one.
use be_la.Prelude.{
  ◌-◌, ◌≤◌, ◌≡◌, ◌≢◌, refl, sym, ◌∙◌, ap, subst, Bool, true, false, Bytes, Option, none, some, done,
  ◌==◌, length, codes, arith, ◌⊎◌, inl, inr, Bool-cases, Option-cases, get_elem?, bit_and,
}
use be_la.Context.{AccContext, hostname_size, blank_context}
use be_la.Vendor.{AccCard}
use be_la.Cards.{BeCardInner}
use be_la.Plugin.{AccPlugin, be_plugin_match, slot_of, checked}
use be_la.Plugin.Drivers.{
  Driver, netronome, intel_qat, liquidio, Heap, Memory, context_init, context_destroy, free_remote,
  acc_context_alloc, acc_context_destory, attach_remote, liquidio_remote,
}
use be_la.Session.{World}
use be_la.Session.Names.{hello-bridge}
use be_la.Session.Handlers.{Reply, drop_old_context, filled, give_context}
use be_la.Session.Lifecycle.{destory_driver}
use be_la.RuleBe.{acc_get_rule_be_by_name}
use be_la.Session.Ready.{Setup, HasBackend, HasDriver, RemoteOf, OptionReady, CardReady, WorldReady}

pub none-some {ℓ} : {A : Type ℓ} {a : A} → none ≢ some a
none-some e = ground arith

pub some_inj {ℓ} : {A : Type ℓ} {a b : A} → some a ≡ some b → a ≡ b
some_inj e = ground arith

-- A destructor returns on a context that its driver made.
destroy_returns :
    (d : Driver) (x : AccContext) (h : Heap)
    → RemoteOf d x
    → (h' : Heap) × (context_destroy d x h ≡ done h')
unfolding context_destroy free_remote
destroy_returns netronome x h r = (acc_context_destory h, refl)
destroy_returns intel_qat x h r = (acc_context_destory h, refl)
destroy_returns liquidio x h (r, e) =
    (acc_context_destory (record h { live_remotes = h.live_remotes - 1 }), rw e refl)

-- A new context, if any, is as its driver expects it, with zeroed names.
abbrev Fresh : Driver → Option AccContext → Type 0
Fresh d none = Unit {0}
Fresh d (some x) = (x.names ≡ blank_context.names) × RemoteOf d x

alloc-Fresh :
    (b : Bool) (m : Memory) (h : Heap)
    → m.for_context ≡ b
    → Fresh netronome (acc_context_alloc m h).0
unfolding acc_context_alloc
alloc-Fresh true m h q = rw q (refl, tt)
alloc-Fresh false m h q = rw q tt

pub init-Fresh : (d : Driver) (m : Memory) (h : Heap) → Fresh d (context_init d m h).0
unfolding context_init acc_context_alloc attach_remote
init-Fresh netronome m h = alloc-Fresh m.for_context m h refl
init-Fresh intel_qat m h = alloc-Fresh m.for_context m h refl
init-Fresh liquidio m h = go m.for_remote m.for_context refl refl
  where
    go :
        (a b : Bool)
        → m.for_remote ≡ a
        → m.for_context ≡ b
        → Fresh liquidio (context_init liquidio m h).0
    go false b q r = rw q tt
    go true false q r = rw (q, r) tt
    go true true q r = rw (q, r) (refl, (liquidio_remote, refl))

RemoteOf-filled :
    (d : Driver) (w : World) (message : Bytes) (x : AccContext)
    → RemoteOf d x
    → RemoteOf d (filled w message x)
RemoteOf-filled netronome w message x r = r
RemoteOf-filled intel_qat w message x r = r
RemoteOf-filled liquidio w message x r = r

pub match_returns :
    (s : Setup) (w : World) (card : AccCard)
    → WorldReady s w
    → HasDriver s card
    → (be_plugin_match w.plugins card ≡ done none)
      ⊎ (be_plugin_match w.plugins card ≡ done (some (card.vendor, card.model)))
unfolding be_plugin_match checked
match_returns s w card ready drv =
    let here =
      ap (λ t. get_elem? t (slot_of card.vendor card.model)) ready.plugins_are ∙ drv.there in
    elim (Bool-cases (bit_and drv.entry.acc_type card.acc_type == card.acc_type)) [
      | inl q ↦ inr (rw (here, q) refl)
      | inr q ↦ inl (rw (here, q) refl)
    ]

-- What the end of an old context leaves.
abbrev Dropped : World → BeCardInner → World × BeCardInner → Type 0
Dropped w c r =
    (r.0.plugins ≡ w.plugins)
    × (r.0.rule_bes ≡ w.rule_bes)
    × (r.1.addr ≡ c.addr)
    × (r.1.card ≡ c.card)
    × (r.1.context ≡ none)

pub drop_returns :
    (w : World) (p : AccPlugin Driver) (c : BeCardInner) (d : Driver)
    → p.funcs ≡ some d
    → ((x : AccContext) → c.context ≡ some x → RemoteOf d x)
    → (r : World × BeCardInner) × (drop_old_context w p c ≡ done r) × Dropped w c r
unfolding drop_old_context
drop_returns w p c d f old = elim (Option-cases c.context) [
  | inl q ↦ ((w, c), rw q refl, (refl, refl, refl, refl, q))
  | inr (x, q) ↦
      let (h, e) = destroy_returns d x w.heap (old x q) in
      (
        (record w { heap = h }, record c { context = none }),
        rw (q, destory_driver p x w.heap d f, e) refl,
        (refl, refl, refl, refl, refl),
      )
]

-- A handler leaves the tables and the card ready, and the card the object and the card it was.
abbrev pub Left : Setup → BeCardInner → Reply → Type 0
Left s c r =
    WorldReady s r.world × CardReady s r.card × (r.card.addr ≡ c.addr) × (r.card.card ≡ c.card)

-- A context that a HELLO makes is ready, and so is a card that gets none.
pub give_ready :
    (s : Setup) (w : World) (c : BeCardInner) (message : Bytes) (made : Option AccContext × Heap)
    (drv : HasDriver s c.card)
    → length message ≤ hostname_size
    → WorldReady s w
    → HasBackend s
    → c.context ≡ none
    → Fresh drv.driver made.0
    → Left s c (give_context w c message made)
unfolding give_context
give_ready s w c message (none, h) drv short ready back gone fresh = (
  record { plugins_are = ready.plugins_are; rule_bes_are = ready.rule_bes_are },
  subst (OptionReady s c.card) (sym gone) tt,
  refl,
  refl,
)
give_ready s w c message (some x, h) drv short ready back gone fresh = (
  record { plugins_are = ready.plugins_are; rule_bes_are = ready.rule_bes_are },
  record {
    backend_is =
        ap (λ t. acc_get_rule_be_by_name t (codes "ovs-rule")) ready.rule_bes_are ∙ back.found;
    names_fit = (hello-bridge message (length message) x.names short (ap length fresh.0)).0;
    by_driver = drv;
    remote = RemoteOf-filled drv.driver w message x fresh.1;
  },
  refl,
  refl,
)
