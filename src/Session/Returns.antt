-- ===== src/Session/Returns.antt =====
-- The handlers of message/be_acc_msg.c return, for every message that a guest may send.
use be_la.Prelude.{
  ℕ, ◌*◌, ◌/◌, ◌≤◌, ◌≡◌, ◌≢◌, refl, sym, ◌∙◌, ap, subst, true, Bytes, none, some, success, failure,
  Outcome, done, ◌==◌, length, ltb, arith, inl, inr, Bool-cases, Option-cases, get_elem?,
}
use be_la.Context.{AccContext, hostname_size}
use be_la.Vendor.{AccCard}
use be_la.Cards.{BeCardInner}
use be_la.Plugin.{slot_of, checked}
use be_la.Plugin.Drivers.{context_init, acc_context_destory}
use be_la.Session.{World, RuleFuncs, flow_size}
use be_la.Session.Handlers.{
  Env, Reply, plugin_at, give_context, hello_matched, hello_found, hello_message_handle, backend,
  acc_add_rules, acc_flush_rules, add_flows_message_handle, be_acc_flush_rules,
  disconnect_message_handle, be_acc_message_process,
}
use be_la.Session.Lifecycle.{init_driver}
use be_la.Session.Made.{
  Left, init-Fresh, drop_returns, match_returns, give_ready, none-some, some_inj,
}
use be_la.Session.Ready.{
  Setup, HasBackend, HasDriver, RemoteOf, ContextReady, OptionReady, CardReady, WorldReady, Allowed,
}

-- What every handler comes to.
abbrev Replies : Setup → BeCardInner → Outcome Reply → Type 0
Replies s c o = (r : Reply) × (o ≡ done r) × Left s c r

abbrev same_driver : (s : Setup) (a b : AccCard) → a ≡ b → HasDriver s b → HasDriver s a
same_driver s a b e drv = record {
  entry = drv.entry;
  there = ap (λ (k : AccCard). get_elem? s.plugins (slot_of k.vendor k.model)) e ∙ drv.there;
  driver = drv.driver;
  has_funcs = drv.has_funcs;
}

abbrev entry_at : BeCardInner → ℕ × ℕ
entry_at c = (c.card.vendor, c.card.model)

matched_returns :
    (s : Setup) (env : Env) (w : World) (c : BeCardInner) (message : Bytes)
    (drv : HasDriver s c.card)
    → length message ≤ hostname_size
    → WorldReady s w
    → HasBackend s
    → ((x : AccContext) → c.context ≡ some x → RemoteOf drv.driver x)
    → Replies s c (hello_matched env w c message (entry_at c))
unfolding hello_matched checked
matched_returns s env w c message drv short ready back old =
    let here : plugin_at w (entry_at c) ≡ done drv.entry =
      ap (λ t. checked (get_elem? t (slot_of c.card.vendor c.card.model))) ready.plugins_are
      ∙ ap checked drv.there in
    let c' = record c { plugin = some (entry_at c) } in
    let (r, e, (plugins, bes, addr, card, gone)) =
      drop_returns w drv.entry c' drv.driver drv.has_funcs old in
    let made = context_init drv.driver env.memory r.0.heap in
    let drv' : HasDriver s r.1.card = same_driver s r.1.card c.card card drv in
    (
      give_context r.0 r.1 message made,
      rw (here, e, init_driver drv.entry env.memory r.0.heap drv.driver drv.has_funcs) refl,
      let (world, at, addr', card') =
            give_ready s r.0 r.1 message made drv' short
              (record {
                plugins_are = plugins ∙ ready.plugins_are;
                rule_bes_are = bes ∙ ready.rule_bes_are;
              })
              back gone (init-Fresh drv.driver env.memory r.0.heap) in
          (world, at, addr' ∙ addr, card' ∙ card),
    )

found_returns :
    (s : Setup) (env : Env) (w : World) (c : BeCardInner) (message : Bytes)
    (drv : HasDriver s c.card)
    → WorldReady s w
    → HasBackend s
    → CardReady s c
    → ((x : AccContext) → c.context ≡ some x → RemoteOf drv.driver x)
    → Replies s c (hello_message_handle env w c message)
unfolding hello_message_handle hello_found
found_returns s env w c message drv ready back card old =
    elim (Bool-cases (ltb hostname_size (length message))) [
      | inl q ↦
          (record { status = failure; card = c; world = w }, rw q refl, (ready, card, refl, refl))
      | inr q ↦ elim (match_returns s w c.card ready drv) [
        | inl none_there ↦ (
          record { status = failure; card = record c { plugin = none }; world = w },
          rw (q, none_there) refl,
          (ready, card, refl, refl),
        )
        | inr there ↦
            let (r, e, left) =
              matched_returns s env w c message drv (ground arith) ready back old in
            (r, rw (q, there) e, left)
      ]
    ]

hello_returns :
    (s : Setup) (env : Env) (w : World) (c : BeCardInner) (message : Bytes)
    → HasDriver s c.card
    → WorldReady s w
    → HasBackend s
    → CardReady s c
    → Replies s c (hello_message_handle env w c message)
hello_returns s env w c message drv ready back card = elim (Option-cases c.context) [
  | inl q ↦
      found_returns s env w c message drv ready back card (λ x e. absurd (none-some (sym q ∙ e)))
  | inr (x, q) ↦
      let k : ContextReady s c.card x = subst (OptionReady s c.card) q card in
      found_returns s env w c message k.by_driver ready back card
        (λ y e. subst (RemoteOf k.by_driver.driver) (some_inj (sym q ∙ e)) k.remote)
]

-- The card's context, and the functions of its backend.
backend_returns :
    (s : Setup) (w : World) (c : BeCardInner)
    → WorldReady s w
    → HasBackend s
    → CardReady s c
    → c.context ≢ none
    → (x : AccContext) × (c.context ≡ some x) × ((f : RuleFuncs) × (backend w x ≡ done f))
unfolding backend
backend_returns s w c ready back card there = elim (Option-cases c.context) [
  | inl q ↦ absurd (there q)
  | inr (x, q) ↦
      let k : ContextReady s c.card x = subst (OptionReady s c.card) q card in
      let at : get_elem? w.rule_bes s.ovs_at ≡ some back.entry =
        ap (λ t. get_elem? t s.ovs_at) ready.rule_bes_are ∙ back.there in
      (x, q, (back.funcs, rw (k.backend_is, backend, at, back.has_funcs) refl))
]

abbrev added : Env → World → BeCardInner → Bytes → AccContext → RuleFuncs → Reply
added env w c message x f =
    let (status, switch) = acc_add_rules f env x (length message / flow_size) message w.switch in
    record { status = status; card = c; world = record w { switch = switch } }

add_flows_done :
    (env : Env) (w : World) (c : BeCardInner) (message : Bytes) (x : AccContext) (f : RuleFuncs)
    (r : Reply)
    → added env w c message x f ≡ r
    → ((length message / flow_size) * flow_size == length message) ≡ true
    → c.context ≡ some x
    → backend w x ≡ done f
    → add_flows_message_handle env w c message ≡ done r
unfolding add_flows_message_handle
add_flows_done env w c message x f r k q e b = rw (q, add_flows_message_handle, e, b) (ap done k)

add_flows_returns :
    (s : Setup) (env : Env) (w : World) (c : BeCardInner) (message : Bytes)
    → WorldReady s w
    → HasBackend s
    → CardReady s c
    → c.context ≢ none
    → Replies s c (add_flows_message_handle env w c message)
unfolding add_flows_message_handle
add_flows_returns s env w c message ready back card there =
    elim (Bool-cases ((length message / flow_size) * flow_size == length message)) [
      | inr q ↦
          (record { status = failure; card = c; world = w }, rw q refl, (ready, card, refl, refl))
      | inl q ↦
          let (x, e, (f, b)) = backend_returns s w c ready back card there in
          (
            added env w c message x f,
            add_flows_done env w c message x f (added env w c message x f) refl q e b,
            (
              record { plugins_are = ready.plugins_are; rule_bes_are = ready.rule_bes_are },
              card,
              refl,
              refl,
            ),
          )
    ]

-- The rules of a card with a context are flushed, and the context is freed.
pub flush_returns :
    (s : Setup) (env : Env) (w : World) (c : BeCardInner)
    → WorldReady s w
    → HasBackend s
    → CardReady s c
    → c.context ≢ none
    → (r : World × BeCardInner) × (be_acc_flush_rules env w c ≡ done r)
      × (WorldReady s r.0 × (r.1 ≡ record c { plugin = none; context = none }))
unfolding be_acc_flush_rules
flush_returns s env w c ready back card there =
    let (x, e, (f, b)) = backend_returns s w c ready back card there in
    (
      (
        record w { switch = acc_flush_rules f env x w.switch; heap = acc_context_destory w.heap },
        record c { plugin = none; context = none },
      ),
      rw (e, b) refl,
      (record { plugins_are = ready.plugins_are; rule_bes_are = ready.rule_bes_are }, refl),
    )

disconnect_returns :
    (s : Setup) (env : Env) (w : World) (c : BeCardInner)
    → WorldReady s w
    → HasBackend s
    → CardReady s c
    → c.context ≢ none
    → Replies s c (disconnect_message_handle env w c)
unfolding disconnect_message_handle
disconnect_returns s env w c ready back card there =
    let (r, e, (left, gone)) = flush_returns s env w c ready back card there in
    (
      record { status = success; card = r.1; world = r.0 },
      rw e refl,
      (
        left,
        subst (CardReady s) (sym gone) tt,
        ap (λ (k : BeCardInner). k.addr) gone,
        ap (λ (k : BeCardInner). k.card) gone,
      ),
    )

pub message_returns :
    (s : Setup) (env : Env) (w : World) (c : BeCardInner) (type : ℕ) (message : Bytes)
    → HasBackend s
    → WorldReady s w
    → CardReady s c
    → Allowed s c type
    → (r : Reply) × (be_acc_message_process env w c type message ≡ done r)
      × (WorldReady s r.world
          × CardReady s r.card
          × (r.card.addr ≡ c.addr)
          × (r.card.card ≡ c.card))
unfolding be_acc_message_process
message_returns s env w c type message back ready card (inl (t, drv)) =
    let (r, e, left) = hello_returns s env w c message drv ready back card in (r, rw t e, left)
message_returns s env w c type message back ready card (inr (inl (t, there))) =
    let (r, e, left) = add_flows_returns s env w c message ready back card there in
    (r, rw t e, left)
message_returns s env w c type message back ready card (inr (inr (t, there))) =
    let (r, e, left) = disconnect_returns s env w c ready back card there in (r, rw t e, left)
