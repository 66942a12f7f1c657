-- ===== src/Session/Lifecycle.antt =====
-- The life of a card's context through the messages of message/be_acc_msg.c.
use be_la.Prelude.{
  >>=-eq-done, ℕ, ◌+◌, ◌-◌, ◌≡◌, refl, sym, ◌∙◌, ap, subst, Bytes, Option, none, some, done, crash,
  assertion, null_call, ◌>>=◌, arith, Option-cases, inl, inr,
}
use be_la.Context.{AccContext}
use be_la.Cards.{BeCardInner}
use be_la.Plugin.{AccPlugin}
use be_la.Plugin.Drivers.{
  Driver, netronome, intel_qat, liquidio, Heap, Memory, acc_context_destory, context_init,
  context_destroy, be_plugin_context_init, be_plugin_context_destory,
}
use be_la.Session.{World}
use be_la.Session.Handlers.{
  Env, Reply, plugin_at, drop_old_context, give_context, hello_matched, backend, be_acc_flush_rules,
  acc_flush_rules,
}

-- 1 for a card with a context.
abbrev pub owned : Option AccContext → ℕ
owned none = 0
owned (some c) = 1

-- A card's context is one of the live contexts, and the card owns no context that is not.
abbrev pub Balanced : ℕ → World → BeCardInner → Type 0
Balanced others w c = w.heap.live_contexts ≡ others + owned c.context

context_init-counts :
    (d : Driver) (m : Memory) (h : Heap)
    → (context_init d m h).1.live_contexts ≡ h.live_contexts + owned (context_init d m h).0
unfolding context_init
context_init-counts netronome m h = ground arith
context_init-counts intel_qat m h = ground arith
context_init-counts liquidio m h = ground arith

context_destroy-counts :
    (d : Driver) (c : AccContext) (h h' : Heap)
    → context_destroy d c h ≡ done h'
    → h'.live_contexts ≡ h.live_contexts - 1
unfolding context_destroy
context_destroy-counts netronome c h h' e = ground arith
context_destroy-counts intel_qat c h h' e = ground arith
context_destroy-counts liquidio c h h' e = ground arith

pub flush_some :
    (env : Env) (w : World) (c : BeCardInner) (x : AccContext) (r : World × BeCardInner)
    → c.context ≡ some x
    → be_acc_flush_rules env w c ≡ done r
    → (r.0.heap ≡ record w.heap { live_contexts = w.heap.live_contexts - 1 })
      × (r.1.context ≡ none)
      × (r.1.plugin ≡ none)
unfolding be_acc_flush_rules
flush_some env w c x r q e =
    let (f, b, k) =
      >>=-eq-done (backend w x)
        (λ f. done (
          record w { switch = acc_flush_rules f env x w.switch; heap = acc_context_destory w.heap },
          record c { plugin = none; context = none },
        ))
        (rw q at e) in
    ground arith

pub flush_none :
    (env : Env) (w : World) (c : BeCardInner)
    → c.context ≡ none
    → be_acc_flush_rules env w c ≡ crash assertion
unfolding be_acc_flush_rules
flush_none env w c q = rw (q, be_acc_flush_rules)

pub flush-Balanced :
    (others : ℕ) (env : Env) (w : World) (c : BeCardInner) (r : World × BeCardInner)
    → Balanced others w c
    → be_acc_flush_rules env w c ≡ done r
    → Balanced others r.0 r.1
flush-Balanced others env w c r b e = elim (Option-cases c.context) [
  | inl q ↦ let k = flush_none env w c q in cc
  | inr (x, q) ↦
      let (h, n, p) = flush_some env w c x r q e in
      omega (arith, b, ap owned q, ap owned n, ap (λ (k : Heap). k.live_contexts) h)
]

pub drop_none :
    (w : World) (p : AccPlugin Driver) (c : BeCardInner)
    → c.context ≡ none
    → drop_old_context w p c ≡ done (w, c)
unfolding drop_old_context
drop_none w p c q = rw q

pub same {ℓ} : {A : Type ℓ} {a b : A} → done a ≡ done b → a ≡ b
same e = ground arith

destory_null :
    (p : AccPlugin Driver) (x : AccContext) (h : Heap)
    → p.funcs ≡ none
    → be_plugin_context_destory p x h ≡ crash null_call
unfolding be_plugin_context_destory
destory_null p x h q = rw (q, be_plugin_context_destory)

pub destory_driver :
    (p : AccPlugin Driver) (x : AccContext) (h : Heap) (d : Driver)
    → p.funcs ≡ some d
    → be_plugin_context_destory p x h ≡ context_destroy d x h
unfolding be_plugin_context_destory
destory_driver p x h d q = rw (q, be_plugin_context_destory)

pub init_null :
    (p : AccPlugin Driver) (m : Memory) (h : Heap)
    → p.funcs ≡ none
    → be_plugin_context_init p m h ≡ crash null_call
unfolding be_plugin_context_init
init_null p m h q = rw (q, be_plugin_context_init)

pub init_driver :
    (p : AccPlugin Driver) (m : Memory) (h : Heap) (d : Driver)
    → p.funcs ≡ some d
    → be_plugin_context_init p m h ≡ done (context_init d m h)
unfolding be_plugin_context_init
init_driver p m h d q = rw (q, be_plugin_context_init)

destory-counts :
    (p : AccPlugin Driver) (x : AccContext) (h h' : Heap)
    → be_plugin_context_destory p x h ≡ done h'
    → h'.live_contexts ≡ h.live_contexts - 1
destory-counts p x h h' e = go p.funcs refl
  where
    go : (o : Option Driver) → p.funcs ≡ o → h'.live_contexts ≡ h.live_contexts - 1
    go none q = let k = destory_null p x h q in cc
    go (some d) q = context_destroy-counts d x h h' (sym (destory_driver p x h d q) ∙ e)

init-counts :
    (p : AccPlugin Driver) (m : Memory) (h : Heap) (made : Option AccContext × Heap)
    → be_plugin_context_init p m h ≡ done made
    → made.1.live_contexts ≡ h.live_contexts + owned made.0
init-counts p m h made e = go p.funcs refl
  where
    go : (o : Option Driver) → p.funcs ≡ o → made.1.live_contexts ≡ h.live_contexts + owned made.0
    go none q = let k = init_null p m h q in cc
    go (some d) q =
        let k : context_init d m h ≡ made = same (sym (init_driver p m h d q) ∙ e) in
        subst (λ (u : Option AccContext × Heap). u.1.live_contexts ≡ h.live_contexts + owned u.0) k
          (context_init-counts d m h)

drop_some :
    (w : World) (p : AccPlugin Driver) (c : BeCardInner) (x : AccContext) (r : World × BeCardInner)
    → c.context ≡ some x
    → drop_old_context w p c ≡ done r
    → (r.0.heap.live_contexts ≡ w.heap.live_contexts - owned c.context) × (r.1.context ≡ none)
unfolding drop_old_context
drop_some w p c x r q e =
    let (h, d, k) =
      >>=-eq-done (be_plugin_context_destory p x w.heap)
        (λ h. done (record w { heap = h }, record c { context = none })) (rw q at e) in
    let n = destory-counts p x w.heap h d in
    let v : (record w { heap = h }, record c { context = none }) ≡ r = same k in
    (
      omega (arith, n, ap owned q, ap (λ (u : World × BeCardInner). u.0.heap.live_contexts) v),
      sym (ap (λ (u : World × BeCardInner). u.1.context) v),
    )

drop_old-counts :
    (w : World) (p : AccPlugin Driver) (c : BeCardInner) (r : World × BeCardInner)
    → drop_old_context w p c ≡ done r
    → (r.0.heap.live_contexts ≡ w.heap.live_contexts - owned c.context) × (r.1.context ≡ none)
drop_old-counts w p c r e = go c.context refl
  where
    go :
        (o : Option AccContext)
        → c.context ≡ o
        → (r.0.heap.live_contexts ≡ w.heap.live_contexts - owned c.context) × (r.1.context ≡ none)
    go none q = let k = drop_none w p c q in ground arith
    go (some x) q = drop_some w p c x r q e

give_context-Balanced :
    (others : ℕ) (w : World) (c : BeCardInner) (message : Bytes) (made : Option AccContext × Heap)
    → c.context ≡ none
    → made.1.live_contexts ≡ others + owned made.0
    → Balanced others (give_context w c message made).world (give_context w c message made).card
unfolding give_context
give_context-Balanced others w c message (none, h) n e = omega (arith, ap owned n)
give_context-Balanced others w c message (some x, h) n e = e

pub hello_matched-Balanced :
    (others : ℕ) (env : Env) (w : World) (c : BeCardInner) (message : Bytes) (at : ℕ × ℕ)
    (r : Reply)
    → Balanced others w c
    → hello_matched env w c message at ≡ done r
    → Balanced others r.world r.card
unfolding hello_matched
hello_matched-Balanced others env w c message at r b e =
    let c' = record c { plugin = some at } in
    let (p, _, e₁) =
      >>=-eq-done (plugin_at w at)
        (λ p. drop_old_context w p c' >>= λ s.
          be_plugin_context_init p env.memory s.0.heap >>= λ made.
          done (give_context s.0 s.1 message made))
        e in
    let (s, d, e₂) =
      >>=-eq-done (drop_old_context w p c')
        (λ s. be_plugin_context_init p env.memory s.0.heap >>= λ made.
          done (give_context s.0 s.1 message made))
        e₁ in
    let (made, i, e₃) =
      >>=-eq-done (be_plugin_context_init p env.memory s.0.heap)
        (λ made. done (give_context s.0 s.1 message made)) e₂ in
    let (counts, gone) = drop_old-counts w p c' s d in
    let q : give_context s.0 s.1 message made ≡ r = ground arith in
    subst (λ (k : Reply). Balanced others k.world k.card) q
      (give_context-Balanced others s.0 s.1 message made gone
        (omega (arith, init-counts p env.memory s.0.heap made i, counts, b)))
