-- ===== src/Session/Close.antt =====
-- What a DISCONNECT of message/be_acc_msg.c leaves, and a HELLO with a DISCONNECT behind it.
use be_la.Prelude.{
  >>=-eq-done, ◌≡◌, sym, ◌∙◌, ap, Bytes, none, success, done, Option-cases, inl, inr,
}
use be_la.Cards.{BeCardInner}
use be_la.Plugin.Drivers.{acc_context_destory}
use be_la.Session.{World}
use be_la.Session.Handlers.{
  Env, Reply, backend, acc_flush_rules, be_acc_flush_rules, disconnect_message_handle,
  be_acc_message_process,
}
use be_la.Session.Lifecycle.{flush_none, same}
use be_la.Wire.{acc_unix_disconnect}

flush_leaves :
    (env : Env) (w : World) (c : BeCardInner) (r : World × BeCardInner)
    → be_acc_flush_rules env w c ≡ done r
    → (r.1 ≡ record c { plugin = none; context = none }) × (r.0.heap ≡ acc_context_destory w.heap)
unfolding be_acc_flush_rules
flush_leaves env w c r e = elim (Option-cases c.context) [
  | inl q ↦ absurd (let k = flush_none env w c q in cc)
  | inr (x, q) ↦
      let (f, b, k) =
        >>=-eq-done (backend w x)
          (λ f. done (
            record w {
              switch = acc_flush_rules f env x w.switch;
              heap = acc_context_destory w.heap;
            },
            record c { plugin = none; context = none },
          ))
          (rw q at e) in
      (
        sym (ap (λ (u : World × BeCardInner). u.1) (same k)),
        sym (ap (λ (u : World × BeCardInner). u.0.heap) (same k)),
      )
]

-- A DISCONNECT that returns, returns 0; the card has no plugin and no context any more, one live
-- context less is counted, and the remote shells are as they were.
pub disconnect_leaves :
    (env : Env) (w : World) (c : BeCardInner) (buf : Bytes) (r : Reply)
    → be_acc_message_process env w c acc_unix_disconnect buf ≡ done r
    → (r.status ≡ success)
      × (r.card ≡ record c { plugin = none; context = none })
      × (r.world.heap ≡ acc_context_destory w.heap)
unfolding be_acc_message_process disconnect_message_handle
disconnect_leaves env w c buf r e =
    let (s, f, k) =
      >>=-eq-done (be_acc_flush_rules env w c)
        (λ s. done (record { status = success; card = s.1; world = s.0 })) e in
    let (card, heap) = flush_leaves env w c s f in
    (
      sym (ap (λ (u : Reply). u.status) (same k)),
      sym (ap (λ (u : Reply). u.card) (same k)) ∙ card,
      sym (ap (λ (u : Reply). u.world.heap) (same k)) ∙ heap,
    )
