-- ===== src/Session/Balance.antt =====
-- Every message of message/be_acc_msg.c keeps the count of the live contexts.
use be_la.Prelude.{
  >>=-eq-done, ℕ, ◌≡◌, refl, ap, subst, Bool, true, false, Bytes, Option, none, some, success,
  failure, Outcome, done, crash, null_call, out_of_bounds, ◌>>=◌, ltb, leb, ◌==◌, if◌then◌else◌,
  length, arith,
}
use be_la.Context.{AccContext, hostname_size}
use be_la.Cards.{BeCardInner}
use be_la.Plugin.{be_plugin_match}
use be_la.Session.{World, RuleFuncs}
use be_la.Session.Handlers.{
  Env, Reply, hello_found, hello_message_handle, backend, add_flows_message_handle,
  be_acc_flush_rules, disconnect_message_handle, be_acc_message_process,
}
use be_la.Session.Lifecycle.{Balanced, owned, flush-Balanced, hello_matched-Balanced, same}
use be_la.Wire.{acc_unix_hello, acc_unix_add_flows, acc_unix_disconnect, acc_unix_max_type}

hello_found-Balanced :
    (others : ℕ) (env : Env) (w : World) (c : BeCardInner) (message : Bytes)
    (found : Option (ℕ × ℕ)) (r : Reply)
    → Balanced others w c
    → hello_found env w c message found ≡ done r
    → Balanced others r.world r.card
unfolding hello_found
hello_found-Balanced others env w c message none r b e =
    subst (λ (k : Reply). Balanced others k.world k.card) (same e) b
hello_found-Balanced others env w c message (some at) r b e =
    hello_matched-Balanced others env w c message at r b e

hello-Balanced :
    (others : ℕ) (env : Env) (w : World) (c : BeCardInner) (message : Bytes) (r : Reply)
    → Balanced others w c
    → hello_message_handle env w c message ≡ done r
    → Balanced others r.world r.card
unfolding hello_message_handle
hello-Balanced others env w c message r b e = go (ltb hostname_size (length message)) refl e
  where
    go :
        (t : Bool)
        → ltb hostname_size (length message) ≡ t
        → (if t
            then done (record { status = failure; card = c; world = w })
            else be_plugin_match w.plugins c.card >>= λ found. hello_found env w c message found)
          ≡ done r
        → Balanced others r.world r.card
    go true q k = subst (λ (k : Reply). Balanced others k.world k.card) (same k) b
    go false q k =
        let (found, _, m) =
          >>=-eq-done (be_plugin_match w.plugins c.card)
            (λ found. hello_found env w c message found) k in
        hello_found-Balanced others env w c message found r b m

add_flows-same :
    (env : Env) (w : World) (c : BeCardInner) (message : Bytes) (r : Reply)
    → add_flows_message_handle env w c message ≡ done r
    → (r.world.heap ≡ w.heap) × (r.card ≡ c)
unfolding add_flows_message_handle
add_flows-same env w c message r e = go c.context refl
  where
    go : (o : Option AccContext) → c.context ≡ o → (r.world.heap ≡ w.heap) × (r.card ≡ c)
    go none q = let k = e in ground arith
    go (some x) q = body (backend w x) refl
      where
        body : (b : Outcome RuleFuncs) → backend w x ≡ b → (r.world.heap ≡ w.heap) × (r.card ≡ c)
        body (crash f) h = ground arith
        body (done f) h = ground arith

disconnect-Balanced :
    (others : ℕ) (env : Env) (w : World) (c : BeCardInner) (r : Reply)
    → Balanced others w c
    → disconnect_message_handle env w c ≡ done r
    → Balanced others r.world r.card
unfolding disconnect_message_handle
disconnect-Balanced others env w c r b e =
    let (s, f, k) =
      >>=-eq-done (be_acc_flush_rules env w c)
        (λ s. done (record { status = success; card = s.1; world = s.0 })) e in
    subst (λ (k : Reply). Balanced others k.world k.card) (same k)
      (flush-Balanced others env w c s b f)

-- A card that has one context, or none, among the live ones is left so by every message whose
-- handler returns, whatever it returns: no handler loses a context or frees one twice.
pub message_process-Balanced :
    (others : ℕ) (env : Env) (w : World) (c : BeCardInner) (type : ℕ) (message : Bytes) (r : Reply)
    → Balanced others w c
    → be_acc_message_process env w c type message ≡ done r
    → Balanced others r.world r.card
unfolding be_acc_message_process
message_process-Balanced others env w c type message r b e =
    go (leb acc_unix_max_type type) (type == acc_unix_hello) (type == acc_unix_add_flows)
      (type == acc_unix_disconnect) e
  where
    go :
        (out hello flows disconnect : Bool)
        → (if out
            then crash out_of_bounds
            else if hello
            then hello_message_handle env w c message
            else if flows
            then add_flows_message_handle env w c message
            else if disconnect
            then disconnect_message_handle env w c
            else crash null_call)
          ≡ done r
        → Balanced others r.world r.card
    go true _ _ _ k = ground arith
    go false true _ _ k = hello-Balanced others env w c message r b k
    go false false true _ k =
        let (h, q) = add_flows-same env w c message r k in
        omega (arith, b, ap (λ h. h.live_contexts) h, ap (λ c. owned c.context) q)
    go false false false true k = disconnect-Balanced others env w c r b k
    go false false false false k = ground arith
