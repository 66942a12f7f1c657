-- ===== src/Ovs/Orders.antt =====
-- The rule of rule/openvswitch/acc_ovs_rule.c on its static buffers, in every order of evaluation of the
-- arguments of `snprintf`, which the language leaves open.
use be_la.Prelude.{
  ◌≡◌, refl, sym, ap, ◌∙◌, ◌==◌, Bool-cases, inl, inr, ◌⊎◌, Bytes, none, some, List, [], ◌∷◌, codes,
  head_byte,
}
use mathlib.Core.List.{Perm}
use be_la.Context.{AccContext}
use be_la.Flow.{AccAction, AccFlow}
use be_la.Ovs.Rule.{
  match_text, port_text, action_text, ports_arg, match_arg, action_arg, acc_ovs_build_ofctl_rule,
}
use be_la.Ovs.Buffers.{
  Printer, print_ip1, print_ip2, print_mac1, print_mac2, print_port1, print_port2, Buffers,
  Argument, evaluate, shown, format, match_arguments, port_arguments, action_arguments, match_shown,
  ports_shown, action_shown, EvalOrder, print_ports, build_in,
}
use be_la.Ovs.Filled.{expected, ValuesOf, ValuesOf-nil, ValuesOf-cons, format-evaluate}

-- What each function prints of a match and of an action.
match_value : AccFlow → Printer → Bytes
match_value f print_ip1 = f.match.src_ip
match_value f print_ip2 = f.match.dst_ip
match_value f print_mac1 = f.match.srcmac
match_value f print_mac2 = f.match.dstmac
match_value f print_port1 = f.match.src_port
match_value f print_port2 = f.match.dst_port

action_value : AccAction → Printer → Bytes
action_value a print_ip1 = a.src_ip
action_value a print_ip2 = a.dst_ip
action_value a print_mac1 = a.srcmac
action_value a print_mac2 = a.dstmac
action_value a print_port1 = a.src_port
action_value a print_port2 = a.dst_port

match_arguments-ValuesOf : (f : AccFlow) → ValuesOf (match_value f) (match_arguments f)
unfolding match_value
match_arguments-ValuesOf f = ValuesOf-cons (match_value f) _ _ refl (
    ValuesOf-cons (match_value f) _ _ refl (
      ValuesOf-cons (match_value f) _ _ refl
        (ValuesOf-cons (match_value f) _ _ refl (ValuesOf-nil (match_value f)))))

port_arguments-ValuesOf :
    (k₁ k₂ : Bytes) (f : AccFlow) → ValuesOf (match_value f) (port_arguments k₁ k₂ f)
unfolding match_value
port_arguments-ValuesOf k₁ k₂ f =
    ValuesOf-cons (match_value f) _ _ refl
      (ValuesOf-cons (match_value f) _ _ refl (ValuesOf-nil (match_value f)))

action_arguments-ValuesOf : (a : AccAction) → ValuesOf (action_value a) (action_arguments a)
unfolding action_value
action_arguments-ValuesOf a = ValuesOf-cons (action_value a) _ _ refl (
    ValuesOf-cons (action_value a) _ _ refl (
      ValuesOf-cons (action_value a) _ _ refl (
        ValuesOf-cons (action_value a) _ _ refl (
          ValuesOf-cons (action_value a) _ _ refl
            (ValuesOf-cons (action_value a) _ _ refl (ValuesOf-nil (action_value a)))))))

-- On the values the formats are the texts of the rule.
match_shown-expected : (f : AccFlow) → match_shown (expected (match_value f)) f ≡ match_text f
unfolding match_value format shown match_text match_arg
match_shown-expected f = refl

ports_shown-expected :
    (p k₁ k₂ : Bytes) (f : AccFlow)
    → ports_shown (expected (match_value f)) p k₁ k₂ f ≡ ports_arg p k₁ k₂ f
unfolding match_value format shown ports_arg match_arg
ports_shown-expected p k₁ k₂ f = refl

action_shown-expected : (a : AccAction) → action_shown (expected (action_value a)) a ≡ action_text a
unfolding action_value format shown action_text action_arg
action_shown-expected a = refl

module _ (order : EvalOrder) (perm : (l : List Argument) → Perm l (order l)) where
  match_shown-evaluate :
      (s : Buffers) (f : AccFlow)
      → match_shown (evaluate (order (match_arguments f)) s) f ≡ match_text f
  match_shown-evaluate s f =
      format-evaluate order perm (match_value f) s [] (match_arguments f)
        (codes " " ∷ codes " ip " ∷ codes " " ∷ []) (match_arguments-ValuesOf f)
      ∙ match_shown-expected f

  ports_shown-evaluate :
      (s : Buffers) (p k₁ k₂ : Bytes) (f : AccFlow)
      → ports_shown (evaluate (order (port_arguments k₁ k₂ f)) s) p k₁ k₂ f ≡ ports_arg p k₁ k₂ f
  ports_shown-evaluate s p k₁ k₂ f =
      format-evaluate order perm (match_value f) s p (port_arguments k₁ k₂ f) (codes " " ∷ [])
        (port_arguments-ValuesOf k₁ k₂ f)
      ∙ ports_shown-expected p k₁ k₂ f

  action_shown-evaluate :
      (s : Buffers) (a : AccAction)
      → action_shown (evaluate (order (action_arguments a)) s) a ≡ action_text a
  action_shown-evaluate s a =
      format-evaluate order perm (action_value a) s (codes " actions=") (action_arguments a)
        (codes " " ∷ codes " " ∷ codes "  " ∷ codes " " ∷ codes " " ∷ codes " output:normal" ∷ [])
        (action_arguments-ValuesOf a)
      ∙ action_shown-expected a

  -- The text for the ports, in any order, with some state of the buffers.
  print_ports-port_text :
      (s : Buffers) (f : AccFlow)
      → ((print_ports order s f ≡ none) × (port_text f ≡ none))
        ⊎ ((t : Bytes) × (s' : Buffers) × (print_ports order s f ≡ some (t, s'))
            × (port_text f ≡ some t))
  unfolding print_ports port_text
  print_ports-port_text s f = elim (Bool-cases (head_byte f.match.protocol == 6)) [
    | inl tcp ↦
        let s' = evaluate (order (port_arguments (codes " tcp_src=") (codes " tcp_dst=") f)) s in
        inr (
          ports_shown s' (codes " tcp ") (codes " tcp_src=") (codes " tcp_dst=") f,
          s',
          rw tcp refl,
          rw (tcp) (
              ap some (
                sym (
                  ports_shown-evaluate s (codes " tcp ") (codes " tcp_src=") (codes " tcp_dst=")
                    f))),
        )
    | inr other ↦ elim (Bool-cases (head_byte f.match.protocol == 17)) [
      | inl udp ↦
          let s' = evaluate (order (port_arguments (codes " udp_src=") (codes " udp_dst=") f)) s in
          inr (
            ports_shown s' (codes " udp ") (codes " udp_src=") (codes " udp_dst=") f,
            s',
            rw (other, udp) refl,
            rw (other, udp)
                (ap some (
                  sym (
                    ports_shown-evaluate s (codes " udp ") (codes " udp_src=") (codes " udp_dst=")
                      f))),
          )
      | inr neither ↦ inl (rw (other, neither) refl, rw (other, neither) refl)
    ]
  ]

  -- In whatever order the compiler has the arguments of each `snprintf` evaluated, and whatever the
  -- static buffers held before, the build on the buffers gives the rule, or the -1, that putting each
  -- field's own text in its place gives.
  pub build_in-build :
      (s : Buffers) (state : AccContext) (f : AccFlow)
      → build_in order s state f ≡ acc_ovs_build_ofctl_rule state f
  unfolding build_in acc_ovs_build_ofctl_rule
  build_in-build s state f =
      let s₁ = evaluate (order (match_arguments f)) s in
      elim (print_ports-port_text s₁ f) [
        | inl (p, q) ↦ rw (match_shown-evaluate s f, p, q) refl
        | inr (t, s₂, p, q) ↦
            rw (match_shown-evaluate s f, p, q, action_shown-evaluate s₂ f.action) refl
      ]
