-- ===== src/Ovs/Build.antt =====
-- What `acc_ovs_build_ofctl_rule` of rule/openvswitch/acc_ovs_rule.c makes of a flow.
use be_la.Prelude.{
  ℕ, ◌+◌, ◌≤◌, ◌<◌, ◌≡◌, ◌≢◌, refl, Bytes, none, some, ◌++◌, arith, ◌==◌, length, length-append,
  codes, ◌⊎◌, inl, inr, Bool-cases, head_byte, ltb-true, ◌-◌,
}
use be_la.Context.{AccContext}
use be_la.Flow.{
  AccAction, AccFlow, field_srcmac, field_dstmac, field_src_ip, field_dst_ip, field_src_port,
  field_dst_port,
}
use be_la.Ovs.Print.{print_port, print_ip, print_mac, print_ip-le, print_port-le, length-print_mac}
use be_la.Ovs.Rule.{
  AccOfctlRule, text_size, match_arg, action_arg, match_text, ports_arg, port_text, action_text,
  acc_ovs_build_ofctl_rule,
}

match_arg-le : (m k t : Bytes) → length (match_arg m k t) ≤ length k + length t
unfolding match_arg
match_arg-le m k t = ground (arith, length-append k t)

action_arg-le :
    (a : AccAction) (b : ℕ) (k t : Bytes) → length (action_arg a b k t) ≤ length k + length t
unfolding action_arg
action_arg-le a b k t = ground (arith, length-append k t)

match_text-le : (f : AccFlow) → length (match_text f) ≤ 200
unfolding match_text
match_text-le f = simp length-append (
    omega (
      arith,
      match_arg-le f.mask.srcmac (codes " eth_src=") (print_mac f.match.srcmac),
      match_arg-le f.mask.dstmac (codes " eth_dst=") (print_mac f.match.dstmac),
      match_arg-le f.mask.src_ip (codes " nw_src=") (print_ip f.match.src_ip),
      match_arg-le f.mask.dst_ip (codes " nw_dst=") (print_ip f.match.dst_ip),
      length-print_mac f.match.srcmac,
      length-print_mac f.match.dstmac,
      print_ip-le f.match.src_ip,
      print_ip-le f.match.dst_ip,
    ))

action_text-le : (a : AccAction) → length (action_text a) ≤ 300
unfolding action_text
action_text-le a = simp length-append (
    omega (
      arith,
      action_arg-le a field_srcmac (codes " mod_dl_src:") (print_mac a.srcmac),
      action_arg-le a field_dstmac (codes " mod_dl_dst:") (print_mac a.dstmac),
      action_arg-le a field_src_ip (codes " mod_nw_src:") (print_ip a.src_ip),
      action_arg-le a field_dst_ip (codes " mod_nw_dst:") (print_ip a.dst_ip),
      action_arg-le a field_src_port (codes " mod_tp_src:") (print_port a.src_port),
      action_arg-le a field_dst_port (codes " mod_tp_dst:") (print_port a.dst_port),
      length-print_mac a.srcmac,
      length-print_mac a.dstmac,
      print_ip-le a.src_ip,
      print_ip-le a.dst_ip,
      print_port-le a.src_port,
      print_port-le a.dst_port,
    ))

-- The text for the ports of a supported protocol, with its length.
abbrev pub PortText : AccFlow → Type 0
PortText f = (t : Bytes) × (port_text f ≡ some t) × (length t ≤ 100)

ports_under :
    (p k₁ k₂ : Bytes) (f : AccFlow)
    → length p + length k₁ + length k₂ ≤ 60
    → length (ports_arg p k₁ k₂ f) ≤ 100
unfolding ports_arg
ports_under p k₁ k₂ f h = simp length-append (
    omega (
      arith,
      match_arg-le f.mask.src_port k₁ (print_port f.match.src_port),
      match_arg-le f.mask.dst_port k₂ (print_port f.match.dst_port),
      print_port-le f.match.src_port,
      print_port-le f.match.dst_port,
    ))

tcp_text : (f : AccFlow) → head_byte f.match.protocol ≡ 6 → PortText f
unfolding port_text
tcp_text f tcp = (
  ports_arg (codes " tcp ") (codes " tcp_src=") (codes " tcp_dst=") f,
  rw tcp refl,
  ports_under (codes " tcp ") (codes " tcp_src=") (codes " tcp_dst=") f (omega arith),
)

udp_text : (f : AccFlow) → head_byte f.match.protocol ≡ 17 → PortText f
unfolding port_text
udp_text f udp = (
  ports_arg (codes " udp ") (codes " udp_src=") (codes " udp_dst=") f,
  rw udp refl,
  ports_under (codes " udp ") (codes " udp_src=") (codes " udp_dst=") f (omega arith),
)

-- What the builder returns: a rule under the context's cookie, with both texts inside their
-- arrays, for a TCP or UDP flow, and -1 for any other.
pub record Built (state : AccContext) (r : AccOfctlRule) : Type 0 where
  pub cookie_is : r.cookie ≡ state.hostid
  pub priority_is : r.priority ≡ 68
  pub table_is : r.table ≡ 0
  pub match_fits : length r.match < text_size
  pub action_fits : length r.action < text_size

abbrev pub BuildResult : AccContext → AccFlow → Type 0
BuildResult state f =
    (((head_byte f.match.protocol ≡ 6) ⊎ (head_byte f.match.protocol ≡ 17))
      × (r : AccOfctlRule) × (acc_ovs_build_ofctl_rule state f ≡ some r)
      × Built state r)
    ⊎ ((head_byte f.match.protocol ≢ 6)
        × (head_byte f.match.protocol ≢ 17)
        × (acc_ovs_build_ofctl_rule state f ≡ none))

-- The rule of a flow whose port text is known.
pub build_text :
    (state : AccContext) (f : AccFlow) (t : Bytes)
    → port_text f ≡ some t
    → length t ≤ 100
    → acc_ovs_build_ofctl_rule state f
      ≡ some (record {
        cookie = state.hostid;
        priority = 68;
        table = 0;
        match = match_text f ++ t;
        action = action_text f.action;
      })
unfolding acc_ovs_build_ofctl_rule
build_text state f t e small =
    let a = match_text f in
    let b = action_text f.action in
    rw (
      ltb-true (length a) text_size (omega (arith, match_text-le f)),
      e,
      ltb-true (length t) (text_size - length a) (omega (arith, match_text-le f)),
      ltb-true (length b) text_size (omega (arith, action_text-le f.action)),
    )

build_supported :
    (state : AccContext) (f : AccFlow)
    → PortText f
    → (r : AccOfctlRule) × (acc_ovs_build_ofctl_rule state f ≡ some r) × Built state r
build_supported state f (t, e, small) =
    let a = match_text f in
    let b = action_text f.action in
    (
      record { cookie = state.hostid; priority = 68; table = 0; match = a ++ t; action = b },
      build_text state f t e small,
      record {
        cookie_is = refl;
        priority_is = refl;
        table_is = refl;
        match_fits = omega (arith, length-append a t, match_text-le f);
        action_fits = omega (arith, action_text-le f.action);
      },
    )

-- No flow makes a text that is cut: for every TCP and UDP flow, and for no other, a rule is built,
-- with the context's cookie, priority 68, table 0, and both texts inside their arrays.
pub build_decides : (state : AccContext) (f : AccFlow) → BuildResult state f
unfolding acc_ovs_build_ofctl_rule port_text
build_decides state f = elim (Bool-cases (head_byte f.match.protocol == 6)) [
  | inl tcp ↦
      let h : head_byte f.match.protocol ≡ 6 = ground arith in
      let (r, e, b) = build_supported state f (tcp_text f h) in inl (inl h, r, e, b)
  | inr other ↦ elim (Bool-cases (head_byte f.match.protocol == 17)) [
    | inl udp ↦
        let h : head_byte f.match.protocol ≡ 17 = ground arith in
        let (r, e, b) = build_supported state f (udp_text f h) in inl (inr h, r, e, b)
    | inr neither ↦ inr (
      ground arith,
      ground arith,
      rw (
        ltb-true (length (match_text f)) text_size (omega (arith, match_text-le f)),
        other,
        neither,
      ),
    )
  ]
]
