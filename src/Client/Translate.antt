-- ===== src/Client/Translate.antt =====
-- `cgnat_accelerate_make_flow` of vnf/cgnat-acc/cgnapt_accelerate.c, with the setters of
-- flow/acc_flow.h, and the rule that the daemon builds of its flows.
use be_la.Prelude.{
  ℕ, ◌%◌, ◌/◌, ◌^◌, [], ◌∷◌, ◌≡◌, refl, Bytes, some, ◌++◌, ◌⊎◌, inl, inr, length, replicate, bit_or,
  codes, head_byte, arith, ◌∙◌, ◌≤◌, length-append,
}
use be_la.Context.{AccContext}
use be_la.Flow.{
  AccMatch, AccAction, AccFlow, field_srcmac, field_dstmac, field_src_ip, field_src_port,
  match_is_be_set, action_is_set,
}
use be_la.Ovs.Print.{print_mac, print_ip, print_port, print_port-le}
use be_la.Ovs.Build.{build_text}
use be_la.Ovs.Rule.{
  AccOfctlRule, match_arg, action_arg, match_text, ports_arg, port_text, action_text,
  acc_ovs_build_ofctl_rule,
}

-- The parameters of the call, each as its memory. The four hardware addresses are parameters of
-- array type: pointers, here the numbers of the addresses in memory.
pub record Translation : Type 0 where
  pub srcmac : ℕ
  pub dstmac : ℕ
  pub src_ip : Bytes
  pub src_port : Bytes
  pub protocol : Bytes
  pub xlate_srcmac : ℕ
  pub xlate_dstmac : ℕ
  pub xlate_src_ip : Bytes
  pub xlate_src_port : Bytes

abbrev pub zero_match : AccMatch
zero_match = record {
  srcmac = replicate 6 0;
  dstmac = replicate 6 0;
  src_ip = replicate 4 0;
  dst_ip = replicate 4 0;
  src_port = replicate 2 0;
  dst_port = replicate 2 0;
  protocol = replicate 1 0;
}

abbrev pub zero_action : AccAction
zero_action = record {
  field_mask = 0;
  srcmac = replicate 6 0;
  dstmac = replicate 6 0;
  src_ip = replicate 4 0;
  dst_ip = replicate 4 0;
  src_port = replicate 2 0;
  dst_port = replicate 2 0;
  protocol = replicate 1 0;
  dl_type = replicate 2 0;
}

-- `memcpy` of 6 bytes from `&src`, where `src` is a pointer: its six low bytes, little endian.
unfoldable pub six_bytes : ℕ → Bytes
six_bytes p =
    p % 256
    ∷ p / 2 ^ 8 % 256
    ∷ p / 2 ^ 16 % 256
    ∷ p / 2 ^ 24 % 256
    ∷ p / 2 ^ 32 % 256
    ∷ p / 2 ^ 40 % 256
    ∷ []

unfoldable pub cgnat_accelerate_make_flow : Translation → AccFlow
unfolding six_bytes
cgnat_accelerate_make_flow t = record {
  match = record zero_match {
    srcmac = six_bytes t.srcmac;
    dstmac = six_bytes t.dstmac;
    src_ip = t.src_ip;
    src_port = t.src_port;
    protocol = t.protocol;
  };
  mask = record zero_match {
    srcmac = replicate 6 255;
    dstmac = replicate 6 255;
    src_ip = replicate 4 255;
    src_port = replicate 2 255;
    protocol = replicate 1 255;
  };
  action = record zero_action {
    field_mask = bit_or (bit_or (bit_or field_srcmac field_dstmac) field_src_ip) field_src_port;
    srcmac = six_bytes t.xlate_srcmac;
    dstmac = six_bytes t.xlate_dstmac;
    src_ip = t.xlate_src_ip;
    src_port = t.xlate_src_port;
  };
}

-- The texts for a connection, written out: the source selects the packets, and is rewritten.
abbrev pub source_text : Translation → Bytes
source_text t =
    (codes " eth_src=" ++ print_mac (six_bytes t.srcmac))
    ++ (codes " "
        ++ ((codes " eth_dst=" ++ print_mac (six_bytes t.dstmac))
            ++ (codes " ip " ++ ((codes " nw_src=" ++ print_ip t.src_ip) ++ codes " "))))

abbrev pub source_port : Bytes → Bytes → Translation → Bytes
source_port protocol key t = protocol ++ ((key ++ print_port t.src_port) ++ codes " ")

abbrev pub rewrite_text : Translation → Bytes
rewrite_text t =
    codes " actions="
    ++ ((codes " mod_dl_src:" ++ print_mac (six_bytes t.xlate_srcmac))
        ++ (codes " "
            ++ ((codes " mod_dl_dst:" ++ print_mac (six_bytes t.xlate_dstmac))
                ++ (codes " "
                    ++ ((codes " mod_nw_src:" ++ print_ip t.xlate_src_ip)
                        ++ (codes "   "
                            ++ ((codes " mod_tp_src:" ++ print_port t.xlate_src_port)
                                ++ codes "  output:normal")))))))

abbrev pub rule_of : AccContext → Translation → Bytes → AccOfctlRule
rule_of state t ports = record {
  cookie = state.hostid;
  priority = 68;
  table = 0;
  match = source_text t ++ ports;
  action = rewrite_text t;
}

match_text-make_flow : (t : Translation) → match_text (cgnat_accelerate_make_flow t) ≡ source_text t
unfolding match_text match_arg match_is_be_set cgnat_accelerate_make_flow
match_text-make_flow t = refl

action_text-make_flow :
    (t : Translation) → action_text (cgnat_accelerate_make_flow t).action ≡ rewrite_text t
unfolding action_text action_arg action_is_set cgnat_accelerate_make_flow
action_text-make_flow t = refl

abbrev pub MadeRule : AccContext → Translation → Bytes → Type 0
MadeRule state t ports =
    acc_ovs_build_ofctl_rule state (cgnat_accelerate_make_flow t) ≡ some (rule_of state t ports)

made :
    (state : AccContext) (t : Translation) (ports : Bytes)
    → port_text (cgnat_accelerate_make_flow t) ≡ some ports
    → length ports ≤ 100
    → MadeRule state t ports
made state t ports e small =
    build_text state (cgnat_accelerate_make_flow t) ports e small
    ∙ rw (match_text-make_flow t, action_text-make_flow t) refl

-- The rule that the daemon builds of the flow of a translated connection selects the packets by
-- its source address, its source port under the protocol's key, and, in the place of the two
-- hardware addresses, the six low bytes of the pointers to them; and it rewrites the source, and
-- the hardware addresses to the six low bytes of the pointers to the new ones; for TCP and for
-- UDP. What the pointers point to has no part in it.
pub build-make_flow :
    (state : AccContext) (t : Translation)
    → (head_byte t.protocol ≡ 6) ⊎ (head_byte t.protocol ≡ 17)
    → ((head_byte t.protocol ≡ 6)
        × MadeRule state t (source_port (codes " tcp ") (codes " tcp_src=") t))
      ⊎ ((head_byte t.protocol ≡ 17)
          × MadeRule state t (source_port (codes " udp ") (codes " udp_src=") t))
unfolding port_text ports_arg match_arg match_is_be_set cgnat_accelerate_make_flow
build-make_flow state t (inl tcp) = inl (
  tcp,
  made state t (source_port (codes " tcp ") (codes " tcp_src=") t) (rw tcp refl)
      (omega (arith, length-append (print_port t.src_port) (codes " "), print_port-le t.src_port)),
)
build-make_flow state t (inr udp) = inr (
  udp,
  made state t (source_port (codes " udp ") (codes " udp_src=") t) (rw udp refl)
      (omega (arith, length-append (print_port t.src_port) (codes " "), print_port-le t.src_port)),
)
