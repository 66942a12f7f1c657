-- ===== src/Ovs/Rule.antt =====
-- `acc_ovs_build_ofctl_rule` of rule/openvswitch/acc_ovs_rule.c.
use be_la.Prelude.{
  ℕ, Bytes, Option, none, some, [], ◌++◌, ltb, ◌==◌, if◌then◌else◌, length, codes, head_byte, ◌-◌,
}
use be_la.Context.{AccContext}
use be_la.Flow.{
  AccAction, AccFlow, match_is_be_set, action_is_set, field_srcmac, field_dstmac, field_src_ip,
  field_dst_ip, field_src_port, field_dst_port,
}
use be_la.Ovs.Print.{print_port, print_ip, print_mac}

-- `struct acc_ofctl_rule`, the arrays `match` and `action` as the strings in them.
pub record AccOfctlRule : Type 0 where
  pub cookie : ℕ
  pub priority : ℕ
  pub table : ℕ
  pub match : Bytes
  pub action : Bytes

abbrev pub text_size : ℕ
text_size = 1024

-- `snprintf` into what is left of an array, and the test of its result: the text, if it fits.
unfoldable pub snprintf : ℕ → Bytes → Option Bytes
snprintf room text = if ltb (length text) room then some text else none

-- `_FARG` for a match and for an action: the key and the printed field, or two empty texts.
unfoldable pub match_arg : Bytes → Bytes → Bytes → Bytes
match_arg mask key text = if match_is_be_set mask then key ++ text else []

unfoldable pub action_arg : AccAction → ℕ → Bytes → Bytes → Bytes
action_arg a bit key text = if action_is_set a bit then key ++ text else []

unfoldable pub match_text : AccFlow → Bytes
unfolding match_arg
match_text f =
    match_arg f.mask.srcmac (codes " eth_src=") (print_mac f.match.srcmac)
    ++ (codes " "
        ++ (match_arg f.mask.dstmac (codes " eth_dst=") (print_mac f.match.dstmac)
            ++ (codes " ip "
                ++ (match_arg f.mask.src_ip (codes " nw_src=") (print_ip f.match.src_ip)
                    ++ (codes " "
                        ++ match_arg f.mask.dst_ip (codes " nw_dst=") (print_ip f.match.dst_ip))))))

-- The prefix of a protocol, and the two ports under its keys.
unfoldable pub ports_arg : Bytes → Bytes → Bytes → AccFlow → Bytes
unfolding match_arg
ports_arg prefix src_key dst_key f =
    prefix
    ++ (match_arg f.mask.src_port src_key (print_port f.match.src_port)
        ++ (codes " " ++ match_arg f.mask.dst_port dst_key (print_port f.match.dst_port)))

-- The text for the ports, by protocol; `none` for a protocol that is not supported.
unfoldable pub port_text : AccFlow → Option Bytes
unfolding ports_arg
port_text f =
    if head_byte f.match.protocol == 6
    then some (ports_arg (codes " tcp ") (codes " tcp_src=") (codes " tcp_dst=") f)
    else if head_byte f.match.protocol == 17
    then some (ports_arg (codes " udp ") (codes " udp_src=") (codes " udp_dst=") f)
    else none

unfoldable pub action_text : AccAction → Bytes
unfolding action_arg
action_text a =
    codes " actions="
    ++ (action_arg a field_srcmac (codes " mod_dl_src:") (print_mac a.srcmac)
        ++ (codes " "
            ++ (action_arg a field_dstmac (codes " mod_dl_dst:") (print_mac a.dstmac)
                ++ (codes " "
                    ++ (action_arg a field_src_ip (codes " mod_nw_src:") (print_ip a.src_ip)
                        ++ (codes "  "
                            ++ (action_arg a field_dst_ip (codes " mod_nw_dst:") (print_ip a.dst_ip)
                                ++ (codes " "
                                    ++ (action_arg a field_src_port (codes " mod_tp_src:")
                                          (print_port a.src_port)
                                        ++ (codes " "
                                            ++ (action_arg a field_dst_port (codes " mod_tp_dst:")
                                                  (print_port a.dst_port)
                                                ++ codes " output:normal")))))))))))

infixl 5 ◌>>=◌
abbrev pub ◌>>=◌ {ℓ κ} : {A : Type ℓ} {B : Type κ} → Option A → (A → Option B) → Option B
none >>= f = none
some a >>= f = f a

-- `none` is the return of -1.
unfoldable pub acc_ovs_build_ofctl_rule : AccContext → AccFlow → Option AccOfctlRule
unfolding snprintf
acc_ovs_build_ofctl_rule state flow = do
  addresses ← snprintf text_size (match_text flow)
  text ← port_text flow
  ports ← snprintf (text_size - length addresses) text
  action ← snprintf text_size (action_text flow.action)
  some (record {
    cookie = state.hostid;
    priority = 68;
    table = 0;
    match = addresses ++ ports;
    action = action;
  })
