-- ===== src/Ovs/Buffers.antt =====
-- The static buffers of rule/openvswitch/acc_ovs_rule.c: the six functions that print into one, and
-- `acc_ovs_build_ofctl_rule` with the calls of them among the arguments of `snprintf`.
use be_la.Prelude.{
  ℕ, ◌++◌, ◌==◌, if◌then◌else◌, Bool, Bytes, Option, none, some, List, [], ◌∷◌, codes, head_byte,
  length, ◌-◌,
}
use be_la.Context.{AccContext}
use be_la.Flow.{
  AccAction, AccFlow, match_is_be_set, action_is_set, field_srcmac, field_dstmac, field_src_ip,
  field_dst_ip, field_src_port, field_dst_port,
}
use be_la.Ovs.Print.{print_port, print_ip, print_mac}
use be_la.Ovs.Rule.{AccOfctlRule, text_size, snprintf, ◌>>=◌}

-- The functions, each with a static buffer of its own.
pub data Printer : Type 0 where
  print_ip1 : Printer
  print_ip2 : Printer
  print_mac1 : Printer
  print_mac2 : Printer
  print_port1 : Printer
  print_port2 : Printer

-- The place of a function's static buffer.
abbrev pub buffer_at : Printer → ℕ
buffer_at print_ip1 = 0
buffer_at print_ip2 = 1
buffer_at print_mac1 = 2
buffer_at print_mac2 = 3
buffer_at print_port1 = 4
buffer_at print_port2 = 5

-- The strings in the static buffers, by the function that owns them.
abbrev pub Buffers : Type 0
Buffers = Printer → Bytes

-- What a function prints.
abbrev pub printed : Printer → Bytes → Bytes
printed print_ip1 v = print_ip v
printed print_ip2 v = print_ip v
printed print_mac1 v = print_mac v
printed print_mac2 v = print_mac v
printed print_port1 v = print_port v
printed print_port2 v = print_port v

-- A call fills the function's buffer; the pointer that it returns is to that buffer.
unfoldable pub print_into : Printer → Bytes → Buffers → Buffers
print_into p v s q = if buffer_at q == buffer_at p then printed p v else s q

-- The two arguments of `_FARG`: the key, and the call of a function on a field, if its bit is set.
pub record Argument : Type 0 where
  pub is_set : Bool
  pub key : Bytes
  pub printer : Printer
  pub value : Bytes

-- The arguments are evaluated, one after the other.
unfoldable pub evaluate : List Argument → Buffers → Buffers
evaluate [] s = s
evaluate (a ∷ r) s = evaluate r (if a.is_set then print_into a.printer a.value s else s)

-- What `snprintf` reads through the two pointers, after all calls.
unfoldable pub shown : Buffers → Argument → Bytes
shown s a = if a.is_set then a.key ++ s a.printer else []

abbrev pub match_argument : Bytes → Bytes → Printer → Bytes → Argument
match_argument mask key printer value = record {
  is_set = match_is_be_set mask;
  key = key;
  printer = printer;
  value = value;
}

abbrev pub action_argument : AccAction → ℕ → Bytes → Printer → Bytes → Argument
action_argument a bit key printer value = record {
  is_set = action_is_set a bit;
  key = key;
  printer = printer;
  value = value;
}

-- A format string with its arguments: a text to start with, and the text behind each argument, but
-- for one at the end.
unfoldable pub format : Buffers → Bytes → List Argument → List Bytes → Bytes
format s start (a ∷ r) (t ∷ ts) = start ++ (shown s a ++ format s t r ts)
format s start [] ts = start
format s start (a ∷ r) [] = start ++ shown s a

abbrev pub match_arguments : AccFlow → List Argument
match_arguments f =
    match_argument f.mask.srcmac (codes " eth_src=") print_mac1 f.match.srcmac
    ∷ match_argument f.mask.dstmac (codes " eth_dst=") print_mac2 f.match.dstmac
    ∷ match_argument f.mask.src_ip (codes " nw_src=") print_ip1 f.match.src_ip
    ∷ match_argument f.mask.dst_ip (codes " nw_dst=") print_ip2 f.match.dst_ip
    ∷ []

abbrev pub port_arguments : Bytes → Bytes → AccFlow → List Argument
port_arguments src_key dst_key f =
    match_argument f.mask.src_port src_key print_port1 f.match.src_port
    ∷ match_argument f.mask.dst_port dst_key print_port2 f.match.dst_port
    ∷ []

abbrev pub action_arguments : AccAction → List Argument
action_arguments a =
    action_argument a field_srcmac (codes " mod_dl_src:") print_mac1 a.srcmac
    ∷ action_argument a field_dstmac (codes " mod_dl_dst:") print_mac2 a.dstmac
    ∷ action_argument a field_src_ip (codes " mod_nw_src:") print_ip1 a.src_ip
    ∷ action_argument a field_dst_ip (codes " mod_nw_dst:") print_ip2 a.dst_ip
    ∷ action_argument a field_src_port (codes " mod_tp_src:") print_port1 a.src_port
    ∷ action_argument a field_dst_port (codes " mod_tp_dst:") print_port2 a.dst_port
    ∷ []

-- The two texts of `match` and that of `action`, with the strings that the buffers hold.
abbrev pub match_shown : Buffers → AccFlow → Bytes
match_shown s f = format s [] (match_arguments f) (codes " " ∷ codes " ip " ∷ codes " " ∷ [])

abbrev pub ports_shown : Buffers → Bytes → Bytes → Bytes → AccFlow → Bytes
ports_shown s prefix src_key dst_key f =
    format s prefix (port_arguments src_key dst_key f) (codes " " ∷ [])

abbrev pub action_shown : Buffers → AccAction → Bytes
action_shown s a =
    format s (codes " actions=") (action_arguments a)
      (codes " " ∷ codes " " ∷ codes "  " ∷ codes " " ∷ codes " " ∷ codes " output:normal" ∷ [])

-- The order in which the compiler has the arguments of a call evaluated.
abbrev pub EvalOrder : Type 0
EvalOrder = List Argument → List Argument

-- The text for the ports, with the buffers that it leaves.
unfoldable pub print_ports : EvalOrder → Buffers → AccFlow → Option (Bytes × Buffers)
print_ports order s f =
    let tcp = evaluate (order (port_arguments (codes " tcp_src=") (codes " tcp_dst=") f)) s in
    let udp = evaluate (order (port_arguments (codes " udp_src=") (codes " udp_dst=") f)) s in
    if head_byte f.match.protocol == 6
    then some (ports_shown tcp (codes " tcp ") (codes " tcp_src=") (codes " tcp_dst=") f, tcp)
    else if head_byte f.match.protocol == 17
    then some (ports_shown udp (codes " udp ") (codes " udp_src=") (codes " udp_dst=") f, udp)
    else none

-- `acc_ovs_build_ofctl_rule` on the static buffers.
unfoldable pub build_in : EvalOrder → Buffers → AccContext → AccFlow → Option AccOfctlRule
build_in order s state flow = do
  let s₁ = evaluate (order (match_arguments flow)) s
  addresses ← snprintf text_size (match_shown s₁ flow)
  (text, s₂) ← print_ports order s₁ flow
  ports ← snprintf (text_size - length addresses) text
  let s₃ = evaluate (order (action_arguments flow.action)) s₂
  action ← snprintf text_size (action_shown s₃ flow.action)
  some (record {
    cookie = state.hostid;
    priority = 68;
    table = 0;
    match = addresses ++ ports;
    action = action;
  })
