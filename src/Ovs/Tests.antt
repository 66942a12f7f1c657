-- ===== src/Ovs/Tests.antt =====
-- The rules of rule/openvswitch/acc_ovs_rule.c at concrete inputs.
use be_la.Prelude.{Bytes, ◌≡◌, refl, some, [], ◌∷◌, ◌++◌, success, codes, arith, replicate}
use be_la.Context.{AccContext, blank_context}
use be_la.Flow.{AccMatch, AccFlow, match_is_be_set, action_is_set}
use be_la.Ovs.Print.{print_d, print_x, print_ip, read_d, read_d-print_d}
use be_la.Ovs.Rule.{match_text, port_text, action_text, acc_ovs_build_ofctl_rule}
use be_la.Ovs.Buffers.{print_ip1, print_into, build_in}
use be_la.Ovs.Orders.{build_in-build}
use mathlib.Core.List.{reverse, reverse_perm}
use mathlib.Core.List.Perm
use be_la.Ovs.Build.{BuildResult, build_decides}
use be_la.Ovs.Edit.{Host, OvsState, flush_command}

abbrev zeros : AccMatch
zeros = record {
  srcmac = replicate 6 0;
  dstmac = replicate 6 0;
  src_ip = replicate 4 0;
  dst_ip = replicate 4 0;
  src_port = replicate 2 0;
  dst_port = replicate 2 0;
  protocol = 0 ∷ [];
}

-- TCP from 10.0.0.1, to be sent on from 192.168.1.2.
abbrev flow : AccFlow
flow = record {
  match = record zeros { src_ip = 10 ∷ 0 ∷ 0 ∷ 1 ∷ []; protocol = 6 ∷ [] };
  mask = record zeros { src_ip = replicate 4 255; protocol = 255 ∷ [] };
  action = record {
    field_mask = 8;
    srcmac = replicate 6 0;
    dstmac = replicate 6 0;
    src_ip = 192 ∷ 168 ∷ 1 ∷ 2 ∷ [];
    dst_ip = replicate 4 0;
    src_port = replicate 2 0;
    dst_port = replicate 2 0;
    protocol = replicate 1 0;
    dl_type = replicate 2 0;
  };
}

abbrev context : AccContext
context = record blank_context {
  names = replicate 256 0 ++ (codes "br0" ++ replicate 253 0);
  hostid = 171;
}

abbrev all_well : Host
all_well = record { system_result = λ n c. success; ssh_result = λ n r c. success }

abbrev idle : OvsState
idle = record { executed = []; live_rules = 0 }

read_d-print_d_example : read_d 0 (print_d 4294967295) ≡ 4294967295
read_d-print_d_example = read_d-print_d 4294967295 (omega arith)

build_decides_example : BuildResult context flow
build_decides_example = build_decides context flow

built_action :
    acc_ovs_build_ofctl_rule context flow
    ≡ some (record {
      cookie = 171;
      priority = 68;
      table = 0;
      match = codes "  ip  nw_src=10.0.0.1  tcp  ";
      action = codes " actions=   mod_nw_src:192.168.1.2     output:normal";
    })
unfolding acc_ovs_build_ofctl_rule match_text match_is_be_set print_ip print_d port_text action_text
    action_is_set
built_action = refl

flushed : flush_command context ≡ codes "ovs-ofctl del-flows br0 cookie=0XAB/-1"
unfolding flush_command print_x
flushed = refl

build_in-build_example :
    build_in reverse (λ p. []) context flow ≡ acc_ovs_build_ofctl_rule context flow
build_in-build_example =
    build_in-build reverse (λ l. Perm.symm (reverse_perm l)) (λ p. []) context flow

-- One buffer for both addresses would show the address printed last in both places.
shared_buffer :
    (source destination : Bytes)
    → print_into print_ip1 destination (print_into print_ip1 source (λ p. [])) print_ip1
      ≡ print_ip destination
unfolding print_into
shared_buffer source destination = refl
