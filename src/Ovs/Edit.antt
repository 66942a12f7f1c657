-- ===== src/Ovs/Edit.antt =====
-- `acc_ovs_edit_rules`, `acc_ovs_flush_rules` and the execution of commands of
-- rule/openvswitch/acc_ovs_rule.c.
use be_la.Prelude.{
  ℕ, ◌+◌, ◌-◌, Bool, true, false, Bytes, Option, none, some, List, [], ◌∷◌, ◌++◌, Status, success,
  failure, length, codes, c_str, drop, if◌then◌else◌,
}
use be_la.Context.{AccContext, SshRemote, hostname_size}
use be_la.Flow.{AccFlow}
use be_la.Ovs.Print.{print_d, print_x}
use be_la.Ovs.Rule.{AccOfctlRule, snprintf, acc_ovs_build_ofctl_rule}

-- What `system` and `ssh_remote_exec` return for the command that is run after so many others.
pub record Host : Type 0 where
  pub system_result : ℕ → Bytes → Status
  pub ssh_result : ℕ → SshRemote → Bytes → Status

pub data Executed : Type 0 where
  locally : Bytes → Executed
  remotely : SshRemote → Bytes → Executed

-- The commands handed to the shell so far, oldest first, and how many arrays of rules are
-- allocated.
pub record OvsState : Type 0 where
  pub executed : List Executed
  pub live_rules : ℕ

-- `state->bridge`, as `%s` prints it.
abbrev pub bridge_of : AccContext → Bytes
bridge_of state = c_str (drop hostname_size state.names)

abbrev pub entry : AccContext → Bytes → Executed
entry state rule = elim state.ssh_remote [ some r ↦ remotely r rule | none ↦ locally rule ]

abbrev pub result_of : Host → AccContext → ℕ → Bytes → Status
result_of h state n rule = elim state.ssh_remote [
  | some r ↦ h.ssh_result n r rule
  | none ↦ h.system_result n rule
]

unfoldable pub execute_openflow_rule : Host → AccContext → Bytes → OvsState → Status × OvsState
execute_openflow_rule h state rule s = (
  result_of h state (length s.executed) rule,
  record s { executed = s.executed ++ (entry state rule ∷ []) },
)

abbrev pub buffer_size : ℕ
buffer_size = 4096

unfoldable pub flush_command : AccContext → Bytes
flush_command state =
    codes "ovs-ofctl del-flows "
    ++ (bridge_of state ++ (codes " cookie=0X" ++ (print_x state.hostid ++ codes "/-1")))

unfoldable pub acc_ovs_flush_rules : Host → AccContext → OvsState → Status × OvsState
acc_ovs_flush_rules h state s = elim (snprintf buffer_size (flush_command state)) [
  | none ↦ (failure, s)
  | some c ↦ execute_openflow_rule h state c s
]

unfoldable pub edit_command : Bool → AccContext → AccOfctlRule → Bytes
edit_command is_delete state r =
    codes "ovs-ofctl "
    ++ ((if is_delete then codes "del-flow" else codes "add-flow")
        ++ (codes " "
            ++ (bridge_of state
                ++ (codes " 'cookie=0X"
                    ++ (print_x r.cookie
                        ++ (codes " priority="
                            ++ (print_d r.priority
                                ++ (codes " table="
                                    ++ (print_d r.table
                                        ++ (codes " "
                                            ++ (r.match
                                                ++ (codes " " ++ (r.action ++ codes "'")))))))))))))

-- The loop of `acc_ovs_make_ofctl_rules`: all the rules, or none when one cannot be built.
unfoldable pub make_rules : AccContext → List AccFlow → Option (List AccOfctlRule)
make_rules state [] = some []
make_rules state (f ∷ fs) = elim (acc_ovs_build_ofctl_rule state f) [
  | none ↦ none
  | some r ↦ elim (make_rules state fs) [ none ↦ none | some rs ↦ some (r ∷ rs) ]
]

abbrev pub if_done : Status × OvsState → (OvsState → Status × OvsState) → Status × OvsState
if_done (success, s) k = k s
if_done (failure, s) k = (failure, s)

-- The loop of `acc_ovs_edit_rules`, up to the first command that fails.
unfoldable pub run_rules :
    Host → AccContext → Bool → List AccOfctlRule → OvsState → Status × OvsState
run_rules h state is_delete [] s = (success, s)
run_rules h state is_delete (r ∷ rs) s =
    elim (snprintf buffer_size (edit_command is_delete state r)) [
      | none ↦ (failure, s)
      | some c ↦
          if_done (execute_openflow_rule h state c s) (λ s'. run_rules h state is_delete rs s')
    ]

-- What follows the loop: only the failing path frees the rules.
unfoldable pub after_loop : Host → AccContext → Bool → Status × OvsState → Status × OvsState
after_loop h state is_delete (success, s) = (success, s)
after_loop h state is_delete (failure, s) =
    let freed = record s { live_rules = s.live_rules - 1 } in
    if is_delete then (failure, freed) else (failure, (acc_ovs_flush_rules h state freed).1)

-- `allocated` tells whether `calloc` returns memory for the rules.
unfoldable pub acc_ovs_edit_rules :
    Host → AccContext → List AccFlow → Bool → Bool → OvsState → Status × OvsState
acc_ovs_edit_rules h state flows is_delete false s = (failure, s)
acc_ovs_edit_rules h state flows is_delete true s = elim (make_rules state flows) [
  | none ↦ (failure, s)
  | some rules ↦
      after_loop h state is_delete
        (run_rules h state is_delete rules (record s { live_rules = s.live_rules + 1 }))
]

unfoldable pub acc_ovs_add_rules :
    Host → AccContext → List AccFlow → Bool → OvsState → Status × OvsState
acc_ovs_add_rules h state flows allocated s = acc_ovs_edit_rules h state flows false allocated s

unfoldable pub acc_ovs_remove_rules :
    Host → AccContext → List AccFlow → Bool → OvsState → Status × OvsState
acc_ovs_remove_rules h state flows allocated s = acc_ovs_edit_rules h state flows true allocated s
