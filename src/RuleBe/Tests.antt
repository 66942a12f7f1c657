-- ===== src/RuleBe/Tests.antt =====
-- The registry of rule/acc_rule_be.c at concrete inputs.
use be_la.Prelude.{ℕ, ◌≡◌, refl, some, List, success, failure, codes, bytes_eq, arith, set}
use be_la.RuleBe.{
  AccRuleBe, blank_registry, get_rule_be_by_name, acc_get_first_rule_be, acc_rule_be_register,
}
use be_la.RuleBe.Registry.{
  blank-IsValid, LookupResult, lookup_complete, RegisterResult, register_lem,
}

abbrev ovs : AccRuleBe ℕ
ovs = record { name = codes "ovs-rule"; funcs = some 1 }

abbrev with_ovs : List (AccRuleBe ℕ)
with_ovs = set blank_registry 0 ovs

register_ovs : acc_rule_be_register blank_registry (some ovs) ≡ (success, with_ovs)
unfolding acc_rule_be_register get_rule_be_by_name
register_ovs = refl

register_twice : acc_rule_be_register with_ovs (some ovs) ≡ (failure, with_ovs)
unfolding acc_rule_be_register get_rule_be_by_name bytes_eq
register_twice = refl

first_is_ovs : acc_get_first_rule_be with_ovs ≡ some 0
unfolding acc_get_first_rule_be
first_is_ovs = refl

lookup_complete_example : LookupResult {F = ℕ} blank_registry (codes "ovs-rule")
lookup_complete_example = lookup_complete blank_registry (codes "ovs-rule") blank-IsValid

register_lem_example : RegisterResult blank_registry ovs
register_lem_example = register_lem blank_registry ovs blank-IsValid (λ e. absurd (omega arith))
