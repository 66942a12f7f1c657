-- ===== src/Startup.antt =====
-- common/be_module.h: the functions that `module_init` runs before `main`, on the globals of
-- rule/acc_rule_be.c, message/be_acc_msg.c and plugins/common/be_plugin.c.
pub mod Order
pub mod Serves
mod Tests
use be_la.Prelude.{
  ℕ, ◌+◌, Option, none, some, List, [], ◌∷◌, replicate, Status, success, failure, Outcome, done,
  ◌>>=◌, codes, ltb, if◌then◌else◌,
}
use be_la.Plugin.{AccPlugin, blank_plugins, be_plugin_register}
use be_la.Plugin.Drivers.{Driver, driver_init}
use be_la.RuleBe.{AccRuleBe, acc_rule_be_register, blank_registry}
use be_la.Session.{RuleFuncs, ovs}
use be_la.Session.Dispatch.{HandlerTable, acc_unix_server_msg_init}
use be_la.Wire.{acc_unix_max_type}

-- The globals that the functions write.
pub record Globals : Type 0 where
  pub rule_bes : List (AccRuleBe RuleFuncs)
  pub handlers : HandlerTable
  pub plugins : List (AccPlugin Driver)

-- The zeroed memory of a program that starts.
abbrev pub blank_globals : Globals
blank_globals = record {
  rule_bes = blank_registry;
  handlers = replicate acc_unix_max_type none;
  plugins = blank_plugins;
}

-- The functions that the program gives to `module_init`; a plugin's registration has the plugin,
-- and `driver` for the functions of it.
pub data Module : Type 0 where
  ovs_rules server_messages : Module
  plugin : Driver → AccPlugin Driver → Module

-- The first argument of `module_init`.
abbrev pub level : Module → ℕ
level ovs_rules = 1
level server_messages = 2
level (plugin d p) = 10

-- `MAKE_USER_LEVEL`: the priority of the constructor. A lower one runs first.
abbrev pub make_user_level : ℕ → ℕ
make_user_level l = 101 + l

abbrev pub acc_rule_ovs : AccRuleBe RuleFuncs
acc_rule_ovs = record { name = codes "ovs-rule"; funcs = some ovs }

unfoldable pub acc_ovs_rule_be_register :
    List (AccRuleBe RuleFuncs) → Status × List (AccRuleBe RuleFuncs)
unfolding acc_rule_be_register
acc_ovs_rule_be_register t = acc_rule_be_register t (some acc_rule_ovs)

-- The call of a module's function.
unfoldable pub run_function : Module → Globals → Outcome (Status × Globals)
unfolding acc_ovs_rule_be_register acc_unix_server_msg_init be_plugin_register driver_init
run_function ovs_rules g =
    let (status, t) = acc_ovs_rule_be_register g.rule_bes in
    done (status, record g { rule_bes = t })
run_function server_messages g =
    let (status, t) = acc_unix_server_msg_init g.handlers in
    done (status, record g { handlers = t })
run_function (plugin d p) g =
    be_plugin_register g.plugins p (driver_init d) >>= λ r. done (r.0, record g { plugins = r.1 })

-- `MAKE_SELF_DEAD` behind a function that failed: `none` is the process that has exited with 1.
abbrev pub or_dead : Status × Globals → Option Globals
or_dead (success, g) = some g
or_dead (failure, g) = none

unfoldable pub module_init : Module → Globals → Outcome (Option Globals)
unfolding run_function
module_init m g = run_function m g >>= λ r. done (or_dead r)

-- The constructors, in the order in which they run.
unfoldable pub start : List Module → Globals → Outcome (Option Globals)
unfolding module_init
start [] g = done (some g)
start (m ∷ ms) g = module_init m g >>= λ o. elim o [ none ↦ done none | some h ↦ start ms h ]
