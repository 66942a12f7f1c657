-- ===== src/Plugin/Tests.antt =====
-- The plugin table of plugins/common/be_plugin.c at concrete inputs.
use be_la.Prelude.{◌≡◌, refl, none, some, List, success, failure, done, set, arith}
use be_la.Plugin.{
  AccPlugin, blank_plugins, checked, has_funcs, be_plugin_destroy, drop_plugin,
  be_plugin_unregister, be_plugin_match,
}
use be_la.Plugin.Drivers.{
  Driver, liquidio, s_netronome_plugin, s_intel_qat_plugin, s_liquidio_plugin,
}
use be_la.Plugin.Table.{RegisterResult, register_plugin_lem}

abbrev at_start : List (AccPlugin Driver)
at_start =
    set (set (set blank_plugins 8 s_netronome_plugin) 26 s_intel_qat_plugin) 34 s_liquidio_plugin

unregister_keeps : be_plugin_unregister at_start s_liquidio_plugin ≡ done (failure, at_start)
unfolding be_plugin_unregister has_funcs be_plugin_destroy drop_plugin
unregister_keeps = refl

match_flow :
    be_plugin_match at_start
      (record { vendor = 4; model = 6; acc_type = 1; vm_uuid = List.[]; vmpath = List.[] })
    ≡ done (some (4, 6))
unfolding be_plugin_match checked
match_flow = refl

match_crypto :
    be_plugin_match at_start
      (record { vendor = 4; model = 6; acc_type = 2; vm_uuid = List.[]; vmpath = List.[] })
    ≡ done none
unfolding be_plugin_match checked
match_crypto = refl

register_plugin_lem_example : RegisterResult at_start s_liquidio_plugin success 4 6
register_plugin_lem_example =
    register_plugin_lem at_start s_liquidio_plugin success liquidio 4 6 refl refl (omega arith)
      (omega arith) (omega arith) (omega arith) (omega arith)
