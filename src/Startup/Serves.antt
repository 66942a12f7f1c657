-- ===== src/Startup/Serves.antt =====
-- The daemon of be_la/be_main.c from its start on.
use be_la.Plugin.Drivers.{Heap}
use be_la.Ovs.Edit.{OvsState}
use be_la.Session.{World}
use be_la.Daemon.{Daemon}
use be_la.Startup.{Globals}

abbrev pub world_of : Globals → Heap → OvsState → World
world_of g heap switch = record {
  plugins = g.plugins;
  rule_bes = g.rule_bes;
  heap = heap;
  switch = switch;
  context_host_id = 0xDEAD0000;
}
