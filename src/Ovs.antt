-- ===== src/Ovs.antt =====
-- rule/openvswitch/acc_ovs_rule.c: flows as commands of `ovs-ofctl`, and their execution.
pub mod Print
pub mod Rule
pub mod Buffers
pub mod Filled
pub mod Orders
pub mod Build
pub mod Edit
pub mod Loop
pub mod Transaction
mod Tests
