-- ===== src/Lib.antt =====
-- be_la: the local agent of accelerator cards. A daemon registers the cards of virtual machines,
-- talks to each machine over a channel, and turns the flows that it asks for into Open vSwitch rules;
-- a client in the guest offers the flows.
--
-- The parts, and the files that model them (paths from the repository's root):
--   Vendor     be_la/be_la_vendor.h, be_la/be_la_cmd.h: enumerations and the command.
--   Context    message/be_acc_context.h and .c: the context of a card.
--   Cards      be_la/be_acc_card.c and .h: the table of cards (be_acc_card_reg, be_acc_card_unreg,
--              be_la_get_acc_cardptr).
--   Plugin     plugins/common/be_plugin.c and .h: the table of plugins; Plugin/Drivers the drivers
--              of plugins/netronome, plugins/intel_qat and plugins/cavium.
--   RuleBe     rule/acc_rule_be.c and .h: the registry of rule backends.
--   Flow       flow/acc_flow.h: flows and their masks.
--   Ovs        rule/openvswitch/acc_ovs_rule.c: Print the fields, Rule and Build a rule, Buffers,
--              Filled and Orders the same on the static buffers, Edit the commands, Loop and
--              Transaction what they come to.
--   Wire       message/be_acc_msg.h: Iovec, Send and Advance for writes, Receive and Stream for
--              reads, Transport, Message and Exchange for both.
--   Session    message/be_acc_msg.c: Names the memory of a context's names, Handlers the handlers,
--              Hello, Lifecycle, Balance and Close the life of a context, Dispatch the table of
--              handlers and the drivers' way to it, Ready, Made and Returns when a handler returns.
--   Daemon     be_la/be_channel.c, be_la/be_la_cmd.c, be_la/be_main.c: Channel and Command the
--              callbacks, Events their sequences, Connect, Unended and Ends what they come to, Ready,
--              Opened, Commands and Progress why the loop goes on, Address the memory of a
--              socket's address, Server the socket of commands, what accepts on it, and main.
--   Startup    common/be_module.h: the registrations before main, Order in every order of the
--              linker, Serves the daemon from there on.
--   Client     vnf/cgnat-acc: acc_vsocket.c in Types, acc_client.c in Clients and Registration,
--              acc_channel_vsocket.c in Channel, acc_channel.h with the devices in Device,
--              cgnapt_accelerate.c in Accelerate, Translate and Dump.
--   Dialogue   the client and the daemon, each with what the other sends.
--   Tool       tool/accsh.c and accsh_comm.c: Reading what the options ask for, Fields, Put and
--              Parse the memory of the command, Sends what a run comes to.
--   Remote     common/ssh_remote_exec.c and tool/ssh_exec.c: Released what is freed.
-- A function of the source has its name here; a helper stands for a loop or a branch of the function
-- that its comment names. Prelude holds the shared tests, lists, characters and faults.
--
-- How they interact: a command of be_la_cmd_process registers a card and opens its channel; each
-- message on the channel runs do_vm_request_read, which reads it with acc_unix_recv_message, gives it
-- to be_acc_message_process and sends the answer; a HELLO makes a context through the plugin that
-- matches the card; ADD_FLOWS and DISCONNECT call the context's rule backend, which runs ovs-ofctl.
--
-- State is passed and returned: the table of cards, World for the other globals, Daemon for both.
-- Status is the return code 0 or -1, and Outcome a value or the end of the process by a Fault. Memory
-- is bytes where its layout matters: messages, commands, flows, and the two names of a context. What
-- the system returns (malloc, read, writev, connect, system, ssh_remote_exec) is an argument of the
-- call: a list of arrivals or writes, a Host, a Network, an Env. The heap counts live contexts and
-- remote shells. A card object has the address that calloc returned, and a callback on an object that
-- no slot holds is a use after free.
--
-- Numbers: 32-bit words keep their wrap-around; the length of a received message is a 32-bit pattern,
-- negative from 2^31 on. The tables have 64 cards, 32 backends, 6 by 7 plugins and 32 clients; the
-- buffers have 1024 bytes for a rule's texts, 4096 for a command and 2048 for a message. Printing runs
-- on fuel: 10 decimal and 8 hexadecimal digits, which are enough for 32 bits. Other loops are
-- structural over the array, the arrivals or the writes. A struct acc_flow has 92 bytes and a command
-- 272, with the compiler's padding on a 64-bit little-endian machine.
--
-- Not modelled: log lines and what only prints, be_acc_cards_dump among them; libevent, of which the
-- events that wait are counted; getopt_long, which is a list of options; libssh, of which each call
-- has a result; SIGPIPE, so that a turn of the loop on a channel is one whose answer went out; the
-- example program in docs and the patches of another project. A call that blocks is the value
-- waiting, stuck or none.
--
-- The path of a command is the string from its array on, which without a NUL goes on into cmd_type:
-- path_at in Daemon/Command. In the table the field behind it is 0, so the array's end is its end.
pub mod Prelude
pub mod Vendor
pub mod Context
pub mod Cards
pub mod RuleBe
pub mod Wire
pub mod Plugin
pub mod Flow
pub mod Ovs
pub mod Session
pub mod Daemon
pub mod Startup
pub mod Tool
pub mod Remote
pub mod Client
pub mod Dialogue
