-- ===== src/Context.antt =====
-- message/be_acc_context.h: the context of a card, with the remote shell that a LiquidIO card needs.
use be_la.Prelude.{ℕ, ◌+◌, Bytes, Option, none, replicate}

-- `struct ssh_remote_execute`
pub record SshRemote : Type 0 where
  pub remote_ip : Bytes
  pub username : Bytes
  pub password : Bytes
  pub port : ℕ

-- `struct acc_context`. `names` is the memory of the adjacent arrays `hostname[256]` and
-- `bridge[256]`. `be` is the index of the rule backend that the pointer designates.
pub record AccContext : Type 0 where
  pub names : Bytes
  pub hostid : ℕ
  pub be : Option ℕ
  pub ssh_remote : Option SshRemote

abbrev pub hostname_size : ℕ
hostname_size = 256

abbrev pub bridge_size : ℕ
bridge_size = 256

-- What `acc_context_alloc` returns when `malloc` succeeds: the zeroed structure.
abbrev pub blank_context : AccContext
blank_context = record {
  names = replicate (hostname_size + bridge_size) 0;
  hostid = 0;
  be = none;
  ssh_remote = none;
}
