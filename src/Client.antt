-- ===== src/Client.antt =====
-- vnf/cgnat-acc: the accelerator client in a guest. acc_vsocket.c keeps the socket types,
-- acc_client.c the clients, and cgnapt_accelerate.c offers a flow.
pub mod Types
pub mod Clients
pub mod Registration
pub mod Channel
pub mod Accelerate
pub mod Translate
pub mod Dump
pub mod Device
mod Tests
use be_la.Prelude.{
  ℕ, suc, ◌+◌, Bool, Bytes, Option, none, some, List, [], ◌∷◌, ◌==◌, if◌then◌else◌, head_byte,
  str_eq, set, replicate,
}

-- `enum acc_add_flow_error_code` of flow/acc_flow.h
pub data ErrorCode : Type 0 where
  disconnect invalid flows_accept flows_rejection : ErrorCode

-- The number of an enumerator.
abbrev pub code_of : ErrorCode → ℕ
code_of disconnect = 0
code_of invalid = 1
code_of flows_accept = 2
code_of flows_rejection = 3

-- `struct acc_vsocket_type`, without the functions: the one type of the program is that of
-- acc_channel_vsocket.c.
pub record VsocketType : Type 0 where
  pub name : Bytes

abbrev pub acc_client_max_size : ℕ
acc_client_max_size = 32

-- `struct acc_client`: `id` and `handle` are pointers, 0 for NULL, and `socket` is the index of the
-- type that the pointer designates.
pub record AccClient : Type 0 where
  pub id : ℕ
  pub handle : ℕ
  pub socket : Option ℕ

abbrev pub blank_type : VsocketType
blank_type = record { name = [] }

abbrev pub blank_client : AccClient
blank_client = record { id = 0; handle = 0; socket = none }

-- `s_acc_vsocket_types` and `s_acc_client`.
abbrev pub blank_types : List VsocketType
blank_types = replicate acc_client_max_size blank_type

abbrev pub blank_clients : List AccClient
blank_clients = replicate acc_client_max_size blank_client
