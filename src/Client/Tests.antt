-- ===== src/Client/Tests.antt =====
-- The client of vnf/cgnat-acc at concrete inputs.
use be_la.Prelude.{
  ◌+◌, ℕ, ◌≡◌, refl, true, false, none, some, List, [], ◌∷◌, success, failure, done, set, codes,
  bytes_eq, arith, inl, inr, head_byte, ◌⊎◌, ◌<◌, length, crash, out_of_bounds,
}
use be_la.Context.{blank_context}
use be_la.Wire.Send.{wrote}
use be_la.Wire.Receive.{Arrival, chunk}
use be_la.Client.{AccClient, VsocketType, blank_types, flows_accept, disconnect}
use be_la.Client.Types.{
  is_hit, vsocket_get_by_name, vsocket_type_get_last_idx, vsocket_type_add,
  acc_vsocket_type_register, acc_vsocket_unix_register, channel_vsocket,
}
use be_la.Client.Clients.{Tables}
use be_la.Client.Registration.{RegisterResult, client_register_lem}
use be_la.Wire.{header_bytes}
use be_la.Wire.Send.{failed, send_loop, acc_unix_send_message}
use be_la.Wire.Receive.{acc_unix_recv_message}
use be_la.Wire.Exchange.{wait_read_event, when_sent, recv_result, acc_unix_send_recv}
use be_la.Client.Device.{
  Device, channel_connect, channel_disconnect, connect_opened, connect_or_close, close_behind,
  acc_channel_use_unixsocket, acc_channel_open, acc_channel_close, acc_virtio_channel_open,
  acc_virtio_channel_close, connect_disconnect_balance,
}
use be_la.Client.Channel.{Line, agrees, acc_channel_disconnect, disconnect_result, returned}
use be_la.Client.Accelerate.{Peer, Returns, accelerate_with, accelerate_with-Returns}
use be_la.Flow.{AccFlow, match_is_be_set, action_is_set}
use be_la.Ovs.Print.{print_d, print_base}
use be_la.Client.Dump.{
  Dumped, acc_flows_dumps, put_parts, put_if, put_text, dump_parts, joined, flows_dumps_fit,
}
use be_la.Client.Translate.{
  zero_match, zero_action, Translation, MadeRule, source_port, build-make_flow,
}

abbrev types : List VsocketType
types = set blank_types 0 channel_vsocket

types_at_start : acc_vsocket_unix_register blank_types ≡ (success, types)
unfolding acc_vsocket_unix_register vsocket_get_by_name vsocket_type_get_last_idx vsocket_type_add
    is_hit
types_at_start = refl

-- The same name is entered a second time.
type_twice : acc_vsocket_unix_register types ≡ (success, set types 1 channel_vsocket)
unfolding acc_vsocket_unix_register vsocket_get_by_name vsocket_type_get_last_idx vsocket_type_add
    is_hit bytes_eq
type_twice = refl

-- Another name is refused.
type_other : acc_vsocket_type_register types (record { name = codes "unix" }) ≡ (failure, types)
unfolding acc_vsocket_type_register vsocket_get_by_name vsocket_type_get_last_idx vsocket_type_add
    is_hit bytes_eq
type_other = refl

abbrev one : AccClient
one = record { id = 7; handle = 0; socket = some 0 }

abbrev tables : Tables
tables = record {
  clients = one ∷ (record { id = 0; handle = 0; socket = none } ∷ []);
  types = types;
}

client_register_lem_example : RegisterResult 8 tables 7
client_register_lem_example =
    client_register_lem 8 tables 7 (λ e. absurd (omega arith))
      (inr ((λ e. absurd (omega arith)), inl (refl, tt))) (λ e. absurd (omega arith))

abbrev peer : Peer
peer = record { on_open = disconnect; handle = 4; on_new = flows_accept }

accelerate_with-Returns_example :
    (r : ℕ × AccClient) × (accelerate_with peer one ≡ done r) × Returns peer one r.0
accelerate_with-Returns_example = accelerate_with-Returns peer one

abbrev reply : List Arrival
reply = chunk 16 (0 ∷ 0 ∷ 0 ∷ 1 ∷ 0 ∷ 0 ∷ 0 ∷ 2 ∷ 0 ∷ 0 ∷ 0 ∷ 1 ∷ 0 ∷ 0 ∷ 0 ∷ []) ∷ []

abbrev nat : Translation
nat = record {
  srcmac = 0x7FFE01020304;
  dstmac = 0x7FFE0102030A;
  src_ip = 10 ∷ 0 ∷ 0 ∷ 1 ∷ [];
  src_port = 57 ∷ 48 ∷ [];
  protocol = 17 ∷ [];
  xlate_srcmac = 0x7FFE01020310;
  xlate_dstmac = 0x7FFE01020316;
  xlate_src_ip = 192 ∷ 168 ∷ 1 ∷ 2 ∷ [];
  xlate_src_port = 1 ∷ 0 ∷ [];
}

build-make_flow_example :
    ((head_byte nat.protocol ≡ 6)
      × MadeRule blank_context nat (source_port (codes " tcp ") (codes " tcp_src=") nat))
    ⊎ ((head_byte nat.protocol ≡ 17)
        × MadeRule blank_context nat (source_port (codes " udp ") (codes " udp_src=") nat))
build-make_flow_example = build-make_flow blank_context nat (inr refl)

abbrev one_field : AccFlow
one_field = record {
  match = record zero_match { protocol = 6 ∷ [] };
  mask = record zero_match { protocol = 255 ∷ [] };
  action = zero_action;
}

flows_dumps_fit_example :
    (d : Dumped) × (acc_flows_dumps 4096 one_field ≡ done d)
    × (d.text ≡ joined (dump_parts one_field))
    × (d.used ≡ length d.text)
    × (length d.text < 4096)
flows_dumps_fit_example = flows_dumps_fit one_field

-- The text is " protocol  6---->\n", and a buffer of 18 bytes has no room for its NUL.
one_field_text :
    acc_flows_dumps 19 one_field ≡ done (record { text = codes " protocol  6---->\n"; used = 18 })
unfolding acc_flows_dumps put_parts put_if put_text dump_parts match_is_be_set action_is_set print_d
    print_base
one_field_text = refl

one_field_overflow : acc_flows_dumps 18 one_field ≡ crash out_of_bounds
unfolding acc_flows_dumps put_parts put_if put_text dump_parts match_is_be_set action_is_set print_d
    print_base
one_field_overflow = refl

-- A connect that is answered, and a disconnect whose exchange fails.
abbrev port : Device
port = record { port = some 3; socket = none; connect = failure }

abbrev broken : Line
broken = record {
  writes = failed ∷ [];
  poll = record { positive = false; revents = false };
  arrivals = [];
}

connect_broken :
    channel_connect acc_channel_use_unixsocket port (some (codes "vm")) broken 7 ≡ returned (0, 7)
unfolding channel_connect connect_opened connect_or_close acc_channel_open acc_virtio_channel_open
    acc_channel_close acc_virtio_channel_close acc_unix_send_recv when_sent acc_unix_send_message
    send_loop wait_read_event
connect_broken = refl

abbrev welcome : Line
welcome = record broken {
  writes = wrote 18 ∷ [];
  poll = record { positive = true; revents = true };
  arrivals = chunk 16 (0 ∷ 0 ∷ 0 ∷ 1 ∷ 0 ∷ 0 ∷ 0 ∷ 1 ∷ 0 ∷ 0 ∷ 0 ∷ 0 ∷ 0 ∷ 0 ∷ 0 ∷ []) ∷ [];
}

abbrev connection : ℕ × ℕ
connection = (3, 8)

abbrev fds_before : ℕ
fds_before = 7

connect_welcome :
    channel_connect acc_channel_use_unixsocket port (some (codes "vm")) welcome fds_before
    ≡ returned connection
unfolding channel_connect connect_opened connect_or_close acc_channel_open acc_virtio_channel_open
    acc_unix_send_recv when_sent acc_unix_send_message send_loop wait_read_event
    acc_unix_recv_message header_bytes agrees recv_result
connect_welcome = refl

disconnect_broken :
    channel_disconnect acc_channel_use_unixsocket broken connection.1 ≡ returned fds_before
unfolding channel_disconnect close_behind acc_channel_disconnect disconnect_result acc_channel_close
    acc_virtio_channel_close acc_unix_send_recv when_sent acc_unix_send_message send_loop
    wait_read_event
disconnect_broken = refl

connect_disconnect_balance_example :
    ((connection.0 ≡ 0) × (connection.1 ≡ fds_before))
    ⊎ (((acc_channel_open acc_channel_use_unixsocket port fds_before).0 ≡ some connection.0)
        × (connection.1 ≡ fds_before + 1)
        × (fds_before ≡ fds_before))
connect_disconnect_balance_example =
    connect_disconnect_balance acc_channel_use_unixsocket port (some (codes "vm")) welcome broken
      fds_before fds_before connection connect_welcome disconnect_broken
