-- ===== src/Tool.antt =====
-- tool/accsh.c, accsh_comm.c and accsh.h: the command line tool that sends the daemon a command.
-- The command is the memory of its 272 bytes, since the tool copies strings into it.
pub mod Fields
pub mod Reading
pub mod Put
pub mod Parse
pub mod Sends
mod Tests
use be_la.Prelude.{
  ℕ, suc, ◌+◌, ◌*◌, ◌%◌, ◌/◌, Bool, true, false, ◌||◌, ◌++◌, Bytes, Option, none, some, List, [],
  ◌∷◌, Status, success, failure, Outcome, done, crash, out_of_bounds, ◌>>=◌, ◌==◌, ltb,
  if◌then◌else◌, codes, c_str, str_eq, head_byte, length, take, drop, replicate, bit_or, write_at,
  strncpy,
}
use be_la.Vendor.{
  vendor_netronome, agilio_isa_4000, acc_type_flow, acc_type_compress, cmd_type_register,
  cmd_type_unregister,
}
use be_la.Wire.{word_bytes, bytes_word}
use be_la.Daemon.Command.{cmd_size}

-- What `getopt_long` delivers: the option's letter with its argument. `other` is any other result.
pub data ToolOption : Type 0 where
  vendor model channel uuid type : Bytes → ToolOption
  register unregister other : ToolOption

-- The offsets of the fields of `cmd_hdr_t`.
abbrev pub vendor_at : ℕ
vendor_at = 0

abbrev pub model_at : ℕ
model_at = 4

abbrev pub acc_type_at : ℕ
acc_type_at = 8

abbrev pub uuid_at : ℕ
uuid_at = 12

abbrev pub vmpath_at : ℕ
vmpath_at = 140

abbrev pub cmd_type_at : ℕ
cmd_type_at = 268

unfoldable pub word_at : ℕ → Bytes → ℕ
word_at i m = bytes_word (take 4 (drop i m))

unfoldable pub put_word : ℕ → ℕ → Bytes → Bytes
unfolding word_bytes
put_word i w m = write_at i (word_bytes w) m

-- `strcpy` to an offset: the string and its NUL. Behind the memory it is a write out of bounds.
unfoldable pub strcpy : ℕ → Bytes → Bytes → Outcome Bytes
strcpy i from m =
    if ltb (length m) (i + suc (length (c_str from)))
    then crash out_of_bounds
    else done (write_at i (c_str from ++ (0 ∷ [])) m)

-- The copy of a string that is not empty.
unfoldable pub copy_string : ℕ → Bytes → Bytes → Outcome Bytes
unfolding strcpy
copy_string i optarg m = if head_byte optarg == 0 then done m else strcpy i optarg m

unfoldable pub add_type : ℕ → Bytes → Bytes
unfolding put_word word_at
add_type t m = put_word acc_type_at (bit_or (word_at acc_type_at m) t) m

-- One round of the loop of `main`.
unfoldable pub parse_option : ToolOption → Bytes → Outcome Bytes
unfolding put_word copy_string add_type
parse_option (vendor optarg) m =
    done (if str_eq optarg (codes "netronome") then put_word vendor_at vendor_netronome m else m)
parse_option (model optarg) m =
    done
      (if str_eq optarg (codes "agilio_isa_4000") then put_word model_at agilio_isa_4000 m else m)
parse_option (channel optarg) m = copy_string vmpath_at optarg m
parse_option (uuid optarg) m = copy_string uuid_at optarg m
parse_option (type optarg) m = done (
    if str_eq optarg (codes "flow")
    then add_type acc_type_flow m
    else if str_eq optarg (codes "compress")
    then add_type acc_type_compress m
    else m)
parse_option register m = done (put_word cmd_type_at cmd_type_register m)
parse_option unregister m = done (put_word cmd_type_at cmd_type_unregister m)
parse_option other m = done m

-- The loop.
unfoldable pub parse_options : List ToolOption → Bytes → Outcome Bytes
unfolding parse_option
parse_options [] m = done m
parse_options (o ∷ os) m = parse_option o m >>= λ m'. parse_options os m'

abbrev pub blank_cmd : Bytes
blank_cmd = replicate cmd_size 0

-- The test for "Bad Usage".
unfoldable pub is_incomplete : Bytes → Bool
unfolding word_at
is_incomplete m =
    (word_at vendor_at m == 0)
    || ((word_at cmd_type_at m == 0)
        || ((word_at model_at m == 0)
            || ((word_at acc_type_at m == 0)
                || ((head_byte (drop vmpath_at m) == 0) || (head_byte (drop uuid_at m) == 0)))))

-- What the system calls of one run return: `malloc`, `access`, `socket` and `connect`.
pub record System : Type 0 where
  pub malloc : Bool
  pub access : Status
  pub socket : Option ℕ
  pub connect : Status

-- `unix_socket_clnt_init` of accsh_comm.c; `none` is -1. The socket stays open when `connect`
-- fails.
unfoldable pub connect_server : System → Option ℕ
connect_server s = elim s.access [
  | failure ↦ none
  | success ↦ elim s.socket [
    | none ↦ none
    | some fd ↦ elim s.connect [ failure ↦ none | success ↦ some fd ]
  ]
]

-- How a run ends: the exit status, the bytes that are given to `write`, whether the usage is
-- printed, and the descriptors that are closed, `none` for -1.
pub record Run : Type 0 where
  pub retval : Status
  pub written : Option Bytes
  pub usage : Bool
  pub closes : List (Option ℕ)

-- `main` behind the test of the options: `out2` and `out1`.
unfoldable pub send_command : Bytes → Option ℕ → Run
send_command m none = record { retval = success; written = none; usage = false; closes = none ∷ [] }
send_command m (some fd) = record {
  retval = success;
  written = some m;
  usage = false;
  closes = some fd ∷ [];
}

-- `g_handler` is zeroed, so that a bad usage closes the descriptor 0.
unfoldable pub finish : System → Bytes → Run
unfolding is_incomplete send_command connect_server
finish s m =
    if is_incomplete m
    then record { retval = failure; written = none; usage = true; closes = some 0 ∷ [] }
    else send_command m (connect_server s)

-- `main` of accsh.c.
unfoldable pub accsh_main : System → List ToolOption → Outcome Run
unfolding parse_options finish
accsh_main s os =
    if s.malloc
    then (parse_options os blank_cmd >>= λ m. done (finish s m))
    else done (record { retval = failure; written = none; usage = false; closes = [] })
