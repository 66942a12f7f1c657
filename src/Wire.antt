-- ===== src/Wire.antt =====
-- message/be_acc_msg.h: the messages between a guest and the daemon, and their transport.
pub mod Receive
pub mod Iovec
pub mod Send
pub mod Advance
pub mod Stream
pub mod Transport
pub mod Message
pub mod Exchange
mod Tests
use be_la.Prelude.{
  ℕ, ◌+◌, ◌-◌, ◌*◌, ◌/◌, ◌%◌, ◌^◌, ◌<◌, ◌≡◌, refl, arith, Bytes, List, [], ◌∷◌, ◌++◌, take, drop,
  length,
}

-- `struct acc_msg_header`, without the flexible array behind it. A field is a 32-bit pattern.
pub record AccMsgHeader : Type 0 where
  pub total_len : ℕ
  pub acc_type : ℕ
  pub msg_type : ℕ
  pub code : ℕ

abbrev pub header_size : ℕ
header_size = 16

abbrev pub acc_unix_hello : ℕ
acc_unix_hello = 1

abbrev pub acc_unix_add_flows : ℕ
acc_unix_add_flows = 2

abbrev pub acc_unix_disconnect : ℕ
acc_unix_disconnect = 3

abbrev pub acc_unix_max_type : ℕ
acc_unix_max_type = 10

abbrev pub acc_unix_success : ℕ
acc_unix_success = 0

abbrev pub acc_unix_fail : ℕ
acc_unix_fail = 1

-- A 32-bit field in memory, and back: the least significant byte is first.
unfoldable pub word_bytes : ℕ → Bytes
word_bytes w = w % 256 ∷ w / 256 % 256 ∷ w / 65536 % 256 ∷ w / 16777216 % 256 ∷ []

unfoldable pub bytes_word : Bytes → ℕ
bytes_word [] = 0
bytes_word (b ∷ r) = b + 256 * bytes_word r

-- The 16 bytes of the structure, as `writev` sends them and `read` fills them.
unfoldable pub header_bytes : AccMsgHeader → Bytes
unfolding word_bytes
header_bytes h =
    word_bytes h.total_len
    ++ (word_bytes h.acc_type ++ (word_bytes h.msg_type ++ word_bytes h.code))

unfoldable pub field_at : ℕ → Bytes → Bytes
field_at n b = take 4 (drop n b)

unfoldable pub bytes_header : Bytes → AccMsgHeader
unfolding bytes_word field_at
bytes_header b = record {
  total_len = bytes_word (field_at 0 b);
  acc_type = bytes_word (field_at 4 b);
  msg_type = bytes_word (field_at 8 b);
  code = bytes_word (field_at 12 b);
}

-- `int data_len = hdr->total_len - sizeof(*hdr)`: a 32-bit pattern, negative from 2^31 on.
unfoldable pub data_len : AccMsgHeader → ℕ
data_len h = (h.total_len + 2 ^ 32 - header_size) % 2 ^ 32

pub record FitsWord (h : AccMsgHeader) : Type 0 where
  pub total_len_fits : h.total_len < 2 ^ 32
  pub acc_type_fits : h.acc_type < 2 ^ 32
  pub msg_type_fits : h.msg_type < 2 ^ 32
  pub code_fits : h.code < 2 ^ 32

pub bytes_word-word_bytes : (w : ℕ) → w < 2 ^ 32 → bytes_word (word_bytes w) ≡ w
unfolding bytes_word word_bytes
bytes_word-word_bytes w h = omega arith

-- The header read back from its bytes is the header.
pub bytes_header-header_bytes : (h : AccMsgHeader) → FitsWord h → bytes_header (header_bytes h) ≡ h
unfolding bytes_header header_bytes
bytes_header-header_bytes h f = λ i. record {
  total_len = bytes_word-word_bytes h.total_len f.total_len_fits i;
  acc_type = bytes_word-word_bytes h.acc_type f.acc_type_fits i;
  msg_type = bytes_word-word_bytes h.msg_type f.msg_type_fits i;
  code = bytes_word-word_bytes h.code f.code_fits i;
}

pub length-header_bytes : (h : AccMsgHeader) → length (header_bytes h) ≡ header_size
unfolding header_bytes
length-header_bytes h = refl
