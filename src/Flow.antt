-- ===== src/Flow.antt =====
-- flow/acc_flow.h: the flows that a guest asks the card to take over. A field is its memory.
use be_la.Prelude.{ℕ, Bool, true, false, Bytes, [], ◌∷◌, ◌==◌, if◌then◌else◌, bit_and}

-- `struct acc_match`, for the values and for the mask.
pub record AccMatch : Type 0 where
  pub srcmac : Bytes
  pub dstmac : Bytes
  pub src_ip : Bytes
  pub dst_ip : Bytes
  pub src_port : Bytes
  pub dst_port : Bytes
  pub protocol : Bytes

-- `field_update` of `struct acc_action`
pub record AccAction : Type 0 where
  pub field_mask : ℕ
  pub srcmac : Bytes
  pub dstmac : Bytes
  pub src_ip : Bytes
  pub dst_ip : Bytes
  pub src_port : Bytes
  pub dst_port : Bytes
  pub protocol : Bytes
  pub dl_type : Bytes

pub record AccFlow : Type 0 where
  pub match : AccMatch
  pub mask : AccMatch
  pub action : AccAction

abbrev pub field_srcmac : ℕ
field_srcmac = 2

abbrev pub field_dstmac : ℕ
field_dstmac = 4

abbrev pub field_src_ip : ℕ
field_src_ip = 8

abbrev pub field_dst_ip : ℕ
field_dst_ip = 16

abbrev pub field_src_port : ℕ
field_src_port = 32

abbrev pub field_dst_port : ℕ
field_dst_port = 64

abbrev pub field_protocol : ℕ
field_protocol = 128

-- `acc_match_is_be_set`: some byte of the field's mask is not zero.
unfoldable pub match_is_be_set : Bytes → Bool
match_is_be_set [] = false
match_is_be_set (b ∷ r) = let rest = match_is_be_set r in if b == 0 then rest else true

-- `ACC_ACTION_IS_FIELD_MASK_SET`
unfoldable pub action_is_set : AccAction → ℕ → Bool
action_is_set a bit = if bit_and a.field_mask bit == 0 then false else true
