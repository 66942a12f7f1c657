-- ===== src/Vendor.antt =====
-- be_la/be_la_vendor.h and be_la/be_la_cmd.h: the enumerations and the records of a command.
-- An enumerator is its number, since the code compares, indexes and masks with them.
use be_la.Prelude.{ℕ, Bytes, Bool, true, false, [], ◌∷◌, ◌==◌, if◌then◌else◌}

-- `enum tag_vendor`
abbrev pub vendor_netronome : ℕ
vendor_netronome = 1

abbrev pub vendor_xilinx : ℕ
vendor_xilinx = 2

abbrev pub vendor_intel : ℕ
vendor_intel = 3

abbrev pub vendor_cavium : ℕ
vendor_cavium = 4

abbrev pub vendor_mallnox : ℕ
vendor_mallnox = 5

abbrev pub vendor_max : ℕ
vendor_max = 6

-- `enum tag_model`
abbrev pub agilio_isa_4000 : ℕ
agilio_isa_4000 = 1

abbrev pub qat_dh8950 : ℕ
qat_dh8950 = 5

abbrev pub liquidio_ii : ℕ
liquidio_ii = 6

abbrev pub model_max : ℕ
model_max = 7

-- `enum tag_acc_type`
abbrev pub acc_type_flow : ℕ
acc_type_flow = 0x1

abbrev pub acc_type_crypto : ℕ
acc_type_crypto = 0x2

abbrev pub acc_type_decrypto : ℕ
acc_type_decrypto = 0x4

abbrev pub acc_type_compress : ℕ
acc_type_compress = 0x8

abbrev pub acc_type_uncompress : ℕ
acc_type_uncompress = 0x16

-- `acc_card_t`
pub record AccCard : Type 0 where
  pub vendor : ℕ
  pub model : ℕ
  pub acc_type : ℕ
  pub vm_uuid : Bytes
  pub vmpath : Bytes

-- `enum tag_cmd_type` and `cmd_hdr_t`
abbrev pub cmd_type_register : ℕ
cmd_type_register = 1

abbrev pub cmd_type_unregister : ℕ
cmd_type_unregister = 2

pub record CmdHdr : Type 0 where
  pub card : AccCard
  pub cmd_type : ℕ

-- A string ends in an array when some byte of it is NUL.
unfoldable pub ends : Bytes → Bool
ends [] = false
ends (b ∷ r) = let later = ends r in if b == 0 then true else later
