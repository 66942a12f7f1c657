-- ===== src/Client/Types.antt =====
-- vnf/cgnat-acc/acc_vsocket.c: the table of socket types.
use mathlib.Core.Option
use be_la.Prelude.{
  ℕ, suc, Bool, true, false, Bytes, Option, none, some, List, [], ◌∷◌, Status, success, failure,
  ◌==◌, if◌then◌else◌, head_byte, str_eq, set, codes,
}
use be_la.Client.{VsocketType}

-- The test of the loop of `_acc_vsocket_get_by_name`: `strcmp` is not 0, so the names differ.
unfoldable pub is_hit : Bytes → VsocketType → Bool
is_hit n t = if head_byte t.name == 0 then false else if str_eq n t.name then false else true

unfoldable pub vsocket_get_by_name : Bytes → List VsocketType → Option ℕ
unfolding is_hit
vsocket_get_by_name n [] = none
vsocket_get_by_name n (t ∷ r) =
    if is_hit n t then some 0 else Option.map suc (vsocket_get_by_name n r)

unfoldable pub acc_get_first_vsocket_type : List VsocketType → Option ℕ
acc_get_first_vsocket_type [] = none
acc_get_first_vsocket_type (t ∷ r) = if head_byte t.name == 0 then none else some 0

unfoldable pub vsocket_type_get_last_idx : List VsocketType → Option ℕ
vsocket_type_get_last_idx [] = none
vsocket_type_get_last_idx (t ∷ r) =
    if head_byte t.name == 0 then some 0 else Option.map suc (vsocket_type_get_last_idx r)

unfoldable pub acc_get_vsocket_type_by_name : Bytes → List VsocketType → Option ℕ
acc_get_vsocket_type_by_name n t = vsocket_get_by_name n t

unfoldable pub vsocket_type_add : List VsocketType → VsocketType → Status × List VsocketType
vsocket_type_add t new = elim (vsocket_type_get_last_idx t) [
  | none ↦ (failure, t)
  | some i ↦ (success, set t i new)
]

unfoldable pub acc_vsocket_type_register :
    List VsocketType → VsocketType → Status × List VsocketType
unfolding acc_get_vsocket_type_by_name vsocket_type_add
acc_vsocket_type_register t new = elim (acc_get_vsocket_type_by_name new.name t) [
  | some i ↦ (failure, t)
  | none ↦ vsocket_type_add t new
]

-- The type of acc_channel_vsocket.c.
abbrev pub channel_vsocket : VsocketType
channel_vsocket = record { name = codes "virtio-channel" }

unfoldable pub acc_vsocket_unix_register : List VsocketType → Status × List VsocketType
unfolding acc_vsocket_type_register
acc_vsocket_unix_register t = acc_vsocket_type_register t channel_vsocket
