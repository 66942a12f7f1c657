-- ===== src/Session/Names.antt =====
-- The two adjacent arrays `hostname` and `bridge` of a context, as `hello_message_handle` of
-- message/be_acc_msg.c writes them.
use be_la.Prelude.{
  ℕ, ◌+◌, ◌≤◌, ◌≡◌, ap, Bytes, [], ◌∷◌, ◌++◌, arith, length, drop, c_str, codes, write_at, strncpy,
  length-write_at, length-strncpy, drop-write_at,
}
use be_la.Context.{hostname_size, bridge_size}

-- The three writes of the handler: `len` bytes of the message, the NUL behind them, and the bridge.
unfoldable pub hello_names : Bytes → ℕ → Bytes → Bytes
unfolding write_at strncpy
hello_names message len m =
    write_at hostname_size (codes "br0" ++ (0 ∷ []))
      (write_at len (0 ∷ []) (write_at 0 (strncpy len message) m))

-- In the memory of both arrays, 512 bytes, the handler's writes keep the size and leave the string
-- "br0" as the bridge, whatever the message is and for every length up to 256.
pub hello-bridge :
    (message : Bytes) (len : ℕ) (m : Bytes)
    → len ≤ hostname_size
    → length m ≡ hostname_size + bridge_size
    → (length (hello_names message len m) ≡ hostname_size + bridge_size)
      × (c_str (drop hostname_size (hello_names message len m)) ≡ codes "br0")
unfolding hello_names
hello-bridge message len m h size =
    let first = write_at 0 (strncpy len message) m in
    let second = write_at len (0 ∷ []) first in
    let a : length first ≡ 512 = omega (
      arith,
      length-write_at 0 (strncpy len message) m (omega (arith, length-strncpy len message)),
      size,
    ) in
    let b : length second ≡ 512 = omega (arith, length-write_at len (0 ∷ []) first (omega arith)) in
    (
      omega (arith, length-write_at hostname_size (codes "br0" ++ (0 ∷ [])) second (omega arith)),
      ap c_str (drop-write_at hostname_size (codes "br0" ++ (0 ∷ [])) second (omega arith)),
    )
