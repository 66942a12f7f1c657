-- ===== src/Daemon/Address.antt =====
-- The socket addresses of be_la/be_channel.c, which tool/accsh_comm.c fills in the same way: the
-- memory of a `struct sockaddr_un` with the byte that lies behind it.
use be_la.Prelude.{
  ℕ, zero, suc, ◌+◌, ◌-◌, ◌≤◌, ◌<◌, ◌≡◌, refl, sym, ◌∙◌, ap, Bytes, Option, none, some, [], ◌∷◌,
  ◌++◌, success, failure, c_str, length, take, drop, replicate, arith, write_at, strncpy,
  length-strncpy, drop-write_at, drop-drop, drop-append_ge, drop-append_le, take-append_ge,
  c_str_terminated, append_assoc, drop-write_after,
}
use be_la.Daemon.Channel.{Network}

abbrev pub sockaddr_size : ℕ
sockaddr_size = 110

abbrev pub sun_path_at : ℕ
sun_path_at = 2

abbrev pub sun_path_size : ℕ
sun_path_size = 108

-- `bzero`, and `AF_UNIX` as the family.
abbrev pub zeroed_address : ℕ → Bytes
zeroed_address behind = (1 ∷ 0 ∷ replicate sun_path_size 0) ++ (behind ∷ [])

-- `unix_socket_clnt_init`: the size given to `strncpy` is that of the structure less one.
unfoldable pub client_address : ℕ → Bytes → Bytes
client_address behind socket_path =
    write_at sun_path_at (strncpy (sockaddr_size - 1) socket_path) (zeroed_address behind)

-- `be_vm_channel_init`: it is that of the array less one.
unfoldable pub vm_address : ℕ → Bytes → Bytes
vm_address behind socket_path =
    write_at sun_path_at (strncpy (sun_path_size - 1) socket_path) (zeroed_address behind)

-- `be_vm_channel_init`, with how many sockets are open. The socket stays open when `connect` fails.
unfoldable pub be_vm_channel_init : Network → ℕ → Option ℕ × ℕ
be_vm_channel_init n fds = elim n.access [
  | failure ↦ (none, fds)
  | success ↦ elim n.socket [
    | none ↦ (none, fds)
    | some fd ↦ elim n.connect [ failure ↦ (none, fds + 1) | success ↦ (some fd, fds + 1) ]
  ]
]

c_str_short : (n : ℕ) (s : Bytes) → length (c_str s) < n → c_str (take n s) ≡ c_str s
c_str_short zero s h = absurd (omega arith)
c_str_short (suc n) [] h = refl
c_str_short (suc n) (x ∷ s) h = ground (arith, c_str_short n s)

take-replicate : (k n : ℕ) → k ≤ n → take k (replicate n (zero)) ≡ replicate k zero
take-replicate zero n h = refl
take-replicate (suc k) zero h = absurd (omega arith)
take-replicate (suc k) (suc n) h = ap (◌∷◌ zero) (take-replicate k n (omega arith))

drop-replicate : (a k : ℕ) → drop a (replicate (a + k) zero) ≡ replicate k zero
drop-replicate zero k = ap (λ n. replicate n zero) (omega arith)
drop-replicate (suc a) k =
    let e : suc a + k ≡ suc (a + k) = omega arith in
    ap (λ n. drop (suc a) (replicate n zero)) e ∙ drop-replicate a k

strncpy_short :
    (n : ℕ) (s : Bytes)
    → length (c_str s) < n
    → strncpy n s ≡ c_str s ++ replicate (n - length (c_str s)) 0
unfolding strncpy
strncpy_short n s h =
    ap (λ l. take n (l ++ replicate n 0)) (c_str_short n s h)
    ∙ take-append_ge n (c_str s) (replicate n 0) (omega arith)
    ∙ ap (λ l. c_str s ++ l) (take-replicate (n - length (c_str s)) n (omega arith))

-- The path that is read in an address behind a `strncpy` with a larger size.
path_read :
    (n behind : ℕ) (s : Bytes)
    → length (c_str s) < n
    → n < 110
    → c_str (drop sun_path_at (write_at sun_path_at (strncpy n s) (zeroed_address behind)))
      ≡ c_str s
path_read n behind s h k =
    let e : n - length (c_str s) ≡ suc (n - suc (length (c_str s))) = omega arith in
    let pad = replicate (n - suc (length (c_str s))) 0 in
    let rest = drop (sun_path_at + length (strncpy n s)) (zeroed_address behind) in
    ap c_str (drop-write_at sun_path_at (strncpy n s) (zeroed_address behind) (omega arith))
    ∙ ap (λ l. c_str (l ++ rest)) (strncpy_short n s h ∙ ap (λ j. c_str s ++ replicate j 0) e)
    ∙ ap c_str (
        append_assoc (c_str s) (0 ∷ pad) rest ∙ sym (append_assoc (c_str s) (0 ∷ []) (pad ++ rest)))
    ∙ c_str_terminated s (pad ++ rest)

-- For a path of less than 107 characters both fill the path in with its NUL. `unix_socket_clnt_init`
-- overwrites the byte behind the address with 0, whatever it was; `be_vm_channel_init` keeps it.
pub address_overflow :
    (behind : ℕ) (socket_path : Bytes)
    → length (c_str socket_path) < 107
    → (c_str (drop sun_path_at (client_address behind socket_path)) ≡ c_str socket_path)
      × (drop sockaddr_size (client_address behind socket_path) ≡ 0 ∷ [])
      × (c_str (drop sun_path_at (vm_address behind socket_path)) ≡ c_str socket_path)
      × (drop sockaddr_size (vm_address behind socket_path) ≡ behind ∷ [])
unfolding client_address vm_address
address_overflow behind s h =
    let b = strncpy 109 s in
    let m = zeroed_address behind in
    let n = length-strncpy 109 s in
    let rest = drop (sun_path_at + length b) m in
    let e : 109 - length (c_str s) ≡ (108 - length (c_str s)) + 1 = omega arith in
    (
      path_read 109 behind s (omega arith) (omega arith),
      sym (drop-drop 108 sun_path_at (write_at sun_path_at b m))
          ∙ ap (drop 108) (drop-write_at sun_path_at b m (omega arith))
          ∙ drop-append_le 108 b rest (omega arith)
          ∙ ap (λ l. drop 108 l ++ rest) (strncpy_short 109 s (omega arith))
          ∙ ap (λ l. l ++ rest)
              (drop-append_ge 108 (c_str s) (replicate (109 - length (c_str s)) 0) (omega arith)
                ∙ ap (λ j. drop (108 - length (c_str s)) (replicate j 0)) e
                ∙ drop-replicate (108 - length (c_str s)) 1)
          ∙ ap (λ j. (0 ∷ []) ++ drop (sun_path_at + j) m) n,
      path_read 107 behind s h (omega arith),
      drop-write_after sockaddr_size sun_path_at (strncpy 107 s) m
          (omega (arith, length-strncpy 107 s)) (omega arith),
    )
