-- ===== src/Client/Device.antt =====
-- vnf/cgnat-acc/acc_channel.h, acc_virtio_channel.c and acc_unixsocket_channel.c: the device under a
-- channel, with how many descriptors are open, through the calls of acc_channel_vsocket.c.
use be_la.Prelude.{
  ℕ, ◌+◌, ◌-◌, ◌≡◌, ◌⊎◌, inl, inr, refl, sym, ◌∙◌, ap, subst, Bool, true, false, Bytes, Option,
  none, some, Status, success, failure, if◌then◌else◌, arith, Bool-cases,
}
use be_la.Wire.{acc_unix_hello}
use be_la.Wire.Exchange.{Exchanged, answered, refused, blocked, dead}
use be_la.Client.Channel.{
  Called, returned, stuck, killed, Line, exchange, agrees, connect_result, acc_channel_connect,
  acc_channel_disconnect,
}

-- What `open` of the port returns, and `socket` and `connect` of the other device.
pub record Device : Type 0 where
  pub port : Option ℕ
  pub socket : Option ℕ
  pub connect : Status

-- A descriptor, `none` for a negative number, with how many are open.
unfoldable pub acc_virtio_channel_open : Device → ℕ → Option ℕ × ℕ
acc_virtio_channel_open d fds = elim d.port [ none ↦ (none, fds) | some fd ↦ (some fd, fds + 1) ]

unfoldable pub acc_virtio_channel_close : ℕ → ℕ
acc_virtio_channel_close fds = fds - 1

unfoldable pub acc_unixsocket_channel_close : ℕ → ℕ
acc_unixsocket_channel_close fds = fds - 1

-- The socket is closed when `connect` fails.
unfoldable pub acc_unixsocket_channel_open : Device → ℕ → Option ℕ × ℕ
acc_unixsocket_channel_open d fds = elim d.socket [
  | none ↦ (none, fds)
  | some fd ↦ elim d.connect [ failure ↦ (none, fds + 1 - 1) | success ↦ (some fd, fds + 1) ]
]

-- `ACC_CHANNEL_USE_UNIXSOCKET`
abbrev pub acc_channel_use_unixsocket : Bool
acc_channel_use_unixsocket = false

unfoldable pub acc_channel_open : Bool → Device → ℕ → Option ℕ × ℕ
unfolding acc_virtio_channel_open acc_unixsocket_channel_open
acc_channel_open unixsocket d fds =
    if unixsocket then acc_unixsocket_channel_open d fds else acc_virtio_channel_open d fds

unfoldable pub acc_channel_close : Bool → ℕ → ℕ
unfolding acc_virtio_channel_close acc_unixsocket_channel_close
acc_channel_close unixsocket fds =
    if unixsocket then acc_unixsocket_channel_close fds else acc_virtio_channel_close fds

-- `acc_channel_connect` behind its exchange: `CLOSE_SOCKET` on every way but the one that returns
-- the descriptor.
unfoldable pub connect_or_close : Bool → ℕ → ℕ → Exchanged → Called (ℕ × ℕ)
unfolding acc_channel_close agrees
connect_or_close u fd fds (answered replay b) =
    if agrees acc_unix_hello replay
    then returned (fd, fds)
    else returned (0, acc_channel_close u fds)
connect_or_close u fd fds refused = returned (0, acc_channel_close u fds)
connect_or_close u fd fds blocked = stuck
connect_or_close u fd fds (dead f) = killed f

-- `acc_channel_connect` behind `acc_channel_open`, whose handle is 0 for NULL.
unfoldable pub connect_opened : Bool → Option Bytes → Line → Option ℕ × ℕ → Called (ℕ × ℕ)
unfolding connect_or_close
connect_opened u hostname l (none, fds) = returned (0, fds)
connect_opened u none l (some fd, fds) = returned (0, acc_channel_close u fds)
connect_opened u (some hostname) l (some fd, fds) =
    connect_or_close u fd fds (exchange acc_unix_hello hostname l)

unfoldable pub channel_connect : Bool → Device → Option Bytes → Line → ℕ → Called (ℕ × ℕ)
unfolding connect_opened acc_channel_open
channel_connect u d hostname l fds = connect_opened u hostname l (acc_channel_open u d fds)

-- `acc_channel_disconnect`: the descriptor is closed whether the exchange fails or not.
unfoldable pub close_behind : Bool → ℕ → Called (Unit {0}) → Called ℕ
unfolding acc_channel_close
close_behind u fds (returned _) = returned (acc_channel_close u fds)
close_behind u fds stuck = stuck
close_behind u fds (killed f) = killed f

unfoldable pub channel_disconnect : Bool → Line → ℕ → Called ℕ
unfolding close_behind acc_channel_disconnect
channel_disconnect u l fds = close_behind u fds (acc_channel_disconnect l)

-- What a call of connect that returned has done, with what the device gave it: nothing is open that
-- was not, or the descriptor of the device is, and is returned.
abbrev pub Balanced : ℕ → Option ℕ → ℕ × ℕ → Type 0
Balanced fds given r = ((r.0 ≡ 0) × (r.1 ≡ fds)) ⊎ ((given ≡ some r.0) × (r.1 ≡ fds + 1))

returned_inj {ℓ} : {A : Type ℓ} {a b : A} → returned a ≡ returned b → a ≡ b
returned_inj e = ground arith

close_opened : (u : Bool) (fds : ℕ) → acc_channel_close u (fds + 1) ≡ fds
unfolding acc_channel_close acc_virtio_channel_close acc_unixsocket_channel_close
close_opened true fds = omega arith
close_opened false fds = omega arith

connect_or_close-Balanced :
    (u : Bool) (fd fds : ℕ) (x : Exchanged) (r : ℕ × ℕ)
    → connect_or_close u fd (fds + 1) x ≡ returned r
    → Balanced fds (some fd) r
unfolding connect_or_close
connect_or_close-Balanced u fd fds (answered replay b) r e = go (agrees acc_unix_hello replay) e
  where
    go :
        (t : Bool)
        → (if t then returned (fd, fds + 1) else returned (0, acc_channel_close u (fds + 1)))
          ≡ returned r
        → Balanced fds (some fd) r
    go true k = subst (Balanced fds (some fd)) (returned_inj k) (inr (refl, refl))
    go false k = subst (Balanced fds (some fd)) (returned_inj k) (inl (refl, close_opened u fds))
connect_or_close-Balanced u fd fds refused r e =
    subst (Balanced fds (some fd)) (returned_inj e) (inl (refl, close_opened u fds))
connect_or_close-Balanced u fd fds blocked r e = ground arith
connect_or_close-Balanced u fd fds (dead f) r e = ground arith

-- What an open of a device has done.
data Opened (fds : ℕ) : Option ℕ × ℕ → Type 0 where
  not_opened : Opened fds (none, fds)
  now_open : (fd : ℕ) → Opened fds (some fd, fds + 1)

open-Opened : (u : Bool) (d : Device) (fds : ℕ) → Opened fds (acc_channel_open u d fds)
unfolding acc_channel_open acc_virtio_channel_open acc_unixsocket_channel_open
open-Opened false d fds = go d.port
  where
    go :
        (o : Option ℕ)
        → Opened fds
            (elim o as (λ _. Option ℕ × ℕ) [ none ↦ (none, fds) | some fd ↦ (some fd, fds + 1) ])
    go none = not_opened
    go (some fd) = now_open fd
open-Opened true d fds = go d.socket d.connect
  where
    closed : Opened fds (none, fds + 1 - 1)
    closed = subst (λ n. Opened fds (none, n)) (omega arith) not_opened

    go :
        (o : Option ℕ) (s : Status)
        → Opened fds (elim o as (λ _. Option ℕ × ℕ) [
          | none ↦ (none, fds)
          | some fd ↦ elim s as (λ _. Option ℕ × ℕ) [
            | failure ↦ (none, fds + 1 - 1)
            | success ↦ (some fd, fds + 1)
          ]
        ])
    go none s = not_opened
    go (some fd) failure = closed
    go (some fd) success = now_open fd

connect_opened-Balanced :
    (u : Bool) (hostname : Option Bytes) (l : Line) (fds : ℕ) (o : Option ℕ × ℕ) (r : ℕ × ℕ)
    → Opened fds o
    → connect_opened u hostname l o ≡ returned r
    → Balanced fds o.0 r
unfolding connect_opened
connect_opened-Balanced u hostname l fds _ r not_opened e =
    subst (Balanced fds none) (returned_inj e) (inl (refl, refl))
connect_opened-Balanced u none l fds _ r (now_open fd) e =
    subst (Balanced fds (some fd)) (returned_inj e) (inl (refl, close_opened u fds))
connect_opened-Balanced u (some hostname) l fds _ r (now_open fd) e =
    connect_or_close-Balanced u fd fds (exchange acc_unix_hello hostname l) r e

close_behind-eq :
    (u : Bool) (fds m : ℕ) (c : Called (Unit {0}))
    → close_behind u fds c ≡ returned m
    → m ≡ acc_channel_close u fds
unfolding close_behind
close_behind-eq u fds m (returned _) e = sym (returned_inj e)
close_behind-eq u fds m stuck e = ground arith
close_behind-eq u fds m (killed f) e = ground arith

-- With either device, whatever its calls, the host name and the exchange with the daemon come to: a
-- connect that returns has either returned NULL and left as many descriptors open as there were;
-- or it returns the descriptor that the device opened, one more is open, and a disconnect that
-- returns behind it leaves as many open as there were.
pub connect_disconnect_balance :
    (u : Bool) (d : Device) (hostname : Option Bytes) (l l' : Line) (fds m : ℕ) (r : ℕ × ℕ)
    → channel_connect u d hostname l fds ≡ returned r
    → channel_disconnect u l' r.1 ≡ returned m
    → ((r.0 ≡ 0) × (r.1 ≡ fds))
      ⊎ (((acc_channel_open u d fds).0 ≡ some r.0) × (r.1 ≡ fds + 1) × (m ≡ fds))
unfolding channel_connect channel_disconnect
connect_disconnect_balance u d hostname l l' fds m r e k =
    elim (connect_opened-Balanced u hostname l fds (acc_channel_open u d fds) r
      (open-Opened u d fds) e) [
        | inl q ↦ inl q
        | inr (given, q) ↦ inr (
          given,
          q,
          close_behind-eq u r.1 m (acc_channel_disconnect l') k
              ∙ ap (acc_channel_close u) q
              ∙ close_opened u fds,
        )
      ]

abbrev handle_of : Called (ℕ × ℕ) → Called ℕ
handle_of (returned r) = returned r.0
handle_of stuck = stuck
handle_of (killed f) = killed f

-- The handle is the one of `acc_channel_connect` with the descriptor that the device gave.
pub channel_connect-acc_channel_connect :
    (u : Bool) (d : Device) (hostname : Option Bytes) (l : Line) (fds : ℕ)
    → handle_of (channel_connect u d hostname l fds)
      ≡ acc_channel_connect (acc_channel_open u d fds).0 hostname l
unfolding channel_connect connect_opened connect_or_close acc_channel_connect connect_result
channel_connect-acc_channel_connect u d hostname l fds = go hostname (acc_channel_open u d fds)
  where
    by_exchange :
        (fd n : ℕ) (x : Exchanged) → handle_of (connect_or_close u fd n x) ≡ connect_result fd x
    by_exchange fd n (answered replay b) = elim (Bool-cases (agrees acc_unix_hello replay)) [
      | inl q ↦ rw q refl
      | inr q ↦ rw q refl
    ]
    by_exchange fd n refused = refl
    by_exchange fd n blocked = refl
    by_exchange fd n (dead f) = refl

    go :
        (h : Option Bytes) (o : Option ℕ × ℕ)
        → handle_of (connect_opened u h l o) ≡ acc_channel_connect o.0 h l
    go h (none, n) = refl
    go none (some fd, n) = refl
    go (some h) (some fd, n) = by_exchange fd n (exchange acc_unix_hello h l)
