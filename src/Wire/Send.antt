-- ===== src/Wire/Send.antt =====
-- `acc_unix_send_message` of message/be_acc_msg.h: `writev` until both parts are sent.
use be_la.Prelude.{ℕ, Bool, true, false, Bytes, List, [], ◌∷◌, ◌++◌, ◌==◌, if◌then◌else◌, take}
use be_la.Wire.{AccMsgHeader, header_bytes}
use be_la.Wire.Iovec.{IovecArray, get_next_send_iovec, unsent}

-- What a `writev` returns: a number of bytes, EINTR or EAGAIN, or another error.
pub data Write : Type 0 where
  wrote : ℕ → Write
  interrupted failed : Write

-- The bytes that went out, and the value returned; or the writes so far have not ended the loop.
pub data Sent : Type 0 where
  sent : Bool → Bytes → Sent
  pending : Bytes → Sent

abbrev pub after : Bytes → Sent → Sent
after p (sent b s) = sent b (p ++ s)
after p (pending s) = pending (p ++ s)

-- The `while (number)` loop, given what each `writev` returns.
unfoldable pub send_loop : IovecArray → ℕ → List Write → Sent
unfolding get_next_send_iovec
send_loop a number [] = if number == 0 then sent true [] else pending []
send_loop a number (wrote k ∷ r) =
    let (a', number') = get_next_send_iovec a number k in
    let rest = after (take k (unsent a number)) (send_loop a' number' r) in
    if number == 0 then sent true [] else rest
send_loop a number (interrupted ∷ r) =
    let again = send_loop a number r in if number == 0 then sent true [] else again
send_loop a number (failed ∷ r) = if number == 0 then sent true [] else sent false []

unfoldable pub acc_unix_send_message : AccMsgHeader → Bytes → List Write → Sent
unfolding send_loop
acc_unix_send_message hdr body r = send_loop (header_bytes hdr ∷ (body ∷ [])) 2 r
