-- ===== src/Wire/Transport.antt =====
-- Sending and receiving of message/be_acc_msg.h together.
use be_la.Prelude.{
  ℕ, zero, suc, ◌+◌, ◌≤◌, ◌<◌, ◌≡◌, refl, ◌∙◌, ap, true, false, Bytes, List, [], ◌∷◌, ◌++◌, arith,
  ◌==◌, length, take, drop, length-append, ◌⊎◌, inl, inr, take-append-drop, append_assoc,
  append-nil, length-drop, suc==zero, subst,
}
use be_la.Wire.{AccMsgHeader, header_bytes, length-header_bytes}
use be_la.Wire.Iovec.{IovecArray, get_next_send_iovec, unsent}
use be_la.Wire.Advance.{Advances, get_next_send_iovec-Advances}
use be_la.Wire.Send.{
  Write, wrote, interrupted, failed, Sent, sent, pending, after, send_loop, acc_unix_send_message,
}

-- A part of the message that is not the whole.
abbrev pub StrictPrefix : Bytes → Bytes → Type 0
StrictPrefix s u = (rest : Bytes) × (s ++ rest ≡ u) × (0 < length rest)

-- A call that returns true has sent the whole message, and any other a strict part of it.
abbrev pub SendsOf : Bytes → Sent → Type 0
SendsOf u (sent true s) = s ≡ u
SendsOf u (sent false s) = StrictPrefix s u
SendsOf u (pending s) = StrictPrefix s u

after-SendsOf :
    (k : ℕ) (u : Bytes) (o : Sent) → SendsOf (drop k u) o → SendsOf u (after (take k u) o)
after-SendsOf k u (sent true s) h = rw h (take-append-drop k u)
after-SendsOf k u (sent false s) (rest, e, p) =
    (rest, append_assoc (take k u) s rest ∙ ap (λ t. take k u ++ t) e ∙ take-append-drop k u, p)
after-SendsOf k u (pending s) (rest, e, p) =
    (rest, append_assoc (take k u) s rest ∙ ap (λ t. take k u ++ t) e ∙ take-append-drop k u, p)

-- Between two rounds the count is 0 just when everything is sent.
abbrev Loops : IovecArray → ℕ → Type 0
Loops a n = (n ≤ length a) × ((n ≡ 0) ⊎ (0 < length (unsent a n)))

open_loop : (a : IovecArray) (n : ℕ) → 0 < length (unsent a n) → (n == 0) ≡ false
open_loop a zero p = absurd (omega arith)
open_loop a (suc n) p = suc==zero n

next_loop : (a : IovecArray) (n k : ℕ) (p : IovecArray × ℕ) → Advances a n k p → Loops p.0 p.1
next_loop a n k p (e, size, more) = (size, more)

send_loop-SendsOf :
    (a : IovecArray) (n : ℕ) (w : List Write) → Loops a n → SendsOf (unsent a n) (send_loop a n w)
unfolding send_loop
send_loop-SendsOf a n [] (h, inl e) = rw e refl
send_loop-SendsOf a n [] (h, inr p) = rw (open_loop a n p) (unsent a n, refl, p)
send_loop-SendsOf a n (wrote k ∷ r) (h, inl e) = rw e refl
send_loop-SendsOf a n (wrote k ∷ r) (h, inr p) =
    let step = get_next_send_iovec-Advances a n k h in
    let q = get_next_send_iovec a n k in
    let rest = send_loop-SendsOf q.0 q.1 r (next_loop a n k q step) in
    rw (open_loop a n p) (
      after-SendsOf k (unsent a n) (send_loop q.0 q.1 r)
        (subst (λ u. SendsOf u (send_loop q.0 q.1 r)) (step.0) rest))
send_loop-SendsOf a n (interrupted ∷ r) (h, inl e) = rw e refl
send_loop-SendsOf a n (interrupted ∷ r) (h, inr p) =
    rw (open_loop a n p) (send_loop-SendsOf a n r (h, inr p))
send_loop-SendsOf a n (failed ∷ r) (h, inl e) = rw e refl
send_loop-SendsOf a n (failed ∷ r) (h, inr p) = rw (open_loop a n p) (unsent a n, refl, p)

-- What the writes take in all, up to the first that fails.
abbrev pub granted : List Write → ℕ
granted [] = 0
granted (wrote k ∷ r) = k + granted r
granted (interrupted ∷ r) = granted r
granted (failed ∷ r) = 0

after_all :
    (k : ℕ) (u : Bytes) (o : Sent) → o ≡ sent true (drop k u) → after (take k u) o ≡ sent true u
after_all k u o e = rw e (ap (sent true) (take-append-drop k u))

-- The loop ends, and returns true, once the writes have taken as many bytes as there are.
send_loop_ends :
    (a : IovecArray) (n : ℕ) (w : List Write)
    → Loops a n
    → length (unsent a n) ≤ granted w
    → send_loop a n w ≡ sent true (unsent a n)
unfolding send_loop
send_loop_ends a n [] (h, inl e) g = rw e refl
send_loop_ends a n [] (h, inr p) g = absurd (omega arith)
send_loop_ends a n (wrote k ∷ r) (h, inl e) g = rw e refl
send_loop_ends a n (wrote k ∷ r) (h, inr p) g =
    let step = get_next_send_iovec-Advances a n k h in
    let q = get_next_send_iovec a n k in
    let left : length (unsent q.0 q.1) ≤ granted r =
      omega (arith, ap length step.0, length-drop k (unsent a n)) in
    let rest = send_loop_ends q.0 q.1 r (next_loop a n k q step) left in
    rw (open_loop a n p)
      (after_all k (unsent a n) (send_loop q.0 q.1 r) (rest ∙ ap (sent true) step.0))
send_loop_ends a n (interrupted ∷ r) (h, inl e) g = rw e refl
send_loop_ends a n (interrupted ∷ r) (h, inr p) g =
    rw (open_loop a n p) (send_loop_ends a n r (h, inr p) g)
send_loop_ends a n (failed ∷ r) (h, inl e) g = rw e refl
send_loop_ends a n (failed ∷ r) (h, inr p) g = absurd (omega arith)

-- The message on the wire.
abbrev pub message_bytes : AccMsgHeader → Bytes → Bytes
message_bytes hdr body = header_bytes hdr ++ body

two_parts :
    (hdr : AccMsgHeader) (body : Bytes)
    → unsent (header_bytes hdr ∷ (body ∷ [])) 2 ≡ message_bytes hdr body
two_parts hdr body = ap (λ t. header_bytes hdr ++ t) (append-nil body)

two-Loops : (hdr : AccMsgHeader) (body : Bytes) → Loops (header_bytes hdr ∷ (body ∷ [])) 2
two-Loops hdr body = (
  omega arith,
  inr (
      rw (two_parts hdr body)
        (omega (arith, length-append (header_bytes hdr) body, length-header_bytes hdr))),
)

-- However the writes cut the message: true means that header and body went out whole and in order,
-- and false, or a loop still running, that a strict part of them did.
pub send_message-SendsOf :
    (hdr : AccMsgHeader) (body : Bytes) (w : List Write)
    → SendsOf (message_bytes hdr body) (acc_unix_send_message hdr body w)
unfolding acc_unix_send_message
send_message-SendsOf hdr body w =
    subst (λ u. SendsOf u (send_loop (header_bytes hdr ∷ (body ∷ [])) 2 w)) (two_parts hdr body)
      (send_loop-SendsOf (header_bytes hdr ∷ (body ∷ [])) 2 w (two-Loops hdr body))

-- The send ends with true when the writes before the first failure take all bytes of the message.
pub send_message_ends :
    (hdr : AccMsgHeader) (body : Bytes) (w : List Write)
    → length (message_bytes hdr body) ≤ granted w
    → acc_unix_send_message hdr body w ≡ sent true (message_bytes hdr body)
unfolding acc_unix_send_message
send_message_ends hdr body w g =
    send_loop_ends (header_bytes hdr ∷ (body ∷ [])) 2 w (two-Loops hdr body)
      (rw (two_parts hdr body) g)
    ∙ ap (sent true) (two_parts hdr body)
