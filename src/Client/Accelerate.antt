-- ===== src/Client/Accelerate.antt =====
-- `cgnat_accelerate` of vnf/cgnat-acc/cgnapt_accelerate.c, with the functions of acc_client.h that
-- it calls.
use be_la.Prelude.{
  ℕ, ◌≡◌, ◌≢◌, refl, Bool, true, false, Option, none, some, Outcome, done, crash, assertion,
  out_of_bounds, ◌>>=◌, ◌==◌, if◌then◌else◌, set, get_elem?, arith, ◌⊎◌, inl, inr, Bool-cases, ◌∙◌,
}
use be_la.Client.{ErrorCode, disconnect, flows_accept, code_of, AccClient}
use be_la.Client.Clients.{Tables, acc_client_register}

-- What the functions of the socket type return, when they do, in the order of their calls: of `add_flows` on the
-- open channel, of `connect`, and of `add_flows` on the new channel.
pub record Peer : Type 0 where
  pub on_open : ErrorCode
  pub handle : ℕ
  pub on_new : ErrorCode

unfoldable pub acc_client_is_connected : AccClient → Bool
acc_client_is_connected c = if c.handle == 0 then false else true

-- `acc_client_connect`: the handle is written whatever it is.
unfoldable pub acc_client_connect : AccClient → ℕ → AccClient
acc_client_connect c handle = record c { handle = handle }

-- `answer` is what the socket's `add_flows` returns.
unfoldable pub acc_client_add_flows : AccClient → ErrorCode → Outcome ErrorCode
unfolding acc_client_is_connected
acc_client_add_flows c answer = if acc_client_is_connected c then done answer else crash assertion

unfoldable pub first_try : AccClient → ErrorCode → Outcome ErrorCode
unfolding acc_client_add_flows
first_try c answer =
    if acc_client_is_connected c then acc_client_add_flows c answer else done disconnect

abbrev pub accepted : ErrorCode → ℕ
accepted flows_accept = 1
accepted _ = 0

-- A new connection, and the second try.
unfoldable pub reconnect : Peer → AccClient → Outcome (ℕ × AccClient)
unfolding acc_client_connect acc_client_add_flows
reconnect peer c =
    let c' = acc_client_connect c peer.handle in
    if peer.handle == 0
    then done (code_of disconnect, c')
    else (acc_client_add_flows c' peer.on_new >>= λ r. done (accepted r, c'))

unfoldable pub after_first : Peer → AccClient → ErrorCode → Outcome (ℕ × AccClient)
unfolding reconnect
after_first peer c disconnect = reconnect peer c
after_first peer c ErrorCode.invalid = done (accepted ErrorCode.invalid, c)
after_first peer c flows_accept = done (accepted flows_accept, c)
after_first peer c ErrorCode.flows_rejection = done (accepted ErrorCode.flows_rejection, c)

unfoldable pub accelerate_with : Peer → AccClient → Outcome (ℕ × AccClient)
unfolding first_try after_first
accelerate_with peer c = first_try c peer.on_open >>= λ r. after_first peer c r

abbrev pub checked : Option AccClient → Outcome AccClient
checked none = crash out_of_bounds
checked (some c) = done c

-- The returned number, with the tables.
unfoldable pub cgnat_accelerate : Peer → ℕ → Tables → Outcome (ℕ × Tables)
unfolding accelerate_with
cgnat_accelerate peer id s =
    if id == 0
    then crash assertion
    else let (client, s') = acc_client_register id s in
      elim client [
        | none ↦ crash assertion
        | some i ↦ checked (get_elem? s'.clients i) >>= λ c.
            accelerate_with peer c >>= λ r. done (r.0, record s' { clients = set s'.clients i r.1 })
      ]

-- The offer is accepted on the open channel, or, when there is none or it was lost, on a new one.
abbrev pub Accepted : Peer → AccClient → Type 0
Accepted peer c =
    ((c.handle ≢ 0) × (peer.on_open ≡ flows_accept))
    ⊎ (((c.handle ≡ 0) ⊎ (peer.on_open ≡ disconnect))
        × (peer.handle ≢ 0)
        × (peer.on_new ≡ flows_accept))

-- The number that is returned.
abbrev pub Returns : Peer → AccClient → ℕ → Type 0
Returns peer c n = ((n ≡ 1) × Accepted peer c) ⊎ ((n ≡ 0) × ¬ Accepted peer c)

accepted-cases :
    (e : ErrorCode)
    → ((accepted e ≡ 1) × (e ≡ flows_accept)) ⊎ ((accepted e ≡ 0) × (e ≢ flows_accept))
accepted-cases disconnect = inr (refl, λ e. absurd (ground arith))
accepted-cases ErrorCode.invalid = inr (refl, λ e. absurd (ground arith))
accepted-cases flows_accept = inl (refl, refl)
accepted-cases ErrorCode.flows_rejection = inr (refl, λ e. absurd (ground arith))

-- A second try alone.
abbrev Again : Peer → Type 0
Again peer = (peer.handle ≢ 0) × (peer.on_new ≡ flows_accept)

reconnect-Returns :
    (peer : Peer) (c : AccClient)
    → (r : ℕ × AccClient) × (reconnect peer c ≡ done r)
      × (((r.0 ≡ 1) × Again peer) ⊎ ((r.0 ≡ 0) × ¬ Again peer))
unfolding reconnect acc_client_add_flows acc_client_is_connected acc_client_connect
reconnect-Returns peer c = elim (Bool-cases (peer.handle == 0)) [
  | inl z ↦
      ((0, acc_client_connect c peer.handle), ground arith, inr (refl, λ a. a.0 (ground arith)))
  | inr z ↦
      let k : peer.handle ≢ 0 = ground arith in
      (
        (accepted peer.on_new, acc_client_connect c peer.handle),
        ground arith,
        elim (accepted-cases peer.on_new) [
          | inl (e, q) ↦ inl (e, (k, q))
          | inr (e, q) ↦ inr (e, λ a. q a.1)
        ],
      )
]

tried :
    (peer : Peer) (c : AccClient) (e : ErrorCode)
    → first_try c peer.on_open ≡ done e
    → accelerate_with peer c ≡ after_first peer c e
unfolding accelerate_with
tried peer c e q = rw q refl

again :
    (peer : Peer) (c : AccClient)
    → first_try c peer.on_open ≡ done disconnect
    → (c.handle ≡ 0) ⊎ (peer.on_open ≡ disconnect)
    → (r : ℕ × AccClient) × (accelerate_with peer c ≡ done r) × Returns peer c r.0
unfolding after_first
again peer c q why =
    let (r, e, cases) = reconnect-Returns peer c in
    (
      r,
      tried peer c disconnect q ∙ e,
      elim cases [
        | inl (n, a) ↦ inl (n, inr (why, a.0, a.1))
        | inr (n, not) ↦ inr (
          n,
          λ x. elim x [
            | inl (open_handle, acc) ↦ elim why [
              | inl z ↦ open_handle z
              | inr d ↦ absurd (ground arith)
            ]
            | inr (w, h, acc) ↦ not (h, acc)
          ],
        )
      ],
    )

-- When each call on the channel that an offer of a flow makes returns, with what the peer says,
-- the offer runs into no assertion and returns 1 when the flow was accepted on the open channel,
-- or on a new one when there was none or it was lost, and 0 in all other cases.
pub accelerate_with-Returns :
    (peer : Peer) (c : AccClient)
    → (r : ℕ × AccClient) × (accelerate_with peer c ≡ done r) × Returns peer c r.0
unfolding first_try acc_client_add_flows acc_client_is_connected after_first
accelerate_with-Returns peer c = elim (Bool-cases (c.handle == 0)) [
  | inl z ↦ again peer c (ground arith) (inl (ground arith))
  | inr z ↦ answered peer.on_open refl (ground arith)
]
  where
    answered :
        (o : ErrorCode)
        → peer.on_open ≡ o
        → c.handle ≢ 0
        → (r : ℕ × AccClient) × (accelerate_with peer c ≡ done r) × Returns peer c r.0
    answered disconnect q h = again peer c (ground arith) (inr q)
    answered flows_accept q h =
        ((1, c), tried peer c flows_accept (ground arith), inl (refl, inl (h, q)))
    answered ErrorCode.invalid q h = (
      (0, c),
      tried peer c ErrorCode.invalid (ground arith),
      inr (refl, λ x. absurd (ground arith)),
    )
    answered ErrorCode.flows_rejection q h = (
      (0, c),
      tried peer c ErrorCode.flows_rejection (ground arith),
      inr (refl, λ x. absurd (ground arith)),
    )
