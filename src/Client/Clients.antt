-- ===== src/Client/Clients.antt =====
-- vnf/cgnat-acc/acc_client.c: the table of clients, one for each id.
use mathlib.Core.Option
use be_la.Prelude.{
  ℕ, suc, ◌≡◌, ◌≢◌, refl, Bytes, Option, none, some, List, [], ◌∷◌, ◌==◌, if◌then◌else◌, set, arith,
  Option-cases, ◌⊎◌, inl, inr,
}
use be_la.Client.{AccClient, VsocketType}
use be_la.Client.Types.{
  acc_get_first_vsocket_type, acc_get_vsocket_type_by_name, acc_vsocket_unix_register,
}

unfoldable pub acc_client_get_by_id : ℕ → List AccClient → Option ℕ
acc_client_get_by_id id [] = none
acc_client_get_by_id id (c ∷ r) =
    let rest = Option.map suc (acc_client_get_by_id id r) in
    if c.id == 0 then none else if id == c.id then some 0 else rest

unfoldable pub acc_client_get_last_idx : List AccClient → Option ℕ
acc_client_get_last_idx [] = none
acc_client_get_last_idx (c ∷ r) =
    if c.id == 0 then some 0 else Option.map suc (acc_client_get_last_idx r)

pub record Tables : Type 0 where
  pub clients : List AccClient
  pub types : List VsocketType

-- The socket type of a new client: by its name, or the first one, behind a registration of the
-- channel's type.
unfoldable pub socket_for : Option Bytes → List VsocketType → Option ℕ × List VsocketType
socket_for (some n) types = (acc_get_vsocket_type_by_name n types, types)
socket_for none types =
    let (s, types') = acc_vsocket_unix_register types in (acc_get_first_vsocket_type types', types')

unfoldable pub new_client : ℕ → Tables → ℕ → Option ℕ → Option ℕ × Tables
new_client id s idx none = (none, s)
new_client id s idx (some socket) = (
  some idx,
  record s { clients = set s.clients idx (record { id = id; handle = 0; socket = some socket }) },
)

unfoldable pub acc_client_add : ℕ → Option Bytes → Tables → Option ℕ × Tables
unfolding new_client
acc_client_add id socket_type s = elim (acc_client_get_last_idx s.clients) [
  | none ↦ (none, s)
  | some idx ↦
      let (socket, types) = socket_for socket_type s.types in
      new_client id (record s { types = types }) idx socket
]

-- The client is the index of its entry.
unfoldable pub acc_client_register : ℕ → Tables → Option ℕ × Tables
unfolding acc_client_add
acc_client_register id s = elim (acc_client_get_by_id id s.clients) [
  | some i ↦ (some i, s)
  | none ↦ acc_client_add id none s
]

-- Behind the first free entry every entry is free.
abbrev AllFree : List AccClient → Type 0
AllFree [] = Unit {0}
AllFree (c ∷ r) = (c.id ≡ 0) × AllFree r

abbrev pub IsCompact : List AccClient → Type 0
IsCompact [] = Unit {0}
IsCompact (c ∷ r) = ((c.id ≡ 0) × AllFree r) ⊎ ((c.id ≢ 0) × IsCompact r)

AllFree-none : (k : ℕ) (l : List AccClient) → AllFree l → acc_client_get_by_id k l ≡ none
unfolding acc_client_get_by_id
AllFree-none k [] f = refl
AllFree-none k (c ∷ r) (z, f) = rw z refl

AllFree-IsCompact : (l : List AccClient) → AllFree l → IsCompact l
AllFree-IsCompact [] f = tt
AllFree-IsCompact (c ∷ r) (z, f) = inl (z, f)

module _ (id : ℕ) (socket : Option ℕ) where
  abbrev client_entry : AccClient
  client_entry = record { id = id; handle = 0; socket = socket }

  -- The lookups, and the order of the table, after a write at the first free entry.
  pub found_after :
      (l : List AccClient) (i k : ℕ)
      → id ≢ 0
      → IsCompact l
      → acc_client_get_last_idx l ≡ some i
      → acc_client_get_by_id id l ≡ none
      → acc_client_get_by_id k (set l i client_entry)
        ≡ (if k == id then some i else acc_client_get_by_id k l)
  unfolding acc_client_get_by_id acc_client_get_last_idx
  found_after [] i k n v e a = ground arith
  found_after (c ∷ r) i k n (inl (z, f)) e a =
      let q : i ≡ 0 = ground arith in rw q (ground (arith, AllFree-none k r f))
  found_after (c ∷ r) i k n (inr (z, v)) e a = elim (Option-cases (acc_client_get_last_idx r)) [
    | inl q ↦ ground arith
    | inr (j, q) ↦
        let at : i ≡ suc j = ground arith in
        let missing : acc_client_get_by_id id r ≡ none = ground arith in
        rw at (ground (arith, found_after r j k n v q missing))
  ]

  pub IsCompact-set :
      (l : List AccClient) (i : ℕ)
      → id ≢ 0
      → IsCompact l
      → acc_client_get_last_idx l ≡ some i
      → IsCompact (set l i client_entry)
  unfolding acc_client_get_last_idx
  IsCompact-set [] i n v e = tt
  IsCompact-set (c ∷ r) i n (inl (z, f)) e =
      let q : i ≡ 0 = ground arith in rw q (inr (n, AllFree-IsCompact r f))
  IsCompact-set (c ∷ r) i n (inr (z, v)) e = elim (Option-cases (acc_client_get_last_idx r)) [
    | inl q ↦ absurd (ground arith)
    | inr (j, q) ↦ let at : i ≡ suc j = ground arith in rw at (inr (z, IsCompact-set r j n v q))
  ]
