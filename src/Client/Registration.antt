-- ===== src/Client/Registration.antt =====
-- What `acc_client_register` of vnf/cgnat-acc/acc_client.c promises.

use be_la.Prelude.{
  ℕ, ◌≡◌, ◌≢◌, refl, Option, none, some, List, [], ◌∷◌, ◌==◌, if◌then◌else◌, set, arith,
  Option-cases, ◌⊎◌, inl, inr, head_byte,
}
use be_la.Client.{VsocketType}
use be_la.Client.Types.{
  acc_get_first_vsocket_type, acc_get_vsocket_type_by_name, vsocket_get_by_name,
  vsocket_type_get_last_idx, vsocket_type_add, acc_vsocket_type_register, acc_vsocket_unix_register,
  channel_vsocket,
}
use be_la.Client.Clients.{
  Tables, acc_client_get_by_id, acc_client_get_last_idx, socket_for, new_client, acc_client_add,
  acc_client_register, IsCompact, found_after, IsCompact-set,
}

-- The first socket type is registered, as it is once the program's `module_init` has run.
abbrev pub HasFirst : List VsocketType → Type 0
HasFirst [] = ⊥
HasFirst (t ∷ r) = head_byte t.name ≢ 0

-- After the channel's registration, refused or not, the first socket type is there.
first_type :
    (types : List VsocketType)
    → HasFirst types
    → acc_get_first_vsocket_type (acc_vsocket_unix_register types).1 ≡ some 0
unfolding acc_vsocket_unix_register acc_vsocket_type_register acc_get_vsocket_type_by_name
    vsocket_get_by_name vsocket_type_add vsocket_type_get_last_idx acc_get_first_vsocket_type
first_type [] h = absurd h
first_type (t ∷ r) h = elim (Option-cases (vsocket_get_by_name channel_vsocket.name r)) [
  | inl q ↦ elim (Option-cases (vsocket_type_get_last_idx r)) [
    | inl e ↦ ground arith
    | inr (i, e) ↦ ground arith
  ]
  | inr (i, q) ↦ ground arith
]

-- What a registration can come to: the client that has the id; NULL, when all entries are used;
-- or a new client, found under its id, with all others found as before.
abbrev pub RegisterResult : ℕ → Tables → ℕ → Type 0
RegisterResult id s k =
    ((i : ℕ) × (acc_client_get_by_id id s.clients ≡ some i)
      × (acc_client_register id s ≡ (some i, s)))
    ⊎ (((acc_client_get_by_id id s.clients ≡ none)
          × (acc_client_get_last_idx s.clients ≡ none)
          × (acc_client_register id s ≡ (none, s)))
        ⊎ ((i : ℕ) × (s' : Tables) × (acc_client_get_by_id id s.clients ≡ none)
            × (acc_client_register id s ≡ (some i, s'))
            × IsCompact s'.clients
            × (acc_client_get_by_id k s'.clients
                ≡ (if k == id then some i else acc_client_get_by_id k s.clients))))

-- In a table whose free entries are all behind the used ones, with a first socket type, a
-- registration returns the client that has the id and changes nothing; or returns NULL and
-- changes nothing, when no client has the id and every entry is used; or enters a new client, and
-- then lookups find it under its id and find what they found before under every other.
pub client_register_lem :
    (id : ℕ) (s : Tables) (k : ℕ)
    → id ≢ 0
    → IsCompact s.clients
    → HasFirst s.types
    → RegisterResult id s k
unfolding acc_client_register acc_client_add socket_for new_client
client_register_lem id s k n v h =
    go (acc_client_get_by_id id s.clients) refl (acc_client_get_last_idx s.clients) refl
  where
    go :
        (o : Option ℕ)
        → acc_client_get_by_id id s.clients ≡ o
        → (q : Option ℕ) → acc_client_get_last_idx s.clients ≡ q
        → RegisterResult id s k
    go (some i) e q f = inl (i, e, rw (e, acc_client_register) refl)
    go none e none f = inr (inl (e, f, rw (e, acc_client_register, f, acc_client_add) refl))
    go none e (some i) f =
        let types = (acc_vsocket_unix_register s.types).1 in
        inr (
          inr (
            i,
            record {
              clients = set s.clients i (record { id = id; handle = 0; socket = some 0 });
              types = types;
            },
            e,
            rw (e, acc_client_register, f, acc_client_add, first_type s.types h) refl,
            IsCompact-set id (some 0) s.clients i n v f,
            found_after id (some 0) s.clients i k n v f e,
          ))
