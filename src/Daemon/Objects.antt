-- ===== src/Daemon/Objects.antt =====
-- What is found in the table after a write to a card object.
use mathlib.Core.Option
use be_la.Prelude.{
  ℕ, ◌≡◌, refl, Bool, true, false, Bytes, Option, none, some, [], ◌∷◌, ◌==◌, if◌then◌else◌, arith,
  str_eq,
}
use be_la.Cards.{BeCardInner, Slots}
use be_la.Cards.Table.{find_card}
use be_la.Daemon.{card_at, write_card, overlay}

abbrev pub written : BeCardInner → BeCardInner → BeCardInner
written new c = if c.addr == new.addr then overlay new c else c

written-addr : (new c : BeCardInner) → (written new c).addr ≡ c.addr
written-addr new c = go (c.addr == new.addr)
  where
    go : (t : Bool) → (if t then overlay new c else c).addr ≡ c.addr
    go true = refl
    go false = refl

written-vmpath : (new c : BeCardInner) → (written new c).vmpath ≡ c.vmpath
written-vmpath new c = go (c.addr == new.addr)
  where
    go : (t : Bool) → (if t then overlay new c else c).vmpath ≡ c.vmpath
    go true = refl
    go false = refl

map_if {ℓ} :
    {A B : Type ℓ} (f : A → B) (t : Bool) (a : A) (o : Option A)
    → Option.map f (if t then some a else o) ≡ (if t then some (f a) else Option.map f o)
map_if f true a o = refl
map_if f false a o = refl

pub card_at-write_card :
    (a : ℕ) (new : BeCardInner) (l : Slots)
    → card_at a (write_card new l) ≡ Option.map (written new) (card_at a l)
unfolding card_at write_card
card_at-write_card a new [] = refl
card_at-write_card a new (none ∷ r) = card_at-write_card a new r
card_at-write_card a new (some c ∷ r) =
    rw
      (
        written-addr new c,
        card_at-write_card a new r,
        map_if (written new) (c.addr == a) c (card_at a r),
      )
      refl

pub find_card-write_card :
    (p : Bytes) (new : BeCardInner) (l : Slots)
    → find_card p (write_card new l) ≡ Option.map (written new) (find_card p l)
unfolding write_card
find_card-write_card p new [] = refl
find_card-write_card p new (none ∷ r) = find_card-write_card p new r
find_card-write_card p new (some c ∷ r) =
    rw
      (
        written-vmpath new c,
        find_card-write_card p new r,
        map_if (written new) (str_eq c.vmpath p) c (find_card p r),
      )
      refl

-- An object that is found by its address has it.
pub addr-card_at : (a : ℕ) (l : Slots) (c : BeCardInner) → card_at a l ≡ some c → c.addr ≡ a
unfolding card_at
addr-card_at a [] c e = ground arith
addr-card_at a (none ∷ r) c e = addr-card_at a r c e
addr-card_at a (some b ∷ r) c e = ground (arith, addr-card_at a r c)

pub written_same : (new c : BeCardInner) → c.addr ≡ new.addr → written new c ≡ overlay new c
written_same new c e = ground arith
