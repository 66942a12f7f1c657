-- ===== src/Cards/Invariant.antt =====
-- The invariant of the card table of be_la/be_acc_card.c, and that every operation keeps it.
use be_la.Prelude.{
  ℕ, ◌+◌, ◌-◌, Bytes, ◌≡◌, refl, inl, inr, Option, none, some, Status, success, failure, done,
  arith, length, set, Option-cases,
}
use be_la.Vendor.{AccCard}
use be_la.Cards.{
  BeCardInner, AccCardsTable, acc_card_max_num, fresh_card, find_path, find_free, clear_found,
  be_acc_card_reg, reg_as, be_acc_card_unreg, be_la_acc_cards_init,
}
use be_la.Cards.Table.{
  Absent, Distinct, count_used, find_path-none, find_free-FreeAt, length-FreeAt, count_used-FreeAt,
  Distinct-FreeAt,
}
use be_la.Cards.Clear.{find_path-UsedAt, length-UsedAt, count_used-UsedAt, Distinct-UsedAt}

pub record IsValid (t : AccCardsTable) : Type 0 where
  pub size : length t.acc_cards ≡ acc_card_max_num
  pub counted : t.reg_num ≡ count_used t.acc_cards
  pub distinct : Distinct t.acc_cards

-- The new table of a successful registration, in parts.
pub record Registered (t : AccCardsTable) (reginfo : AccCard) (addr : ℕ) (t' : AccCardsTable)
    : Type 0 where
  pub slot : ℕ
  pub free : find_free t.acc_cards ≡ some slot
  pub absent : Absent reginfo.vmpath t.acc_cards
  pub result : t' ≡ record t {
    acc_cards = set t.acc_cards slot (some (fresh_card addr reginfo));
    reg_num = t.reg_num + 1;
  }

-- The cases of `be_acc_card_reg` that return 0.
pub reg-Registered :
    (t t' : AccCardsTable) (reginfo : AccCard) (allocated : Option ℕ)
    → be_acc_card_reg t reginfo allocated ≡ done (success, t')
    → (addr : ℕ) × (allocated ≡ some addr) × Registered t reginfo addr t'
unfolding be_acc_card_reg reg_as
reg-Registered t t' reginfo none h = elim (Option-cases (find_free t.acc_cards)) [
  | inl e ↦ absurd (ground arith)
  | inr (i, e) ↦ absurd (ground arith)
]
reg-Registered t t' reginfo (some addr) h = elim (Option-cases (find_free t.acc_cards)) [
  | inl e ↦ absurd (ground arith)
  | inr (i, e) ↦ (
    addr,
    refl,
    record {
      slot = i;
      free = e;
      absent = find_path-none reginfo.vmpath t.acc_cards (ground arith);
      result = ground arith;
    },
  )
]

pub Registered-IsValid :
    {t t' : AccCardsTable} {reginfo : AccCard} {addr : ℕ}
    → Registered t reginfo addr t'
    → IsValid t
    → IsValid t'
Registered-IsValid {t} {t'} {reginfo} {addr} g v =
    let f = find_free-FreeAt t.acc_cards g.slot (fresh_card addr reginfo) g.free in
    rw g.result record {
      size = omega (arith, length-FreeAt f, v.size);
      counted = omega (arith, count_used-FreeAt f, v.counted);
      distinct = Distinct-FreeAt f g.absent v.distinct;
    }

-- A call that fails leaves the table as it was.
pub reg-failure :
    (t t' : AccCardsTable) (reginfo : AccCard) (allocated : Option ℕ)
    → be_acc_card_reg t reginfo allocated ≡ done (failure, t')
    → t' ≡ t
unfolding be_acc_card_reg reg_as
reg-failure t t' reginfo none h = ground arith
reg-failure t t' reginfo (some a) h = ground arith

-- Registration keeps the invariant, whatever it returns.
pub reg-IsValid :
    (t t' : AccCardsTable) (reginfo : AccCard) (allocated : Option ℕ) (s : Status)
    → IsValid t
    → be_acc_card_reg t reginfo allocated ≡ done (s, t')
    → IsValid t'
reg-IsValid t t' reginfo allocated success v h =
    Registered-IsValid (reg-Registered t t' reginfo allocated h).2 v
reg-IsValid t t' reginfo allocated failure v h = rw (reg-failure t t' reginfo allocated h) v

cleared-IsValid :
    (t : AccCardsTable) (p : Bytes) (i : ℕ)
    → IsValid t
    → find_path p t.acc_cards ≡ some i
    → IsValid (record t { acc_cards = set t.acc_cards i none; reg_num = t.reg_num - 1 })
cleared-IsValid t p i v e =
    let u = find_path-UsedAt p t.acc_cards i e in
    record {
      size = omega (arith, length-UsedAt u, v.size);
      counted = omega (arith, count_used-UsedAt u, v.counted);
      distinct = Distinct-UsedAt u v.distinct;
    }

-- What `be_acc_card_unreg` leaves when its assertions hold.
pub unreg-cleared :
    (t t' : AccCardsTable) (u : BeCardInner) (s : Status)
    → be_acc_card_unreg t u ≡ done (s, t')
    → (s ≡ success) × (t' ≡ clear_found t (find_path u.vmpath t.acc_cards))
unfolding be_acc_card_unreg
unreg-cleared t t' u s h = ground arith

-- Removal keeps the invariant.
pub unreg-IsValid :
    (t t' : AccCardsTable) (u : BeCardInner) (s : Status)
    → IsValid t
    → be_acc_card_unreg t u ≡ done (s, t')
    → IsValid t'
unfolding clear_found
unreg-IsValid t t' u s v h =
    rw (unreg-cleared t t' u s h).1 (after_clear (find_path u.vmpath t.acc_cards) refl)
  where
    after_clear : (o : Option ℕ) → find_path u.vmpath t.acc_cards ≡ o → IsValid (clear_found t o)
    after_clear none e = v
    after_clear (some i) e = cleared-IsValid t u.vmpath i v e

pub init-IsValid : (t : AccCardsTable) → IsValid (be_la_acc_cards_init t).1
unfolding be_la_acc_cards_init
init-IsValid t = record { size = refl; counted = refl; distinct = tt }
