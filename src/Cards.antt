-- ===== src/Cards.antt =====
-- be_la/be_acc_card.c and .h: the table of the registered cards.
-- A slot holds the card object that `calloc` returned, `none` for NULL. `addr` is the identity of
-- that object, which no later object gets.
pub mod Table
pub mod Clear
pub mod Invariant
pub mod Lookup
pub mod History
mod Tests
use be_la.Prelude.{
  ℕ, suc, ◌+◌, ◌-◌, Bool, Bytes, Option, none, some, List, [], ◌∷◌, Status, success, failure,
  Outcome, done, crash, assertion, ◌==◌, if◌then◌else◌, head_byte, str_eq, set, replicate,
}
use mathlib.Core.Option
use be_la.Vendor.{AccCard}
use be_la.Context.{AccContext}

-- `be_card_inner_t`. `read_event` is the descriptor of the libevent event, `plugin` the vendor and
-- model whose entry of the plugin table the pointer designates.
pub record BeCardInner : Type 0 where
  pub addr : ℕ
  pub card : AccCard
  pub open card use *
  pub fd : ℕ
  pub context : Option AccContext
  pub read_event : Option ℕ
  pub plugin : Option (ℕ × ℕ)

abbrev pub Slots : Type 0
Slots = List (Option BeCardInner)

-- `struct acc_cards_table`
pub record AccCardsTable : Type 0 where
  pub acc_cards : Slots
  pub reg_num : ℕ

abbrev pub acc_card_max_num : ℕ
acc_card_max_num = 64

-- One round of the loop's test: the slot is in use and has this path.
unfoldable pub holds_path : Bytes → Option BeCardInner → Bool
holds_path p none = Bool.false
holds_path p (some c) = str_eq c.vmpath p

-- The loop of `be_la_get_acc_card`.
unfoldable pub find_path : Bytes → Slots → Option ℕ
find_path p [] = none
find_path p (s ∷ r) = if holds_path p s then some 0 else Option.map suc (find_path p r)

unfoldable pub be_la_get_acc_card : AccCardsTable → Bytes → Option ℕ
be_la_get_acc_card t p = find_path p t.acc_cards

-- The object at the index that a search found.
unfoldable pub at_index : Slots → Option ℕ → Option BeCardInner
at_index l none = none
at_index [] (some i) = none
at_index (s ∷ r) (some ℕ.zero) = s
at_index (s ∷ r) (some (suc i)) = at_index r (some i)

unfoldable pub be_la_get_acc_cardptr : AccCardsTable → Bytes → Option BeCardInner
unfolding be_la_get_acc_card
be_la_get_acc_cardptr t p = at_index t.acc_cards (be_la_get_acc_card t p)

-- The loop of `be_acc_card_reg`: the first NULL slot.
unfoldable pub find_free : Slots → Option ℕ
find_free [] = none
find_free (none ∷ r) = some 0
find_free (some c ∷ r) = Option.map suc (find_free r)

-- The object that `calloc` and `memcpy` make of `reginfo`.
abbrev pub fresh_card : ℕ → AccCard → BeCardInner
fresh_card addr reginfo = record {
  addr = addr;
  card = reginfo;
  fd = 0;
  context = none;
  read_event = none;
  plugin = none;
}

abbrev pub RegResult : Type 0
RegResult = Outcome (Status × AccCardsTable)

-- The body of the loop at a free slot: `allocated` is what `calloc` returned.
unfoldable pub fill_slot : AccCardsTable → AccCard → Option ℕ → Option ℕ → RegResult
fill_slot t reginfo allocated none = done (failure, t)
fill_slot t reginfo none (some i) = done (failure, t)
fill_slot t reginfo (some addr) (some i) = done (
  success,
  record t {
    acc_cards = set t.acc_cards i (some (fresh_card addr reginfo));
    reg_num = t.reg_num + 1;
  },
)

-- `path` is the string that starts at `reginfo->vmpath`, which runs on behind the array when no byte
-- of it is NUL; `allocated` is the address that `calloc` returns, `none` for NULL.
unfoldable pub reg_as : AccCardsTable → AccCard → Bytes → Option ℕ → RegResult
unfolding fill_slot be_la_get_acc_card
reg_as t reginfo path allocated =
    if head_byte reginfo.vm_uuid == 0
    then crash assertion
    else if head_byte reginfo.vmpath == 0
    then crash assertion
    else elim (be_la_get_acc_card t path) [
      | some i ↦ done (failure, t)
      | none ↦ fill_slot t reginfo allocated (find_free t.acc_cards)
    ]

-- `be_acc_card_reg` of a card whose path ends in its array.
unfoldable pub be_acc_card_reg : AccCardsTable → AccCard → Option ℕ → RegResult
unfolding reg_as
be_acc_card_reg t reginfo allocated = reg_as t reginfo reginfo.vmpath allocated

-- The loop of `be_acc_card_unreg`, which ends at the first match by `break`.
unfoldable pub clear_found : AccCardsTable → Option ℕ → AccCardsTable
clear_found t none = t
clear_found t (some i) = record t { acc_cards = set t.acc_cards i none; reg_num = t.reg_num - 1 }

unfoldable pub is_null {ℓ} : {A : Type ℓ} → Option A → Bool
is_null none = Bool.true
is_null (some a) = Bool.false

-- The parameter is the pointer read as a `be_card_inner_t`.
unfoldable pub be_acc_card_unreg : AccCardsTable → BeCardInner → RegResult
unfolding is_null clear_found be_la_get_acc_card
be_acc_card_unreg t unreginfo =
    if is_null unreginfo.context
    then if is_null unreginfo.plugin
      then if is_null unreginfo.read_event
        then done (success, clear_found t (be_la_get_acc_card t unreginfo.vmpath))
        else crash assertion
      else crash assertion
    else crash assertion

abbrev pub blank_table : AccCardsTable
blank_table = record { acc_cards = replicate acc_card_max_num none; reg_num = 0 }

unfoldable pub be_la_acc_cards_init : AccCardsTable → Status × AccCardsTable
be_la_acc_cards_init t = (success, blank_table)

-- The objects are freed before the table is zeroed.
unfoldable pub be_la_acc_cards_exit : AccCardsTable → AccCardsTable
be_la_acc_cards_exit t = blank_table
