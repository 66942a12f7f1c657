-- ===== src/Cards/Tests.antt =====
-- The card table of be_la/be_acc_card.c at concrete inputs.
use be_la.Prelude.{
  ◌≡◌, refl, none, some, [], success, failure, done, crash, assertion, codes, bytes_eq, arith, set,
}
use be_la.Vendor.{AccCard}
use be_la.Cards.{
  AccCardsTable, blank_table, fresh_card, holds_path, find_path, find_free, be_la_get_acc_cardptr,
  be_acc_card_reg, reg_as, be_acc_card_unreg, be_la_acc_cards_init,
}
use be_la.Cards.Invariant.{IsValid, init-IsValid}
use be_la.Cards.Lookup.{Decides, cardptr-reg, cardptr-unreg, reg-Decides, unreg-reg}

abbrev vm_a : AccCard
vm_a = record { vendor = 1; model = 1; acc_type = 1; vm_uuid = codes "u1"; vmpath = codes "/tmp/a" }

abbrev vm_b : AccCard
vm_b = record vm_a { vmpath = codes "/tmp/b" }

abbrev with_a : AccCardsTable
with_a = record { acc_cards = set blank_table.acc_cards 0 (some (fresh_card 5 vm_a)); reg_num = 1 }

reg_a : be_acc_card_reg blank_table vm_a (some 5) ≡ done (success, with_a)
unfolding be_acc_card_reg reg_as find_path find_free holds_path
reg_a = refl

reg_a_twice : be_acc_card_reg with_a vm_a (some 6) ≡ done (failure, with_a)
unfolding be_acc_card_reg reg_as find_path holds_path bytes_eq
reg_a_twice = refl

reg_no_uuid : be_acc_card_reg with_a (record vm_a { vm_uuid = [] }) (some 6) ≡ crash assertion
unfolding be_acc_card_reg reg_as
reg_no_uuid = refl

cardptr-reg_example : be_la_get_acc_cardptr with_a (codes "/tmp/a") ≡ some (fresh_card 5 vm_a)
unfolding bytes_eq
cardptr-reg_example = cardptr-reg blank_table with_a vm_a 5 (codes "/tmp/a") reg_a

blank-IsValid : IsValid blank_table
unfolding be_la_acc_cards_init
blank-IsValid = init-IsValid blank_table

unreg_a : be_acc_card_unreg with_a (fresh_card 0 vm_a) ≡ done (success, blank_table)
unfolding be_acc_card_unreg find_path holds_path bytes_eq
unreg_a = refl

with_a-IsValid : IsValid with_a
with_a-IsValid = record { size = refl; counted = refl; distinct = (tt, tt) }

cardptr-unreg_example : be_la_get_acc_cardptr blank_table (codes "/tmp/a") ≡ none
unfolding bytes_eq
cardptr-unreg_example =
    cardptr-unreg with_a blank_table (fresh_card 0 vm_a) success (codes "/tmp/a") with_a-IsValid
      unreg_a

unreg-reg_example : be_acc_card_unreg with_a (fresh_card 5 vm_a) ≡ done (success, blank_table)
unreg-reg_example = unreg-reg blank_table with_a vm_a 5 reg_a

reg-Decides_example : Decides with_a vm_b 7
reg-Decides_example =
    reg-Decides with_a vm_b 7 with_a-IsValid (λ e. absurd (omega arith)) (λ e. absurd (omega arith))
