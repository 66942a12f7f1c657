-- ===== src/Cards/History.antt =====
-- Sequences of calls of be_la/be_acc_card.c from the table that `be_la_acc_cards_init` makes.
use be_la.Prelude.{
  ℕ, ◌≡◌, refl, subst, Option, List, [], ◌∷◌, Status, Outcome, done, crash, ◌>>=◌, arith,
}
use be_la.Vendor.{AccCard}
use be_la.Cards.{
  BeCardInner, AccCardsTable, be_acc_card_reg, be_acc_card_unreg, be_la_acc_cards_init,
}
use be_la.Cards.Invariant.{IsValid, reg-IsValid, unreg-IsValid, init-IsValid}

-- A registration comes with what `calloc` returns.
pub data Call : Type 0 where
  reg : AccCard → Option ℕ → Call
  unreg : BeCardInner → Call

unfoldable pub call : AccCardsTable → Call → Outcome (Status × AccCardsTable)
call t (reg c a) = be_acc_card_reg t c a
call t (unreg u) = be_acc_card_unreg t u

unfoldable pub run : AccCardsTable → List Call → Outcome AccCardsTable
run t [] = done t
run t (c ∷ cs) = call t c >>= λ r. run r.1 cs

call-IsValid :
    (t t' : AccCardsTable) (c : Call) (s : Status)
    → IsValid t
    → call t c ≡ done (s, t')
    → IsValid t'
unfolding call
call-IsValid t t' (reg c a) s v h = reg-IsValid t t' c a s v h
call-IsValid t t' (unreg u) s v h = unreg-IsValid t t' u s v h

after-IsValid :
    (t t' : AccCardsTable) (c : Call) (cs : List Call) (o : Outcome (Status × AccCardsTable))
    → IsValid t
    → ((u : AccCardsTable) → IsValid u → run u cs ≡ done t' → IsValid t')
    → call t c ≡ o
    → (o >>= λ r. run r.1 cs) ≡ done t'
    → IsValid t'
after-IsValid t t' c cs (done (s, u)) v rest e k = rest u (call-IsValid t u c s v e) k
after-IsValid t t' c cs (crash f) v rest e k = cc

run-IsValid_from :
    (t t' : AccCardsTable) (cs : List Call) → IsValid t → run t cs ≡ done t' → IsValid t'
unfolding run
run-IsValid_from t t' [] v h = let e : t ≡ t' = ground arith in subst IsValid e v
run-IsValid_from t t' (c ∷ cs) v h =
    after-IsValid t t' c cs (call t c) v (λ u w k. run-IsValid_from u t' cs w k) refl h

-- After any registrations and removals, from the initial table, that all return, the table has 64 slots, `reg_num` counts
-- the slots in use, and no two registered cards have one path.
pub run-IsValid :
    (t₀ t : AccCardsTable) (cs : List Call)
    → run (be_la_acc_cards_init t₀).1 cs ≡ done t
    → IsValid t
run-IsValid t₀ t cs h = run-IsValid_from (be_la_acc_cards_init t₀).1 t cs (init-IsValid t₀) h
