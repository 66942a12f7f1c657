-- ===== src/Cards/Lookup.antt =====
-- The card table of be_la/be_acc_card.c as a finite map from channel paths to cards.
use be_la.Prelude.{
  ℕ, ◌+◌, ◌<◌, ◌≡◌, refl, subst, ◌∙◌, ap, ◌≢◌, ◌⊎◌, inl, inr, Bytes, Option, none, some, Status,
  success, failure, done, arith, if◌then◌else◌, str_eq, set, head_byte,
}
use be_la.Vendor.{AccCard}
use be_la.Cards.{
  BeCardInner, AccCardsTable, acc_card_max_num, fresh_card, find_path, find_free, clear_found,
  is_null, be_la_get_acc_cardptr, be_acc_card_reg, reg_as, be_acc_card_unreg,
}
use be_la.Cards.Table.{
  count_used-le, find_card, at_index-find_path, find_path-none, find_free-FreeAt, find_card-FreeAt,
  find_free-none, find_path-some, find_card-Absent, count_used-FreeAt, length-FreeAt,
}
use be_la.Cards.Clear.{find_path-UsedAt, find_card-UsedAt, find_path-set_free, find_card_missing}
use be_la.Cards.Invariant.{IsValid, Registered, reg-Registered, unreg-cleared}

-- The pointer that the code finds is the first card with the path.
pub cardptr-find_card :
    (t : AccCardsTable) (p : Bytes) → be_la_get_acc_cardptr t p ≡ find_card p t.acc_cards
unfolding be_la_get_acc_cardptr
cardptr-find_card t p = at_index-find_path p t.acc_cards

cardptr-Registered :
    (t t' : AccCardsTable) (reginfo : AccCard) (addr : ℕ) (p : Bytes)
    → Registered t reginfo addr t'
    → be_la_get_acc_cardptr t' p ≡ (
        if str_eq reginfo.vmpath p
        then some (fresh_card addr reginfo)
        else be_la_get_acc_cardptr t p)
cardptr-Registered t t' reginfo addr p g =
    rw (g.result, cardptr-find_card, cardptr-find_card)
      (find_card-FreeAt p (find_free-FreeAt t.acc_cards g.slot (fresh_card addr reginfo) g.free)
        g.absent)

-- After a successful registration a lookup finds the new card, zeroed behind the registered
-- fields, under its path, and finds what it found before under every other path.
pub cardptr-reg :
    (t t' : AccCardsTable) (reginfo : AccCard) (addr : ℕ) (p : Bytes)
    → be_acc_card_reg t reginfo (some addr) ≡ done (success, t')
    → be_la_get_acc_cardptr t' p ≡ (
        if str_eq reginfo.vmpath p
        then some (fresh_card addr reginfo)
        else be_la_get_acc_cardptr t p)
cardptr-reg t t' reginfo addr p h =
    let (a, e, g) = reg-Registered t t' reginfo (some addr) h in
    let q : a ≡ addr = ground arith in
    cardptr-Registered t t' reginfo addr p (subst (λ k. Registered t reginfo k t') q g)

-- After a removal that returns, in a well-formed table, nothing is found under its path, and
-- every other path finds what it found.
pub cardptr-unreg :
    (t t' : AccCardsTable) (u : BeCardInner) (s : Status) (p : Bytes)
    → IsValid t
    → be_acc_card_unreg t u ≡ done (s, t')
    → be_la_get_acc_cardptr t' p ≡ (if str_eq u.vmpath p then none else be_la_get_acc_cardptr t p)
unfolding clear_found
cardptr-unreg t t' u s p v h =
    rw
      (
        (unreg-cleared t t' u s h).1,
        cardptr-find_card (clear_found t (find_path u.vmpath t.acc_cards)) p,
        cardptr-find_card t p,
      )
      (after_clear (find_path u.vmpath t.acc_cards) refl)
  where
    after_clear :
        (o : Option ℕ)
        → find_path u.vmpath t.acc_cards ≡ o
        → find_card p (clear_found t o).acc_cards
          ≡ (if str_eq u.vmpath p then none else find_card p t.acc_cards)
    after_clear none e = find_card_missing u.vmpath p t.acc_cards e
    after_clear (some i) e =
        find_card-UsedAt p (find_path-UsedAt u.vmpath t.acc_cards i e) v.distinct

unreg-Registered :
    (t t' : AccCardsTable) (reginfo : AccCard) (addr : ℕ)
    → Registered t reginfo addr t'
    → be_acc_card_unreg t' (fresh_card addr reginfo) ≡ done (success, t)
unfolding be_acc_card_unreg
unreg-Registered t t' reginfo addr g =
    let (found, cleared) =
      find_path-set_free (find_free-FreeAt t.acc_cards g.slot (fresh_card addr reginfo) g.free)
        g.absent in
    rw g.result (ground arith)

-- The two ways a registration can return, with what each says of the table.
abbrev pub Decides : AccCardsTable → AccCard → ℕ → Type 0
Decides t reginfo addr =
    ((be_acc_card_reg t reginfo (some addr) ≡ done (failure, t))
      × ((be_la_get_acc_cardptr t reginfo.vmpath ≢ none) ⊎ (t.reg_num ≡ acc_card_max_num)))
    ⊎ ((t' : AccCardsTable) × (be_acc_card_reg t reginfo (some addr) ≡ done (success, t'))
        × (be_la_get_acc_cardptr t reginfo.vmpath ≡ none)
        × (t.reg_num < acc_card_max_num)
        × (t'.reg_num ≡ t.reg_num + 1))

-- When the strings of a request are not empty and memory is there, a registration either returns
-- -1, leaves the table as it was, and the path is registered or 64 cards are; or it returns 0, the
-- path was new, fewer than 64 cards were registered, and `reg_num` is one more.
pub reg-Decides :
    (t : AccCardsTable) (reginfo : AccCard) (addr : ℕ)
    → IsValid t
    → head_byte reginfo.vm_uuid ≢ 0
    → head_byte reginfo.vmpath ≢ 0
    → Decides t reginfo addr
unfolding be_acc_card_reg reg_as
reg-Decides t reginfo addr v u p =
    go (find_path reginfo.vmpath t.acc_cards) refl (find_free t.acc_cards) refl
  where
    go :
        (o : Option ℕ)
        → find_path reginfo.vmpath t.acc_cards ≡ o
        → (q : Option ℕ) → find_free t.acc_cards ≡ q
        → Decides t reginfo addr
    go (some i) old q e =
        inl (
          ground arith,
          inl (rw cardptr-find_card (find_path-some reginfo.vmpath t.acc_cards i old)),
        )
    go none fresh none full =
        inl (ground arith, inr (omega (arith, find_free-none t.acc_cards full, v.size, v.counted)))
    go none fresh (some i) free =
        let c = fresh_card addr reginfo in
        let f = find_free-FreeAt t.acc_cards i c free in
        inr (
          record t { acc_cards = set t.acc_cards i (some c); reg_num = t.reg_num + 1 },
          ground arith,
          rw cardptr-find_card (
              find_card-Absent reginfo.vmpath t.acc_cards
                (find_path-none reginfo.vmpath t.acc_cards fresh)),
          omega (
            arith,
            count_used-FreeAt f,
            length-FreeAt f,
            v.size,
            v.counted,
            count_used-le (set t.acc_cards i (some c)),
          ),
          refl,
        )

-- Removing a card that was just registered gives back the table from before.
pub unreg-reg :
    (t t' : AccCardsTable) (reginfo : AccCard) (addr : ℕ)
    → be_acc_card_reg t reginfo (some addr) ≡ done (success, t')
    → be_acc_card_unreg t' (fresh_card addr reginfo) ≡ done (success, t)
unfolding be_acc_card_unreg
unreg-reg t t' reginfo addr h =
    let (a, e, g) = reg-Registered t t' reginfo (some addr) h in
    let q : a ≡ addr = ground arith in
    unreg-Registered t t' reginfo addr (subst (λ k. Registered t reginfo k t') q g)

reg_of_found :
    (t : AccCardsTable) (reginfo : AccCard) (allocated : Option ℕ) (i : ℕ)
    → head_byte reginfo.vm_uuid ≢ 0
    → head_byte reginfo.vmpath ≢ 0
    → find_path reginfo.vmpath t.acc_cards ≡ some i
    → be_acc_card_reg t reginfo allocated ≡ done (failure, t)
unfolding be_acc_card_reg reg_as
reg_of_found t reginfo allocated i u p e = ground arith

reg-strings :
    (t t' : AccCardsTable) (reginfo : AccCard) (allocated : Option ℕ) (s : Status)
    → be_acc_card_reg t reginfo allocated ≡ done (s, t')
    → (head_byte reginfo.vm_uuid ≢ 0) × (head_byte reginfo.vmpath ≢ 0)
unfolding be_acc_card_reg reg_as
reg-strings t t' reginfo allocated s h = ground arith

-- A path that was just registered is not registered again.
pub reg_again :
    (t t' : AccCardsTable) (reginfo : AccCard) (addr : ℕ) (allocated : Option ℕ)
    → be_acc_card_reg t reginfo (some addr) ≡ done (success, t')
    → be_acc_card_reg t' reginfo allocated ≡ done (failure, t')
reg_again t t' reginfo addr allocated h =
    let (a, e, g) = reg-Registered t t' reginfo (some addr) h in
    let (u, p) = reg-strings t t' reginfo (some addr) success h in
    let (found, cleared) =
      find_path-set_free (find_free-FreeAt t.acc_cards g.slot (fresh_card a reginfo) g.free)
        g.absent in
    reg_of_found t' reginfo allocated g.slot u p
      (ap (λ (k : AccCardsTable). find_path reginfo.vmpath k.acc_cards) g.result ∙ found)

-- The removal returns when the assertions hold.
pub unreg_runs :
    (t : AccCardsTable) (u : BeCardInner)
    → u.context ≡ none
    → u.plugin ≡ none
    → u.read_event ≡ none
    → (t' : AccCardsTable) × (be_acc_card_unreg t u ≡ done (success, t'))
unfolding be_acc_card_unreg is_null
unreg_runs t u c p e = (clear_found t (find_path u.vmpath t.acc_cards), rw (c, p, e) refl)
