-- ===== src/Daemon/Ready.antt =====
-- The state of be_la/be_main.c's daemon from which its callbacks return, and what keeps it so.
use be_la.Prelude.{
  ℕ, zero, suc, ◌≡◌, refl, sym, subst, Bool, true, false, none, some, [], ◌∷◌, ◌==◌, if◌then◌else◌,
  set, arith,
}
use be_la.Vendor.{AccCard}
use be_la.Cards.{BeCardInner, Slots, fresh_card}
use be_la.Session.Ready.{Setup, OptionReady, CardReady, WorldReady}
use be_la.Session.Made.{some_inj}
use be_la.Daemon.{Daemon, card_at, write_card, overlay}

-- Every registered card is as the handlers need it.
abbrev pub SlotsReady : Setup → Slots → Type 0
SlotsReady s [] = Unit {0}
SlotsReady s (none ∷ r) = SlotsReady s r
SlotsReady s (some c ∷ r) = CardReady s c × SlotsReady s r

-- No object of the table has this address.
abbrev pub IsFreeAddr : ℕ → Slots → Type 0
IsFreeAddr a [] = Unit {0}
IsFreeAddr a (none ∷ r) = IsFreeAddr a r
IsFreeAddr a (some c ∷ r) = ((c.addr == a) ≡ false) × IsFreeAddr a r

-- The objects of the table have different addresses.
abbrev pub AddrsDistinct : Slots → Type 0
AddrsDistinct [] = Unit {0}
AddrsDistinct (none ∷ r) = AddrsDistinct r
AddrsDistinct (some c ∷ r) = IsFreeAddr c.addr r × AddrsDistinct r

pub record DaemonReady (s : Setup) (d : Daemon) : Type 0 where
  pub world : WorldReady s d.world
  pub slots : SlotsReady s d.table.acc_cards
  pub addrs : AddrsDistinct d.table.acc_cards

pub card_at-CardReady :
    (s : Setup) (a : ℕ) (l : Slots) (c : BeCardInner)
    → SlotsReady s l
    → card_at a l ≡ some c
    → CardReady s c
unfolding card_at
card_at-CardReady s a [] c v e = ground arith
card_at-CardReady s a (none ∷ r) c v e = card_at-CardReady s a r c v e
card_at-CardReady s a (some b ∷ r) c (x, v) e = go (b.addr == a) e (card_at-CardReady s a r c v)
  where
    go :
        (t : Bool)
        → (if t then some b else card_at a r) ≡ some c
        → (card_at a r ≡ some c → CardReady s c)
        → CardReady s c
    go true k later = subst (CardReady s) (some_inj k) x
    go false k later = later k

write-IsFreeAddr :
    (a : ℕ) (new : BeCardInner) (l : Slots) → IsFreeAddr a l → IsFreeAddr a (write_card new l)
unfolding write_card
write-IsFreeAddr a new [] f = tt
write-IsFreeAddr a new (none ∷ r) f = write-IsFreeAddr a new r f
write-IsFreeAddr a new (some b ∷ r) (x, f) = (go (b.addr == new.addr), write-IsFreeAddr a new r f)
  where
    go : (t : Bool) → ((if t then overlay new b else b).addr == a) ≡ false
    go true = x
    go false = x

pub write-AddrsDistinct :
    (new : BeCardInner) (l : Slots) → AddrsDistinct l → AddrsDistinct (write_card new l)
unfolding write_card
write-AddrsDistinct new [] v = tt
write-AddrsDistinct new (none ∷ r) v = write-AddrsDistinct new r v
write-AddrsDistinct new (some b ∷ r) (f, v) = (go (b.addr == new.addr), write-AddrsDistinct new r v)
  where
    go : (t : Bool) → IsFreeAddr (if t then overlay new b else b).addr (write_card new r)
    go true = write-IsFreeAddr b.addr new r f
    go false = write-IsFreeAddr b.addr new r f

write_elsewhere :
    (s : Setup) (new : BeCardInner) (l : Slots)
    → IsFreeAddr new.addr l
    → SlotsReady s l
    → SlotsReady s (write_card new l)
unfolding write_card
write_elsewhere s new [] f v = tt
write_elsewhere s new (none ∷ r) f v = write_elsewhere s new r f v
write_elsewhere s new (some b ∷ r) (x, f) (y, v) =
    (go (b.addr == new.addr) x, write_elsewhere s new r f v)
  where
    go : (t : Bool) → t ≡ false → CardReady s (if t then overlay new b else b)
    go true e = absurd (ground arith)
    go false e = y

-- A write through a pointer to a registered card, when the context that it leaves is ready.
pub write-SlotsReady :
    (s : Setup) (new c : BeCardInner) (l : Slots)
    → AddrsDistinct l
    → SlotsReady s l
    → card_at new.addr l ≡ some c
    → OptionReady s c.card new.context
    → SlotsReady s (write_card new l)
unfolding write_card card_at
write-SlotsReady s new c [] d v e k = tt
write-SlotsReady s new c (none ∷ r) d v e k = write-SlotsReady s new c r d v e k
write-SlotsReady s new c (some b ∷ r) (f, d) (y, v) e k =
    go (b.addr == new.addr) refl e (λ h. write-SlotsReady s new c r d v h k)
  where
    go :
        (t : Bool)
        → (b.addr == new.addr) ≡ t
        → (if t then some b else card_at new.addr r) ≡ some c
        → (card_at new.addr r ≡ some c → SlotsReady s (write_card new r))
        → CardReady s (if t then overlay new b else b) × SlotsReady s (write_card new r)
    go true q h later = (
      subst (λ (x : BeCardInner). OptionReady s x.card new.context) (sym (some_inj h)) k,
      write_elsewhere s new r (subst (λ a. IsFreeAddr a r) (ground arith) f) v,
    )
    go false q h later = (y, later h)

clear-IsFreeAddr : (a i : ℕ) (l : Slots) → IsFreeAddr a l → IsFreeAddr a (set l i none)
clear-IsFreeAddr a i [] f = tt
clear-IsFreeAddr a zero (none ∷ r) f = f
clear-IsFreeAddr a (suc i) (none ∷ r) f = clear-IsFreeAddr a i r f
clear-IsFreeAddr a zero (some b ∷ r) (x, f) = f
clear-IsFreeAddr a (suc i) (some b ∷ r) (x, f) = (x, clear-IsFreeAddr a i r f)

pub clear-AddrsDistinct : (i : ℕ) (l : Slots) → AddrsDistinct l → AddrsDistinct (set l i none)
clear-AddrsDistinct i [] f = tt
clear-AddrsDistinct zero (none ∷ r) f = f
clear-AddrsDistinct (suc i) (none ∷ r) f = clear-AddrsDistinct i r f
clear-AddrsDistinct zero (some b ∷ r) (x, f) = f
clear-AddrsDistinct (suc i) (some b ∷ r) (x, f) =
    (clear-IsFreeAddr b.addr i r x, clear-AddrsDistinct i r f)

pub clear-SlotsReady :
    (s : Setup) (i : ℕ) (l : Slots) → SlotsReady s l → SlotsReady s (set l i none)
clear-SlotsReady s i [] v = tt
clear-SlotsReady s zero (none ∷ r) v = v
clear-SlotsReady s (suc i) (none ∷ r) v = clear-SlotsReady s i r v
clear-SlotsReady s zero (some b ∷ r) (x, v) = v
clear-SlotsReady s (suc i) (some b ∷ r) (x, v) = (x, clear-SlotsReady s i r v)

fill-IsFreeAddr :
    (a i addr : ℕ) (card : AccCard) (l : Slots)
    → (addr == a) ≡ false
    → IsFreeAddr a l
    → IsFreeAddr a (set l i (some (fresh_card addr card)))
fill-IsFreeAddr a i addr card [] n f = tt
fill-IsFreeAddr a zero addr card (none ∷ r) n f = (n, f)
fill-IsFreeAddr a (suc i) addr card (none ∷ r) n f = fill-IsFreeAddr a i addr card r n f
fill-IsFreeAddr a zero addr card (some b ∷ r) n (x, f) = (n, f)
fill-IsFreeAddr a (suc i) addr card (some b ∷ r) n (x, f) = (x, fill-IsFreeAddr a i addr card r n f)

pub fill-AddrsDistinct :
    (i addr : ℕ) (card : AccCard) (l : Slots)
    → IsFreeAddr addr l
    → AddrsDistinct l
    → AddrsDistinct (set l i (some (fresh_card addr card)))
fill-AddrsDistinct i addr card [] f v = tt
fill-AddrsDistinct zero addr card (none ∷ r) f v = (f, v)
fill-AddrsDistinct (suc i) addr card (none ∷ r) f v = fill-AddrsDistinct i addr card r f v
fill-AddrsDistinct zero addr card (some b ∷ r) (x, f) (y, v) = (f, v)
fill-AddrsDistinct (suc i) addr card (some b ∷ r) (x, f) (y, v) =
    (fill-IsFreeAddr b.addr i addr card r (ground arith) y, fill-AddrsDistinct i addr card r f v)

pub fill-SlotsReady :
    (s : Setup) (i addr : ℕ) (card : AccCard) (l : Slots)
    → SlotsReady s l
    → SlotsReady s (set l i (some (fresh_card addr card)))
fill-SlotsReady s i addr card [] v = tt
fill-SlotsReady s zero addr card (none ∷ r) v = (tt, v)
fill-SlotsReady s (suc i) addr card (none ∷ r) v = fill-SlotsReady s i addr card r v
fill-SlotsReady s zero addr card (some b ∷ r) (x, v) = (tt, v)
fill-SlotsReady s (suc i) addr card (some b ∷ r) (x, v) = (x, fill-SlotsReady s i addr card r v)
