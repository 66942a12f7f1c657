-- ===== src/Ovs/Filled.antt =====
-- The static buffers of rule/openvswitch/acc_ovs_rule.c after the calls of an evaluation, and the text
-- that `snprintf` makes of them.
use be_la.Prelude.{
  ℕ, zero, suc, ◌≡◌, refl, sym, ap, ◌∙◌, ◌++◌, ◌==◌, Bool, true, false, if◌then◌else◌, Bool-cases,
  inl, inr, Bytes, List, [], ◌∷◌, arith,
}
use mathlib.Core.Logic.{∥∥₁_elim}
use mathlib.Core.List.{Memᴰ, Perm}
use mathlib.Core.List.Perm
use be_la.Ovs.Buffers.{
  Printer, print_ip1, print_ip2, print_mac1, print_mac2, print_port1, print_port2, buffer_at,
  Buffers, printed, print_into, Argument, evaluate, shown, format, EvalOrder,
}

-- The owner of a buffer: no two functions share one.
owner : ℕ → Printer
owner zero = print_ip1
owner (suc zero) = print_ip2
owner (suc (suc zero)) = print_mac1
owner (suc (suc (suc zero))) = print_mac2
owner (suc (suc (suc (suc zero)))) = print_port1
owner (suc (suc (suc (suc (suc n))))) = print_port2

owner-buffer_at : (p : Printer) → owner (buffer_at p) ≡ p
unfolding owner
owner-buffer_at print_ip1 = refl
owner-buffer_at print_ip2 = refl
owner-buffer_at print_mac1 = refl
owner-buffer_at print_mac2 = refl
owner-buffer_at print_port1 = refl
owner-buffer_at print_port2 = refl

buffer_at-inj : (p q : Printer) → buffer_at p ≡ buffer_at q → p ≡ q
buffer_at-inj p q e = sym (owner-buffer_at p) ∙ ap owner e ∙ owner-buffer_at q

-- What the buffers hold when each function prints a value of its own.
abbrev pub expected : (Printer → Bytes) → Buffers
expected v p = printed p (v p)

print_into-own : (p : Printer) (t : Bytes) (s : Buffers) → print_into p t s p ≡ printed p t
unfolding print_into
print_into-own p t s = let same : (buffer_at p == buffer_at p) ≡ true = ground arith in rw same refl

print_into-keeps :
    (v : Printer → Bytes) (p q : Printer) (s : Buffers)
    → s q ≡ expected v q
    → print_into p (v p) s q ≡ expected v q
unfolding print_into
print_into-keeps v p q s h = elim (Bool-cases (buffer_at q == buffer_at p)) [
  | inl e ↦ rw e (ap (expected v) (buffer_at-inj p q (ground arith)))
  | inr e ↦ rw e h
]

-- The arguments print, through each function, one value.
abbrev pub ValuesOf : (Printer → Bytes) → List Argument → Type 0
ValuesOf v l = (a : Argument) → Memᴰ a l → a.value ≡ v a.printer

pub ValuesOf-nil : (v : Printer → Bytes) → ValuesOf v []
ValuesOf-nil v a m = elim m [ ]

pub ValuesOf-cons :
    (v : Printer → Bytes) (x : Argument) (r : List Argument)
    → x.value ≡ v x.printer
    → ValuesOf v r
    → ValuesOf v (x ∷ r)
ValuesOf-cons v x r e h a (Memᴰ.head k) = rw k e
ValuesOf-cons v x r e h a (Memᴰ.tail m) = h a m

evaluate-keeps :
    (v : Printer → Bytes) (l : List Argument) (s : Buffers) (q : Printer)
    → ValuesOf v l
    → s q ≡ expected v q
    → evaluate l s q ≡ expected v q
unfolding evaluate
evaluate-keeps v [] s q h e = e
evaluate-keeps v (a ∷ r) s q h e = evaluate-keeps v r _ q (λ b m. h b (Memᴰ.tail m)) (go a.is_set)
  where
    go : (t : Bool) → (if t then print_into a.printer a.value s else s) q ≡ expected v q
    go true = rw (h a (Memᴰ.head refl)) (print_into-keeps v a.printer q s e)
    go false = e

-- A call among the arguments leaves its text in its buffer, wherever the others stand.
evaluate-fills :
    (v : Printer → Bytes) (l : List Argument) (s : Buffers) (a : Argument)
    → ValuesOf v l
    → Memᴰ a l
    → a.is_set ≡ true
    → evaluate l s a.printer ≡ expected v a.printer
unfolding evaluate
evaluate-fills v [] s a h m t = elim m [ ]
evaluate-fills v (b ∷ r) s a h (Memᴰ.head e) t =
    evaluate-keeps v r _ a.printer (λ c m. h c (Memᴰ.tail m))
      (rw (sym e, t, h a (Memᴰ.head e)) (print_into-own a.printer (v a.printer) s))
evaluate-fills v (b ∷ r) s a h (Memᴰ.tail m) t =
    evaluate-fills v r _ a (λ c n. h c (Memᴰ.tail n)) m t

shown-agrees :
    (s s' : Buffers) (a : Argument)
    → (a.is_set ≡ true → s a.printer ≡ s' a.printer)
    → shown s a ≡ shown s' a
unfolding shown
shown-agrees s s' a h = go a.is_set h
  where
    go :
        (t : Bool)
        → (t ≡ true → s a.printer ≡ s' a.printer)
        → (if t then a.key ++ s a.printer else []) ≡ (if t then a.key ++ s' a.printer else [])
    go true k = ap (λ x. a.key ++ x) (k refl)
    go false k = refl

-- The text depends on the buffers of the arguments whose bit is set alone.
format-agrees :
    (s s' : Buffers) (start : Bytes) (l : List Argument) (ts : List Bytes)
    → ((a : Argument) → Memᴰ a l → a.is_set ≡ true → s a.printer ≡ s' a.printer)
    → format s start l ts ≡ format s' start l ts
unfolding format shown
format-agrees s s' start [] ts h = refl
format-agrees s s' start (a ∷ r) [] h =
    ap (λ t. start ++ t) (shown-agrees s s' a (h a (Memᴰ.head refl)))
format-agrees s s' start (a ∷ r) (t ∷ ts) h =
    rw
      (
        shown-agrees s s' a (h a (Memᴰ.head refl)),
        format-agrees s s' t r ts (λ b m. h b (Memᴰ.tail m)),
      )
      refl

module _ (order : EvalOrder) (perm : (l : List Argument) → Perm l (order l)) where
  -- The text after an evaluation in any order is that of the values.
  pub format-evaluate :
      (v : Printer → Bytes) (s : Buffers) (start : Bytes) (l : List Argument) (ts : List Bytes)
      → ValuesOf v l
      → format (evaluate (order l) s) start l ts ≡ format (expected v) start l ts
  format-evaluate v s start l ts h =
      format-agrees (evaluate (order l) s) (expected v) start l ts (λ a m t.
        ∥∥₁_elim ((Perm.mem_iff (perm l)).0 ∣ m ∣₁) (hlevel)
          (λ n. evaluate-fills v (order l) s a ordered n t))
    where
      ordered : ValuesOf v (order l)
      ordered a m =
          ∥∥₁_elim {P = a.value ≡ v a.printer} ((Perm.mem_iff (perm l)).1 ∣ m ∣₁) (hlevel) (h a)
