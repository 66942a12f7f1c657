-- ===== src/Plugin/Table.antt =====
-- What the table of plugins/common/be_plugin.c holds after a registration.
use be_la.Prelude.{
  ℕ, ◌<◌, ◌≡◌, refl, sym, ◌∙◌, ap, Bool, true, false, some, List, Status, success, failure, done,
  ◌>>=◌, ◌==◌, ◌&&◌, if◌then◌else◌, get_elem?, set, length, arith, ltb-true, ◌⊎◌, inl, inr,
  get_elem?-set_self, get_elem?-set_ne, length-set, [], ◌∷◌, zero, suc,
}
use be_la.Vendor.{vendor_max, model_max}
use be_la.Plugin.{
  AccPlugin, plugin_slots, slot_of, checked, has_funcs, be_plugin_is_registed, be_plugin_init,
  store_plugin, be_plugin_register,
}

-- Different vendors and models have different entries.
pub slot_of_iff :
    (v m v' m' : ℕ)
    → m < model_max
    → m' < model_max
    → (slot_of v m == slot_of v' m') ≡ ((v == v') && (m == m'))
slot_of_iff v m v' m' h h' = ground arith

module _ {F : Type 0} where
  entry_in_range :
      (t : List (AccPlugin F)) (i : ℕ) → i < length t → (a : AccPlugin F) × (get_elem? t i ≡ some a)
  entry_in_range [] i h = absurd (omega arith)
  entry_in_range (x ∷ xs) zero h = (x, refl)
  entry_in_range (x ∷ xs) (suc i) h = entry_in_range xs i (omega arith)

  abbrev Whole : List (AccPlugin F) → Type 0
  Whole t = length t ≡ plugin_slots

  -- The entry behind a write.
  pub entry-set :
      (t : List (AccPlugin F)) (i q : ℕ) (p : AccPlugin F)
      → i < length t
      → get_elem? (set t i p) q ≡ (if i == q then some p else get_elem? t q)
  entry-set t i q p h = go (i == q) refl
    where
      go :
          (b : Bool)
          → (i == q) ≡ b
          → get_elem? (set t i p) q ≡ (if b then some p else get_elem? t q)
      go true e = let k : i ≡ q = ground arith in rw (sym k) (get_elem?-set_self t i p h)
      go false e = get_elem?-set_ne t i q p (ground arith)

  -- What a registration can come to. It is refused when the entry is in use or the plugin's own
  -- `init` fails; or the entry was free, and the plugin stands there.
  abbrev pub RegisterResult : List (AccPlugin F) → AccPlugin F → Status → ℕ → ℕ → Type 0
  RegisterResult t p init v m =
      ((be_plugin_register t p init ≡ done (failure, t))
        × ((be_plugin_is_registed t p.vendor p.model ≡ done true) ⊎ (init ≡ failure)))
      ⊎ ((t' : List (AccPlugin F)) × (be_plugin_register t p init ≡ done (success, t'))
          × (be_plugin_is_registed t p.vendor p.model ≡ done false)
          × (length t' ≡ plugin_slots)
          × ((q : ℕ)
              → get_elem? t' q ≡ (if slot_of p.vendor p.model == q then some p else get_elem? t q))
          × (be_plugin_is_registed t' v m ≡ (
              if (p.vendor == v) && (p.model == m)
              then done true
              else be_plugin_is_registed t v m)))

  stored :
      (t : List (AccPlugin F)) (p : AccPlugin F) (v m : ℕ)
      → Whole t
      → has_funcs p.funcs ≡ true
      → p.model < model_max
      → p.vendor < vendor_max
      → m < model_max
      → be_plugin_is_registed (set t (slot_of p.vendor p.model) p) v m
        ≡ (if (p.vendor == v) && (p.model == m) then done true else be_plugin_is_registed t v m)
  unfolding be_plugin_is_registed checked has_funcs
  stored t p v m w f small_model small_vendor in_range =
      go ((p.vendor == v) && (p.model == m)) (slot_of_iff p.vendor p.model v m small_model in_range)
    where
      go :
          (b : Bool)
          → (slot_of p.vendor p.model == slot_of v m) ≡ b
          → be_plugin_is_registed (set t (slot_of p.vendor p.model) p) v m
            ≡ (if b then done true else be_plugin_is_registed t v m)
      go true e =
          rw (entry-set t (slot_of p.vendor p.model) (slot_of v m) p (omega arith), e) (ap done f)
      go false e = rw (entry-set t (slot_of p.vendor p.model) (slot_of v m) p (omega arith), e) refl

  register_checked :
      (t : List (AccPlugin F)) (p : AccPlugin F) (init : Status) (f : F)
      → p.funcs ≡ some f
      → 0 < p.model
      → p.model < model_max
      → 0 < p.vendor
      → p.vendor < vendor_max
      → be_plugin_register t p init ≡ (
          be_plugin_is_registed t p.vendor p.model >>= λ old.
          if old then done (failure, t) else store_plugin t p init)
  unfolding be_plugin_register has_funcs be_plugin_init
  register_checked t p init f q a b c d =
      rw
        (
          q,
          be_plugin_register,
          ltb-true p.model model_max b,
          ltb-true 0 p.model a,
          ltb-true p.vendor vendor_max d,
          ltb-true 0 p.vendor c,
        )
        refl

  -- In a table of 42 entries a plugin with functions, and a vendor and a model in range, is
  -- either refused, with the table as it was, because its entry is in use or its `init` fails;
  -- or it is stored, whole, in its entry, which is in use from then on, and every other entry
  -- is as it was.
  pub register_plugin_lem :
      (t : List (AccPlugin F)) (p : AccPlugin F) (init : Status) (f : F) (v m : ℕ)
      → length t ≡ plugin_slots
      → p.funcs ≡ some f
      → 0 < p.model
      → p.model < model_max
      → 0 < p.vendor
      → p.vendor < vendor_max
      → m < model_max
      → RegisterResult t p init v m
  unfolding be_plugin_is_registed checked has_funcs store_plugin
  register_plugin_lem t p init f v m w q a b c d e =
      let (x, found) = entry_in_range t (slot_of p.vendor p.model) (omega arith) in
      go (has_funcs x.funcs) init (rw found refl) (register_checked t p init f q a b c d)
    where
      go :
          (old : Bool) (i : Status)
          → be_plugin_is_registed t p.vendor p.model ≡ done old
          → be_plugin_register t p i ≡ (
              be_plugin_is_registed t p.vendor p.model >>= λ old.
              if old then done (failure, t) else store_plugin t p i)
          → RegisterResult t p i v m
      go true i k r = inl (r ∙ rw k refl, inl k)
      go false failure k r = inl (r ∙ rw k refl, inr refl)
      go false success k r = inr (
        set t (slot_of p.vendor p.model) p,
        r ∙ rw k refl,
        k,
        length-set t (slot_of p.vendor p.model) p ∙ w,
        λ s. entry-set t (slot_of p.vendor p.model) s p (omega arith),
        stored t p v m w (ap has_funcs q) b d e,
      )
