-- ===== src/Plugin.antt =====
-- plugins/common/be_plugin.c and .h, with the drivers of plugins/netronome, plugins/intel_qat and
-- plugins/cavium: the table of plugins, indexed by vendor and model.
-- The table is the flat memory of `g_acc_plugins[VENDOR_MAX][MODEL_MAX]`.
pub mod Table
pub mod Drivers
mod Tests
use be_la.Prelude.{
  ℕ, ◌+◌, ◌*◌, Bool, true, false, Bytes, Option, none, some, List, Status, success, failure,
  Outcome, done, crash, assertion, out_of_bounds, ◌>>=◌, ◌==◌, ltb, ◌&&◌, if◌then◌else◌, get_elem?,
  set, replicate, bit_and,
}
use be_la.Vendor.{AccCard, vendor_max, model_max}

-- `acc_plugin_t`. `funcs` stands for its five function pointers, `none` for NULL ones.
pub record AccPlugin (F : Type 0) : Type 0 where
  pub funcs : Option F
  pub name : Bytes
  pub vendor : ℕ
  pub model : ℕ
  pub acc_type : ℕ

abbrev pub plugin_slots : ℕ
plugin_slots = 42

abbrev pub slot_of : ℕ → ℕ → ℕ
slot_of vendor model = vendor * model_max + model

-- A fault that an index outside the array brings.
unfoldable pub checked {ℓ} : {A : Type ℓ} → Option A → Outcome A
checked none = crash out_of_bounds
checked (some a) = done a

unfoldable pub has_funcs {ℓ} : {A : Type ℓ} → Option A → Bool
has_funcs none = false
has_funcs (some f) = true

module _ {F : Type 0} where
  abbrev pub blank_plugin : AccPlugin F
  blank_plugin = record { funcs = none; name = List.[]; vendor = 0; model = 0; acc_type = 0 }

  abbrev pub blank_plugins : List (AccPlugin F)
  blank_plugins = replicate plugin_slots blank_plugin

  unfoldable pub be_plugin_is_registed : List (AccPlugin F) → ℕ → ℕ → Outcome Bool
  unfolding checked has_funcs
  be_plugin_is_registed t vendor model =
      checked (get_elem? t (slot_of vendor model)) >>= λ p. done (has_funcs p.funcs)

  -- `init` is what the plugin's own `init` returns.
  unfoldable pub be_plugin_init : Status → AccPlugin F → Status
  be_plugin_init init p = init

  unfoldable pub be_plugin_destroy : AccPlugin F → Status
  be_plugin_destroy p = failure

  unfoldable pub store_plugin :
      List (AccPlugin F) → AccPlugin F → Status → Outcome (Status × List (AccPlugin F))
  store_plugin t p failure = done (failure, t)
  store_plugin t p success = done (success, set t (slot_of p.vendor p.model) p)

  unfoldable pub be_plugin_register :
      List (AccPlugin F) → AccPlugin F → Status → Outcome (Status × List (AccPlugin F))
  unfolding be_plugin_is_registed be_plugin_init store_plugin has_funcs
  be_plugin_register t p init =
      if has_funcs p.funcs
      then if ltb p.model model_max && ltb 0 p.model
        then if ltb p.vendor vendor_max && ltb 0 p.vendor
          then (be_plugin_is_registed t p.vendor p.model >>= λ old.
              if old then done (failure, t) else store_plugin t p (be_plugin_init init p))
          else crash assertion
        else crash assertion
      else crash assertion

  unfoldable pub drop_plugin :
      List (AccPlugin F) → AccPlugin F → Status → Outcome (Status × List (AccPlugin F))
  unfolding be_plugin_is_registed
  drop_plugin t p failure = done (failure, t)
  drop_plugin t p success = be_plugin_is_registed t p.vendor p.model >>= λ old.
      if old
      then done (success, set t (slot_of p.vendor p.model) blank_plugin)
      else done (success, t)

  unfoldable pub be_plugin_unregister :
      List (AccPlugin F) → AccPlugin F → Outcome (Status × List (AccPlugin F))
  unfolding has_funcs be_plugin_destroy drop_plugin
  be_plugin_unregister t p =
      if has_funcs p.funcs then drop_plugin t p (be_plugin_destroy p) else crash assertion

  -- The pointer is never NULL, so the mask alone decides.
  unfoldable pub be_plugin_match : List (AccPlugin F) → AccCard → Outcome (Option (ℕ × ℕ))
  unfolding checked
  be_plugin_match t card = checked (get_elem? t (slot_of card.vendor card.model)) >>= λ p.
      if bit_and p.acc_type card.acc_type == card.acc_type
      then done (some (card.vendor, card.model))
      else done none
