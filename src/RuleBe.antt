-- ===== src/RuleBe.antt =====
-- rule/acc_rule_be.c and .h: the registry of rule backends, a fixed array filled from the front.
pub mod Scan
pub mod Registry
mod Tests
use be_la.Prelude.{
  ℕ, suc, ◌+◌, ◌≤◌, Bool, Bytes, Option, none, some, List, [], ◌∷◌, Status, success, failure, ◌==◌,
  leb, if◌then◌else◌, head_byte, c_str, bytes_eq, take, set, replicate, get_elem?,
}

-- `struct acc_rule_be`. `funcs` stands for its three function pointers, `none` for NULL ones.
pub record AccRuleBe (F : Type 0) : Type 0 where
  pub name : Bytes
  pub funcs : Option F

abbrev pub acc_rule_be_max_size : ℕ
acc_rule_be_max_size = 32

abbrev pub name_size : ℕ
name_size = 32

-- `!strncmp(a, b, sizeof(name))`
abbrev pub name_eq : Bytes → Bytes → Bool
name_eq a b = bytes_eq (c_str (take name_size a)) (c_str (take name_size b))

module _ {F : Type 0} where
  abbrev pub is_used : AccRuleBe F → Bool
  is_used e = if head_byte e.name == 0 then Bool.false else Bool.true

-- Where `_get_rule_be_by_name` ends: at an entry of that name, or at `*loc`.
pub data Search : Type 0 where
  found : ℕ → Search
  stopped : ℕ → Search

abbrev pub next_index : Search → Search
next_index (found i) = found (suc i)
next_index (stopped i) = stopped (suc i)

abbrev pub found_index : Search → Option ℕ
found_index (found i) = some i
found_index (stopped i) = none

module _ {F : Type 0} where
  -- A search ends at the first unused entry.
  unfoldable pub get_rule_be_by_name : Bytes → List (AccRuleBe F) → Search
  get_rule_be_by_name n [] = stopped 0
  get_rule_be_by_name n (e ∷ r) =
      let rest = get_rule_be_by_name n r in
      if is_used e then if name_eq n e.name then found 0 else next_index rest else stopped 0

  unfoldable pub acc_get_rule_be_by_name : List (AccRuleBe F) → Bytes → Option ℕ
  unfolding get_rule_be_by_name
  acc_get_rule_be_by_name t n = found_index (get_rule_be_by_name n t)

  unfoldable pub acc_get_first_rule_be : List (AccRuleBe F) → Option ℕ
  acc_get_first_rule_be [] = none
  acc_get_first_rule_be (e ∷ r) = if is_used e then some 0 else none

  -- `none` is the NULL pointer.
  unfoldable pub acc_rule_be_register :
      List (AccRuleBe F) → Option (AccRuleBe F) → Status × List (AccRuleBe F)
  acc_rule_be_register t none = (failure, t)
  acc_rule_be_register t (some be) =
      if head_byte be.name == 0 then (failure, t) else elim (get_rule_be_by_name be.name t) [
        | found i ↦ (failure, t)
        | stopped loc ↦
            if leb acc_rule_be_max_size loc then (failure, t) else (success, set t loc be)
      ]

  abbrev pub blank_registry : List (AccRuleBe F)
  blank_registry = replicate acc_rule_be_max_size (record { name = []; funcs = none })
