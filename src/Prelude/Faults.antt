-- ===== src/Prelude/Faults.antt =====
-- What a call can come to: a value beside the state it leaves, or the end of the process.
use mathlib.Core.Path.{◌≡◌, refl}

-- The return codes 0 and -1 of the source's functions.
pub data Status : Type 0 where
  success failure : Status

-- Why the process dies: a failed `assert`, a call through a null function pointer, a null
-- dereference, an access outside an array, or the use of an object that was freed.
pub data Fault : Type 0 where
  assertion null_call null_access out_of_bounds use_after_free : Fault

pub data Outcome {ℓ} (A : Type ℓ) : Type ℓ where
  done : A → Outcome A
  crash : Fault → Outcome A

infixl 5 ◌>>=◌ ◌>>◌
abbrev pub ◌>>=◌ {ℓ κ} : {A : Type ℓ} {B : Type κ} → Outcome A → (A → Outcome B) → Outcome B
done a >>= f = f a
crash e >>= f = crash e

abbrev pub ◌>>◌ {ℓ} : {B : Type ℓ} → Outcome (Unit {0}) → Outcome B → Outcome B
m >> k = m >>= λ _. k

-- A chain of calls that returns, taken apart.
pub >>=-eq-done {ℓ κ} :
    {A : Type ℓ} {B : Type κ} (m : Outcome A) (f : A → Outcome B) {b : B}
    → (m >>= f) ≡ done b
    → (a : A) × (m ≡ done a) × (f a ≡ done b)
>>=-eq-done (done a) f h = (a, refl, h)
>>=-eq-done (crash e) f h = cc
