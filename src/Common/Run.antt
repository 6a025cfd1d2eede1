-- ===== src/Common/Run.antt =====
-- The outcome of running C code. `fault` is undefined behaviour: an access outside an object, or
-- through a null, dangling or wrongly typed pointer. `stuck` is no outcome of the program: a loop
-- of the model ran out of fuel. `blocked` waits for a mutex
-- that its own thread holds.
use mathlib.Core.Path.{◌≡◌, refl, subst}
use mathlib.Core.Logic.{◌≢◌}
use mathlib.Core.Bool.{Bool, true, false}
use mathlib.Core.Option.{Option, none, some}

pub data Run {ℓ} (A : Type ℓ) : Type ℓ where
  ok : A → Run A
  fault : Run A
  stuck : Run A
  blocked : Run A

infixl 5 ◌>>=◌
abbrev pub ◌>>=◌ {ℓ κ} : {A : Type ℓ} {B : Type κ} → Run A → (A → Run B) → Run B
ok a >>= f = f a
fault >>= f = fault
stuck >>= f = stuck
blocked >>= f = blocked

-- A condition without which the access is undefined.
abbrev pub guard : Bool → Run (Unit {0})
guard true = ok tt
guard false = fault

abbrev pub from_option {ℓ} : {A : Type ℓ} → Option A → Run A
from_option none = fault
from_option (some a) = ok a

-- Total correctness: the run ends with no fault, enough fuel, and a result that satisfies `P`.
pub data Returns {ℓ κ} {A : Type ℓ} (P : A → Type κ) : Run A → Type (ℓ ⊔ κ) where
  returns : {a : A} → P a → Returns P (ok a)

module _ {ℓ κ} {A : Type ℓ} {P : A → Type κ} where
  pub bind {ι μ} :
      {B : Type ι} {Q : B → Type μ} {r : Run A} {k : A → Run B}
      → Returns P r
      → ((a : A) → P a → Returns Q (k a))
      → Returns Q (r >>= k)
  bind (returns p) next = next _ p

  pub mono {μ} : {Q : A → Type μ} {r : Run A} → Returns P r → ((a : A) → P a → Q a) → Returns Q r
  mono (returns p) weaken = returns (weaken _ p)

  pub result : {r : Run A} → Returns P r → (a : A) × (r ≡ ok a) × P a
  result (returns p) = (_, refl, p)

pub fault-bind {ℓ κ} :
    {A : Type ℓ} {B : Type κ} {r : Run A} (k : A → Run B) → r ≡ fault → (r >>= k) ≡ fault
fault-bind k e = rw e

pub Returns-fault {ℓ κ ι} :
    {A : Type ℓ} {P : A → Type κ} {B : Type ι} {r : Run A} (k : A → Run B)
    → Returns P r
    → ((a : A) → P a → k a ≡ fault)
    → (r >>= k) ≡ fault
Returns-fault k (returns p) next = next _ p

-- Partial correctness with termination: the run may fault, but it has enough fuel, and a result
-- satisfies `P`.
pub data Ends {ℓ κ} {A : Type ℓ} (P : A → Type κ) : Run A → Type (ℓ ⊔ κ) where
  faults : Ends P fault
  ends : {a : A} → P a → Ends P (ok a)

module _ {ℓ κ} {A : Type ℓ} {P : A → Type κ} where
  pub Ends-bind {ι μ} :
      {B : Type ι} {Q : B → Type μ} {r : Run A} {k : A → Run B}
      → Ends P r
      → ((a : A) → P a → Ends Q (k a))
      → Ends Q (r >>= k)
  Ends-bind faults next = faults
  Ends-bind (ends p) next = next _ p

  pub Ends-mono {μ} : {Q : A → Type μ} {r : Run A} → Ends P r → ((a : A) → P a → Q a) → Ends Q r
  Ends-mono faults weaken = faults
  Ends-mono (ends p) weaken = ends (weaken _ p)

  -- What follows faults on every result.
  pub Ends-fault {ι} :
      {B : Type ι} {r : Run A} (k : A → Run B)
      → Ends P r
      → ((a : A) → P a → k a ≡ fault)
      → (r >>= k) ≡ fault
  Ends-fault k faults next = refl
  Ends-fault k (ends p) next = next _ p

  pub ne-stuck_of_Ends : {r : Run A} → Ends P r → r ≢ stuck
  ne-stuck_of_Ends faults e = cc
  ne-stuck_of_Ends (ends p) e = cc

  pub Ends-ok : {r : Run A} {a : A} → Ends P r → r ≡ ok a → P a
  Ends-ok faults e = cc
  Ends-ok {a} (ends {a = b} p) e = let q : b ≡ a = cc in subst P q p

pub guard-Ends : (test : Bool) → Ends (λ _. test ≡ true) (guard test)
guard-Ends true = ends refl
guard-Ends false = faults

-- What is said of every result holds of a known one.
pub Returns-ok {ℓ κ} :
    {A : Type ℓ} {P : A → Type κ} {r : Run A} {a : A} → r ≡ ok a → Returns P r → P a
Returns-ok {P = P} {a = a} e (returns {a = b} p) = let q : b ≡ a = cc in subst P q p
