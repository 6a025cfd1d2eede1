-- ===== src/Common/Holds.antt =====
-- What is true of every result of a run, whether or not there is one.
use mathlib.Core.Path.{◌≡◌, refl, subst}
use mathlib.Core.Bool.{Bool, true, false}
use mathlib.Core.Option.{Option, none, some}
use s6_projet_reseau.Common.Run
use s6_projet_reseau.Common.Tests.{if◌then◌else◌}
use s6_projet_reseau.Common.Run.{Run, ok, fault, stuck, blocked, ◌>>=◌}

-- Of every result, if there is one.
pub data Holds {A : Type 0} (P : A → Type 0) : Run A → Type 0 where
  holds : {a : A} → P a → Holds P (ok a)
  holds_fault : Holds P fault
  holds_stuck : Holds P stuck
  holds_blocked : Holds P blocked

module _ {A : Type 0} {P : A → Type 0} where
  pub Holds-bind :
      {B : Type 0} {Q : B → Type 0} {r : Run A} {k : A → Run B}
      → Holds P r
      → ((a : A) → P a → Holds Q (k a))
      → Holds Q (r >>= k)
  Holds-bind (holds p) next = next _ p
  Holds-bind holds_fault next = holds_fault
  Holds-bind holds_stuck next = holds_stuck
  Holds-bind holds_blocked next = holds_blocked

  pub Holds-ok : {r : Run A} {a : A} → Holds P r → r ≡ ok a → P a
  Holds-ok {a = a} (holds {a = b} p) e = let q : b ≡ a = cc in subst P q p
  Holds-ok holds_fault e = cc
  Holds-ok holds_stuck e = cc
  Holds-ok holds_blocked e = cc

  pub Holds-if :
      (test : Bool) (r s : Run A)
      → (test ≡ true → Holds P r)
      → (test ≡ false → Holds P s)
      → Holds P (if test then r else s)
  Holds-if true r s p q = p refl
  Holds-if false r s p q = q refl

pub any : {A : Type 0} (r : Run A) → Holds (λ _. Unit {0}) r
any (ok a) = holds tt
any fault = holds_fault
any stuck = holds_stuck
any blocked = holds_blocked

pub Holds-either :
    {S A : Type 0} {P : A → Type 0} (test : Bool) (m k : S → Run A) (s : S)
    → Holds P (m s)
    → Holds P (k s)
    → Holds P ((if test then m else k) s)
Holds-either true m k s p q = p
Holds-either false m k s p q = q

pub Holds-option :
    {S A B : Type 0} {P : B → Type 0} (o : Option A) (m : S → Run B) (k : A → S → Run B) (s : S)
    → (o ≡ none → Holds P (m s))
    → ((a : A) → o ≡ some a → Holds P (k a s))
    → Holds P ((elim o as (λ _. S → Run B) [ none ↦ m | some a ↦ k a ]) s)
Holds-option none m k s p q = p refl
Holds-option (some a) m k s p q = q a refl

pub from_option-Holds : {A : Type 0} (o : Option A) → Holds (λ a. o ≡ some a) (Run.from_option o)
from_option-Holds none = holds_fault
from_option-Holds (some a) = holds refl

pub Holds-test :
    {A : Type 0} {P : A → Type 0} (test : Bool) (r s : Run A)
    → Holds P r
    → Holds P s
    → Holds P (if test then r else s)
Holds-test test r s p q = Holds-if test r s (λ _. p) (λ _. q)
