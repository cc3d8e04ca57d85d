-- ===== src/Db/Stays.antt =====
-- Invariants of the whole world, the clock included, under actions (src/api): one rule for each way
-- to build an action that reads only.
use palla_sync.Prelude.{Bool, true, false, Option, none, some, if◌then◌else◌}
use palla_sync.Error.{Code, Result, ok, err}
use palla_sync.Db.{Db, World}
use palla_sync.Db.Action.{Action, continue, ◌>>=◌, pure, lift, gets, require, fail_if}

pub record Stays {A : Type 0} (P : World → Type 0) (m : Action A) : Type 0 where
  pub after : (w : World) → P w → P (m w).1

require-stays :
    (P : World → Type 0) {A : Type 0} (o : Option A) (c : Code) (w : World)
    → P w
    → P (require o c w).1
require-stays P none c w h = h
require-stays P (some a) c w h = h

module _ {P : World → Type 0} {A : Type 0} where
  pub Stays-pure : (a : A) → Stays P (pure a)
  Stays-pure a = record { after = λ w h. h }

  pub Stays-lift : (r : Result A) → Stays P (lift r)
  Stays-lift r = record { after = λ w h. h }

  pub Stays-gets : (f : Db → A) → Stays P (gets f)
  Stays-gets f = record { after = λ w h. h }

  pub Stays-require : (o : Option A) (c : Code) → Stays P (require o c)
  Stays-require o c = record { after = require-stays P o c }

  pub Stays-if : (b : Bool) (m n : Action A) → Stays P m → Stays P n → Stays P (if b then m else n)
  Stays-if true m n km kn = km
  Stays-if false m n km kn = kn

pub Stays-fail_if : {P : World → Type 0} (b : Bool) (c : Code) → Stays P (fail_if b c)
Stays-fail_if b c = record { after = λ w h. h }

module _ {P : World → Type 0} {A B : Type 0} where
  continue-stays :
      (r : Result A) (f : A → Action B) (w : World)
      → ((a : A) → Stays P (f a))
      → P w
      → P (continue r f w).1
  continue-stays (ok a) f w k h = (k a).after w h
  continue-stays (err e) f w k h = h

  pub Stays-bind :
      (m : Action A) (f : A → Action B) → Stays P m → ((a : A) → Stays P (f a)) → Stays P (m >>= f)
  Stays-bind m f km kf = record {
    after = λ w h. continue-stays (m w).0 f (m w).1 kf (km.after w h);
  }

pub ruleset stays_rules =
    (Stays-pure, Stays-lift, Stays-gets, Stays-require, Stays-if, Stays-fail_if, Stays-bind)
