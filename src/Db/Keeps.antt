-- ===== src/Db/Keeps.antt =====
-- Invariants of the database under actions (src/api), one rule for each way to build an action. An
-- invariant is kept whether the action returns or fails.
use palla_sync.Prelude.{Bool, true, false, Option, none, some, ◌≡◌, refl, if◌then◌else◌}
use palla_sync.Error.{Code, ApiError, Result, ok, err}
use palla_sync.Db.{Db, World}
use palla_sync.Db.Action.{
  Action, continue, ◌>>=◌, pure, fail, fail_with, lift, gets, require, or_fail, modify, fail_if,
  insert_unless, now, new_id,
}

pub record Keeps {A : Type 0} (P : Db → Type 0) (m : Action A) : Type 0 where
  pub at : (w : World) → P w.db → P (m w).1.db

module _ (P : Db → Type 0) where
  require-keeps :
      {A : Type 0} (o : Option A) (c : Code) (w : World) → P w.db → P (require o c w).1.db
  require-keeps none c w h = h
  require-keeps (some a) c w h = h

  insert_unless-keeps :
      (b : Bool) (f : Db → Db) (w : World)
      → (b ≡ false → P (f w.db))
      → P w.db
      → P (insert_unless b f w).1.db
  insert_unless-keeps true f w k h = h
  insert_unless-keeps false f w k h = k refl

module _ {P : Db → Type 0} {A : Type 0} where
  pub Keeps-pure : (a : A) → Keeps P (pure a)
  Keeps-pure a = record { at = λ w h. h }

  pub Keeps-fail : (c : Code) → Keeps P (fail {A = A} c)
  Keeps-fail c = record { at = λ w h. h }

  pub Keeps-fail_with : (e : ApiError) → Keeps P (fail_with {A = A} e)
  Keeps-fail_with e = record { at = λ w h. h }

  pub Keeps-lift : (r : Result A) → Keeps P (lift r)
  Keeps-lift r = record { at = λ w h. h }

  pub Keeps-gets : (f : Db → A) → Keeps P (gets f)
  Keeps-gets f = record { at = λ w h. h }

  pub Keeps-require : (o : Option A) (c : Code) → Keeps P (require o c)
  Keeps-require o c = record { at = require-keeps P o c }

  pub Keeps-or_fail : (m : Action A) (c : Code) → Keeps P m → Keeps P (or_fail m c)
  Keeps-or_fail m c k = record { at = λ w h. k.at w h }

  pub Keeps-if : (b : Bool) (m n : Action A) → Keeps P m → Keeps P n → Keeps P (if b then m else n)
  Keeps-if true m n taken other = taken
  Keeps-if false m n other taken = taken

  pub Keeps-elim :
      {B : Type 0} (o : Option B) (m : Action A) (f : B → Action A)
      → Keeps P m
      → ((b : B) → Keeps P (f b))
      → Keeps P (elim o [ none ↦ m | some b ↦ f b ])
  Keeps-elim none m f km kf = km
  Keeps-elim (some b) m f km kf = kf b

module _ {P : Db → Type 0} where
  pub Keeps-modify : (f : Db → Db) → ((db : Db) → P db → P (f db)) → Keeps P (modify f)
  Keeps-modify f k = record { at = λ w h. k w.db h }

  pub Keeps-fail_if : (b : Bool) (c : Code) → Keeps P (fail_if b c)
  Keeps-fail_if b c = record { at = λ w h. h }

  -- The write may use that no constraint refuses it.
  pub Keeps-insert :
      (clash : World → Bool) (f : World → Db → Db)
      → ((w : World) → clash w ≡ false → P w.db → P (f w w.db))
      → Keeps P (λ w. insert_unless (clash w) (f w) w)
  Keeps-insert clash f k = record {
    at = λ w h. insert_unless-keeps P (clash w) (f w) w (λ e. k w e h) h;
  }

  pub Keeps-now : Keeps P now
  Keeps-now = record { at = λ w h. h }

  pub Keeps-new_id : Keeps P new_id
  Keeps-new_id = record { at = λ w h. h }

module _ {P : Db → Type 0} {A B : Type 0} where
  continue-keeps :
      (r : Result A) (f : A → Action B) (w : World)
      → ((a : A) → Keeps P (f a))
      → P w.db
      → P (continue r f w).1.db
  continue-keeps (ok a) f w k h = (k a).at w h
  continue-keeps (err e) f w k h = h

  pub Keeps-bind :
      (first : Action A) (rest : A → Action B)
      → Keeps P first
      → ((a : A) → Keeps P (rest a))
      → Keeps P (first >>= rest)
  Keeps-bind first rest kf kr = record {
    at = λ w h. continue-keeps (first w).0 rest (first w).1 kr (kf.at w h);
  }

pub ruleset keeps_rules = (
  Keeps-pure, Keeps-fail, Keeps-fail_with, Keeps-lift, Keeps-gets, Keeps-require, Keeps-or_fail,
  Keeps-if, Keeps-elim, Keeps-fail_if, Keeps-now, Keeps-new_id, Keeps-bind,
)
