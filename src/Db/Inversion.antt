-- ===== src/Db/Inversion.antt =====
-- What a successful step of an action (src/api) tells of its parts.
use palla_sync.Prelude.{Bool, true, false, Option, none, some, ◌≡◌, refl, arith}
use palla_sync.Error.{Code, Result, ok, err}
use palla_sync.Db.{Db, World}
use palla_sync.Db.Action.{Action, continue, ◌>>=◌, require, fail_if, insert_unless}

-- A block that succeeds: its first action did, and the rest went on from there.
pub record Bound {A B : Type 0} (m : Action A) (f : A → Action B) (w : World) (b : B) (w' : World)
    : Type 0 where
  pub value : A
  pub world : World
  pub first : m w ≡ (ok value, world)
  pub rest : f value world ≡ (ok b, w')

continue-ok :
    {A B : Type 0} (m : Action A) (f : A → Action B) (w : World) (b : B) (w' : World) (r : Result A)
    (w₁ : World)
    → m w ≡ (r, w₁)
    → continue r f w₁ ≡ (ok b, w')
    → Bound m f w b w'
continue-ok m f w b w' (ok a) w₁ e h = record { value = a; world = w₁; first = e; rest = h }
continue-ok m f w b w' (err c) w₁ e h = cc

pub bind-ok :
    {A B : Type 0} (m : Action A) (f : A → Action B) (w : World) {b : B} {w' : World}
    → (m >>= f) w ≡ (ok b, w')
    → Bound m f w b w'
bind-ok m f w {b} {w'} h = continue-ok m f w b w' (m w).0 (m w).1 refl h

pub require-ok :
    {A : Type 0} (o : Option A) (c : Code) (w : World) {a : A} {w' : World}
    → require o c w ≡ (ok a, w')
    → (o ≡ some a) × (w' ≡ w)
require-ok none c w h = cc
require-ok (some a) c w h = ground arith

pub fail_if-ok :
    (b : Bool) (c : Code) (w : World) {u : Unit {0}} {w' : World}
    → fail_if b c w ≡ (ok u, w')
    → (b ≡ false) × (w' ≡ w)
fail_if-ok true c w h = cc
fail_if-ok false c w h = ground arith

pub insert_unless-ok :
    (b : Bool) (f : Db → Db) (w : World) {u : Unit {0}} {w' : World}
    → insert_unless b f w ≡ (ok u, w')
    → (b ≡ false) × (w' ≡ record w { db = f w.db })
insert_unless-ok true f w h = cc
insert_unless-ok false f w h = ground arith
