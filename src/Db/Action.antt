-- ===== src/Db/Action.antt =====
-- The monad of a request's code (src/api): it reads and changes the world, and may fail.
use palla_sync.Prelude.{ℕ, ◌+◌, Bool, Option, none, some, String, if◌then◌else◌}
use palla_sync.Error.{Code, ApiError, Result, ok, err, failed, storage_unavailable}
use palla_sync.Db.{Db, World}

abbrev pub Action : Type 0 → Type 0
Action A = World → Result A × World

abbrev pub continue : {A B : Type 0} → Result A → (A → Action B) → Action B
continue (ok a) f w = f a w
continue (err e) f w = (err e, w)

infixl 5 ◌>>=◌ ◌>>◌
abbrev pub ◌>>=◌ : {A B : Type 0} → Action A → (A → Action B) → Action B
◌>>=◌ m f w = let (r, w') = m w in continue r f w'

abbrev pub ◌>>◌ : {B : Type 0} → Action (Unit {0}) → Action B → Action B
m >> k = m >>= λ _. k

module _ {A : Type 0} where
  abbrev pub pure : A → Action A
  pure a w = (ok a, w)

  abbrev pub fail : Code → Action A
  fail c w = (err (failed c), w)

  abbrev pub fail_with : ApiError → Action A
  fail_with e w = (err e, w)

  abbrev pub lift : Result A → Action A
  lift r w = (r, w)

  abbrev pub gets : (Db → A) → Action A
  gets f w = (ok (f w.db), w)

  -- `ok_or_else(|| err(code))?`
  abbrev pub require : Option A → Code → Action A
  require none c w = (err (failed c), w)
  require (some a) c w = (ok a, w)

  -- `map_err(|_| err(code))`
  abbrev recode : Result A → Code → Result A
  recode (ok a) c = ok a
  recode (err e) c = err (failed c)

  abbrev pub or_fail : Action A → Code → Action A
  or_fail m c w = let (r, w') = m w in (recode r c, w')

abbrev pub modify : (Db → Db) → Action (Unit {0})
modify f w = (ok tt, record w { db = f w.db })

-- `if bad { return Err(err(code)) }`
abbrev pub fail_if : Bool → Code → Action (Unit {0})
fail_if b c w = (if b then err (failed c) else ok tt, w)

-- A write that a constraint of the schema may refuse: sqlx's error becomes STORAGE_UNAVAILABLE.
abbrev pub insert_unless : Bool → (Db → Db) → Action (Unit {0})
insert_unless clash f w =
    if clash then (err (failed storage_unavailable), w) else (ok tt, record w { db = f w.db })

-- `now()`
abbrev pub now : Action ℕ
now w = (ok (w.time w.reads), record w { reads = w.reads + 1 })

-- `new_id()`
abbrev pub new_id : Action String
new_id w = (ok (w.fresh_id w.drawn), record w { drawn = w.drawn + 1 })

-- A transaction: what an action wrote is rolled back when it fails; the clock has moved on.
unfoldable pub transaction : {A : Type 0} → Action A → Action A
transaction m w =
    let (r, w') = m w in elim r [ ok a ↦ (ok a, w') | err e ↦ (err e, record w' { db = w.db }) ]
