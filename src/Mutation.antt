-- ===== src/Mutation.antt =====
-- The operations that change a chain (src/api/mutation.rs).
pub mod Genesis
pub mod Enroll
pub mod Epochs
pub mod Offers
pub mod Snapshots
use palla_sync.Prelude.{ℕ, Option, none, some}
use palla_sync.Json.{Value}
use palla_sync.Db.{Chain}
use palla_sync.Db.Action.{Action, pure}

-- The HTTP status and the response, with the chain that the operation has changed.
pub record Reply : Type 0 where
  pub status : ℕ
  pub response : Value
  pub chain : Chain

abbrev pub reply : ℕ → Value → Chain → Reply
reply code response c = record { status = code; response = response; chain = c }

-- A repeated operation gets its first response, another is carried out.
unfoldable pub or_new : Option Value → (Value → Action Reply) → Action Reply → Action Reply
or_new none again new = new
or_new (some response) again new = again response

-- The first response, from a chain that stays as it is.
abbrev pub repeated : Chain → Value → Action Reply
repeated c response = pure (reply 200 response c)
