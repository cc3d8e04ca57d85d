-- ===== src/Batch/Accounts.antt =====
-- Every item of a batch (src/api/batch.rs) is accounted for.
use palla_sync.Prelude.{ℕ, List, String}
use palla_sync.Json.{Value}
use palla_sync.Crypto.Primitives.{External}
use palla_sync.Config.{RelayConfig}
use palla_sync.Auth.{Auth}
use palla_sync.Batch.Items.{UploadRoute}
use palla_sync.Batch.{Progress}
use palla_sync.Batch.Settles.{Settles, Grows}

module _ ⦃x : External⦄ (cfg : RelayConfig) (auth : Auth) (chain : String) (route : UploadRoute)
    (param : String) (v : Value) where
  record Settling (k : ℕ) (rs : List Value) (p q : Progress) : Type 0 where
    bs : List Value
    cs : List Value
    js : List Value
    settles : Settles cfg auth chain route param v k rs bs cs js
    grows : Grows bs cs js p q
