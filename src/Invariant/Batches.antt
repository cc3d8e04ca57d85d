-- ===== src/Invariant/Batches.antt =====
-- A batch (src/api/batch.rs) and `maintenance` of src/api/retention.rs keep an invariant that each
-- write keeps.
use palla_sync.Invariant.Requests.{admit_item-Keeps, upload_item-Keeps}
use palla_sync.Json.{Value}
use palla_sync.Batch.Items.{UploadRoute, envelopes_post, repair, records_post, parts_post, Item}
use palla_sync.Prelude.{[], String, Option, some, Bool, ℕ, none, false, true, List, ◌∷◌, ◌+◌}
use palla_sync.Crypto.Primitives.{External}
use palla_sync.Db.{Db, Chain}
use palla_sync.Invariant.{IsStable, Value, String, Keeps, Option, Bool, ℕ, List}
use palla_sync.Config.{RelayConfig}
use palla_sync.Auth.{Auth}
use palla_sync.Db.Keeps.{Keeps, keeps_rules, Keeps-bind}
use palla_sync.Invariant.Appending.{transparency-Keeps, save-Keeps, quota-Keeps}
use palla_sync.Store.Objects.{load}
use palla_sync.Batch.{
  audit_reject, upload_from, upload_all, go_on, run_item, settle_item, record_rejection,
  reject_item, missing_chain, upload_one, Progress,
}
use palla_sync.Db.Action.{Action}
use palla_sync.Error.{Result, Code, ok, err}
use palla_sync.Batch.Rollback.{attempt-Keeps, after_audit-Keeps}
use palla_sync.Batch.Upload.{upload_response, upload, head_chain}
use palla_sync.Retention.Maintenance.{maintain_chains, maintenance, maintain_loaded, maintain_chain}
use palla_sync.Invariant.Removals.{expire-Keeps}
use palla_sync.Routing.Refused.{transaction-Keeps}

module _ ⦃x : External⦄ {P : Db → Type 0} (stable : IsStable P) where
  record_rejection-Keeps :
      (cfg : RelayConfig) (chain : String) (r : Value) (code : Code)
      → Keeps P (audit_reject cfg chain r code)
  unfolding audit_reject record_rejection load
  record_rejection-Keeps cfg chain r code =
      search (keeps_rules, transparency-Keeps stable, save-Keeps stable) depth 16

  run_item-Keeps :
      (c : Chain) (cfg : RelayConfig) (auth : Auth) (chain : String) (route : UploadRoute)
      (param : String) (v : Value) (index : ℕ) (r : Value)
      → Keeps P (run_item c cfg auth chain route param v index r)
  unfolding run_item
  run_item-Keeps c cfg auth chain route param v index r =
      search (keeps_rules, admit_item-Keeps stable, upload_item-Keeps stable, save-Keeps stable)
        depth 16

  settle_item-Keeps :
      (cfg : RelayConfig) (chain : String) (route : UploadRoute) (r : Value) (rs : List Value)
      (p : Progress) (i : Result Item)
      → Keeps P (settle_item cfg chain route r rs p i)
  unfolding settle_item reject_item
  settle_item-Keeps cfg chain route r rs p (ok i) = search keeps_rules
  settle_item-Keeps cfg chain route r rs p (err e) =
      search (keeps_rules, attempt-Keeps, record_rejection-Keeps, after_audit-Keeps) depth 16

  upload_from-Keeps :
      (cfg : RelayConfig) (auth : Auth) (chain : String) (route : UploadRoute) (param : String)
      (v : Value) (index : ℕ) (r : Value) (rs : List Value) (p : Progress) (c : Option Chain)
      → Keeps P (upload_from cfg auth chain route param v index r rs p c)
  unfolding upload_from missing_chain
  upload_from-Keeps cfg auth chain route param v index r rs p none = search keeps_rules depth 16
  upload_from-Keeps cfg auth chain route param v index r rs p (some c) =
      search (keeps_rules, attempt-Keeps, run_item-Keeps, settle_item-Keeps) depth 16

  go_on-Keeps :
      (rest : Action Progress) (step : Bool × Progress) → Keeps P rest → Keeps P (go_on rest step)
  unfolding go_on
  go_on-Keeps rest (true, p) h = h
  go_on-Keeps rest (false, p) h = search keeps_rules

  pub upload_all-Keeps :
      (cfg : RelayConfig) (auth : Auth) (chain : String) (route : UploadRoute) (param : String)
      (v : Value) (index : ℕ) (rs : List Value) (p : Progress)
      → Keeps P (upload_all cfg auth chain route param v index rs p)
  unfolding upload_all upload_one load
  upload_all-Keeps cfg auth chain route param v index [] p = search keeps_rules
  upload_all-Keeps cfg auth chain route param v index (r ∷ rs) p =
      let one : Keeps P (upload_one cfg auth chain route param v index r rs p) =
        search (keeps_rules, upload_from-Keeps) in
      Keeps-bind _ _ one λ step.
        go_on-Keeps _ step (upload_all-Keeps cfg auth chain route param v (index + 1) rs step.1)

  head_chain-Keeps : (chain : String) (c : Option Chain) → Keeps P (head_chain chain c)
  unfolding load
  head_chain-Keeps chain none = search keeps_rules
  head_chain-Keeps chain (some c) = search keeps_rules

  upload_response-Keeps :
      (chain : String) (route : UploadRoute) (rs : List Value) (p : Progress)
      → Keeps P (upload_response chain route rs p)
  unfolding upload_response
  upload_response-Keeps chain parts_post rs p = search keeps_rules
  upload_response-Keeps chain envelopes_post rs p = search keeps_rules
  upload_response-Keeps chain records_post rs p = search (keeps_rules, head_chain-Keeps)
  upload_response-Keeps chain repair rs p = search (keeps_rules, head_chain-Keeps)

  pub upload-Keeps :
      (cfg : RelayConfig) (auth : Auth) (chain : String) (route : UploadRoute) (param : String)
      (v : Value)
      → Keeps P (upload cfg auth chain route param v)
  unfolding upload
  upload-Keeps cfg auth chain route param v =
      search (keeps_rules, quota-Keeps stable, upload_all-Keeps, upload_response-Keeps) depth 16

  maintain_loaded-Keeps :
      (cfg : RelayConfig) (id : String) (c : Option Chain) → Keeps P (maintain_loaded cfg id c)
  maintain_loaded-Keeps cfg id none = search keeps_rules
  maintain_loaded-Keeps cfg id (some c) =
      search (keeps_rules, expire-Keeps stable, quota-Keeps stable)

  maintain_chains-Keeps :
      (cfg : RelayConfig) (ids : List String) → Keeps P (maintain_chains cfg ids)
  unfolding maintain_chains maintain_chain load
  maintain_chains-Keeps cfg [] = search keeps_rules
  maintain_chains-Keeps cfg (id ∷ ids) =
      let one : Keeps P (maintain_chain cfg id) = search (keeps_rules, maintain_loaded-Keeps) in
      Keeps-bind _ _ one (λ u. maintain_chains-Keeps cfg ids)

  pub maintenance-Keeps : (cfg : RelayConfig) → Keeps P (maintenance cfg)
  unfolding maintenance
  maintenance-Keeps cfg = search (keeps_rules, transaction-Keeps, maintain_chains-Keeps) depth 16
