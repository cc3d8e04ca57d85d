-- ===== src/Invariant/Appending.antt =====
-- `append`, `transparency`, `save` and `publish_notice` of src/api/store.rs keep an invariant that
-- each write keeps.
use palla_sync.Prelude.{ℕ, Option, none, some, String}
use palla_sync.Json.{Value}
use palla_sync.Crypto.Primitives.{External}
use palla_sync.Db.{Kind, Chain, Db, ReceiptRow, OutcomeRow}
use palla_sync.Db.Keeps.{Keeps, keeps_rules, Keeps-modify}
use palla_sync.Config.{RelayConfig}
use palla_sync.Invariant.{IsStable}
use palla_sync.Store.Append.{
  accept, append, enter, make_receipt, append_new, append_by_digest, append_again, ReceiptLink,
}
use palla_sync.Store.Quota.{save, quota, publish_notice, announce}
use palla_sync.Store.Objects.{put_by_digest, put_object, object_digest}
use palla_sync.Store.Outcomes.{outcomes, known_outcome}
use palla_sync.Store.Transparency.{transparency}

module _ ⦃x : External⦄ {P : Db → Type 0} (stable : IsStable P) where
  put_by_digest-Keeps :
      (found : Option String) (c : String) (kind : Kind) (v : Value) (place : Option (String × ℕ))
      → Keeps P (put_by_digest found c kind v place)
  unfolding put_by_digest
  put_by_digest-Keeps none c kind v place = search (keeps_rules, stable.inserts_object)
  put_by_digest-Keeps (some old) c kind v place = search keeps_rules

  pub put_object-Keeps :
      (c : String) (kind : Kind) (v : Value) (place : Option (String × ℕ))
      → Keeps P (put_object c kind v place)
  unfolding put_object object_digest
  put_object-Keeps c kind v place = search (keeps_rules, put_by_digest-Keeps)

  pub transparency-Keeps :
      (c : Chain) (cfg : RelayConfig) (op digest : String) (seq : Option ℕ) (code : Option String)
      → Keeps P (transparency c cfg op digest seq code)
  unfolding transparency
  transparency-Keeps c cfg op digest seq code = search (keeps_rules, stable.inserts_transparency)

  pub make_receipt-Keeps :
      (c : Chain) (cfg : RelayConfig) (v : Value) (link : ReceiptLink)
      → Keeps P (make_receipt c cfg v link)
  unfolding make_receipt
  make_receipt-Keeps c cfg v link = search keeps_rules

  enter-Keeps :
      (c : Chain) (kind : Kind) (v : Value) (seq : ℕ) (entry : Value)
      → Keeps P (enter c kind v seq entry)
  unfolding enter
  enter-Keeps c kind v seq entry =
      search (keeps_rules, put_object-Keeps, stable.places_object, stable.inserts_log)

  accept-Keeps :
      (c : Chain) (cfg : RelayConfig) (kind : Kind) (v : Value) (seq : ℕ) (entry : Value)
      (previous : String) (received : ℕ)
      → Keeps P (accept c cfg kind v seq entry previous received)
  unfolding accept
  accept-Keeps c cfg kind v seq entry previous received =
      search (keeps_rules, transparency-Keeps, make_receipt-Keeps, stable.stores_receipt)

  append_new-Keeps :
      (c : Chain) (cfg : RelayConfig) (kind : Kind) (v : Value) → Keeps P (append_new c cfg kind v)
  unfolding append_new
  append_new-Keeps c cfg kind v = search (keeps_rules, enter-Keeps, accept-Keeps)

  append_again-Keeps :
      (r : Option ReceiptRow) (c : Chain) (cfg : RelayConfig) (kind : Kind) (v : Value)
      → Keeps P (append_again r c cfg kind v)
  unfolding append_again
  append_again-Keeps none c cfg kind v = append_new-Keeps c cfg kind v
  append_again-Keeps (some r) c cfg kind v = search keeps_rules

  append_by_digest-Keeps :
      (found : Option String) (c : Chain) (cfg : RelayConfig) (kind : Kind) (v : Value)
      → Keeps P (append_by_digest found c cfg kind v)
  unfolding append_by_digest
  append_by_digest-Keeps none c cfg kind v = append_new-Keeps c cfg kind v
  append_by_digest-Keeps (some old) c cfg kind v = search (keeps_rules, append_again-Keeps)

  pub append-Keeps :
      (c : Chain) (cfg : RelayConfig) (kind : Kind) (v : Value) → Keeps P (append c cfg kind v)
  unfolding append object_digest
  append-Keeps c cfg kind v = search (keeps_rules, append_by_digest-Keeps)

  pub quota-Keeps : (c : String) (cfg : RelayConfig) → Keeps P (quota c cfg)
  unfolding quota
  quota-Keeps c cfg = search keeps_rules

  pub save-Keeps : (c : Chain) (cfg : RelayConfig) → Keeps P (save c cfg)
  unfolding save
  save-Keeps c cfg =
      search (keeps_rules, Keeps-modify, stable.sets_chain, stable.publishes, quota-Keeps) depth 16

  pub publish_notice-Keeps : (c : Chain) (cfg : RelayConfig) → Keeps P (publish_notice c cfg)
  unfolding publish_notice announce
  publish_notice-Keeps c cfg =
      search (keeps_rules, Keeps-modify, transparency-Keeps, stable.sets_notice) depth 16

  known_outcome-Keeps :
      (r : Option OutcomeRow) (scope : String) (payload : Value)
      → Keeps P (known_outcome r scope payload)
  unfolding known_outcome
  known_outcome-Keeps none scope payload = search keeps_rules
  known_outcome-Keeps (some r) scope payload = search keeps_rules

  pub outcomes-Keeps :
      (c scope id : String) (payload : Value) → Keeps P (outcomes c scope id payload)
  unfolding outcomes
  outcomes-Keeps c scope id payload = search (keeps_rules, known_outcome-Keeps)
