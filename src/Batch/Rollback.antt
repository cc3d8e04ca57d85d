-- ===== src/Batch/Rollback.antt =====
-- What a rejected item of a batch (src/api/batch.rs) leaves behind.
use palla_sync.Prelude.{
  ℕ, Bool, false, List, String, ◌≡◌, refl, arith, length, length-append, upsert, Option, text_eq,
  ltb, ◌∷◌, some, none, subst, find_row, ap, sym, [], ◌∙◌,
}
use palla_sync.Json.{Value}
use palla_sync.Error.{Result, ok, err, ApiError, Code}
use palla_sync.Crypto.Primitives.{External}
use palla_sync.Db.{Chain, World, Db}
use palla_sync.Db.Action.{◌>>=◌, Action, transaction, continue}
use palla_sync.Db.Keeps.{Keeps, Keeps-modify, keeps_rules}
use palla_sync.Config.{RelayConfig}
use palla_sync.Auth.{Auth}
use palla_sync.Store.Objects.{load}
use palla_sync.Store.Transparency.{transparency, insert_transparency}
use palla_sync.Store.Quota.{save, quota, publish_head}
use palla_sync.Batch.Items.{UploadRoute, Item}
use palla_sync.Batch.{
  Progress, upload_one, upload_from, settle_item, reject_item, after_audit, missing_chain, attempt,
  run_item, audit_reject, record_rejection, Option, ltb, some, or_first, [],
}

-- Nothing but the transparency log, its heads and the state of chains has changed.
abbrev pub IsAudited : Db → Db → Type 0
IsAudited old db =
    db ≡ record old { chains = db.chains; transparency = db.transparency; heads = db.heads }

module _ ⦃x : External⦄ (old : Db) where
  insert_transparency-IsAudited :
      (c : Chain) (entry : Value) (hash : String)
      → Keeps (IsAudited old) (insert_transparency c entry hash)
  unfolding insert_transparency
  insert_transparency-IsAudited c entry hash = record { at = λ w h. ground arith }

  publish_head-IsAudited :
      (c : Chain) (v : Value) (db : Db) → IsAudited old db → IsAudited old (publish_head c v db)
  unfolding publish_head
  publish_head-IsAudited c v db h = ground arith

  pub transparency-IsAudited :
      (c : Chain) (cfg : RelayConfig) (op digest : String) (seq : Option ℕ) (code : Option String)
      → Keeps (IsAudited old) (transparency c cfg op digest seq code)
  unfolding transparency
  transparency-IsAudited c cfg op digest seq code =
      search (keeps_rules, insert_transparency-IsAudited) depth 16

  sets_chain-IsAudited :
      (c : Chain) (db : Db)
      → IsAudited old db
      → IsAudited old (record db { chains = upsert c.chain_id c db.chains })
  sets_chain-IsAudited c db h = ground arith

  pub save-IsAudited : (c : Chain) (cfg : RelayConfig) → Keeps (IsAudited old) (save c cfg)
  unfolding save quota
  save-IsAudited c cfg =
      search (keeps_rules, Keeps-modify, publish_head-IsAudited, sets_chain-IsAudited) depth 16

  audit_reject-IsAudited :
      (cfg : RelayConfig) (chain : String) (r : Value) (code : Code)
      → Keeps (IsAudited old) (audit_reject cfg chain r code)
  unfolding audit_reject record_rejection load
  audit_reject-IsAudited cfg chain r code =
      search (keeps_rules, transparency-IsAudited, save-IsAudited) depth 16

-- The world after an attempt.
abbrev attempted : {A : Type 0} → World → Result A → World → Result (Result A) × World
attempted w (ok a) w' = (ok (ok a), w')
attempted w (err e) w' = (ok (err e), record w' { db = w.db })

attempt_lem :
    {A : Type 0} (m : Action A) (w : World) (r : Result A) (w' : World)
    → m w ≡ (r, w')
    → attempt m w ≡ attempted w r w'
unfolding attempt transaction
attempt_lem m w (ok a) w' h = ground (arith, h)
attempt_lem m w (err e) w' h = ground (arith, h)

-- An attempt returns what the action returned.
pub attempt-result : {A : Type 0} (m : Action A) (w : World) → (attempt m w).0 ≡ ok (m w).0
attempt-result {A} m w = shown (m w).0 (m w).1 refl
  where
    shown : (r : Result A) (w' : World) → m w ≡ (r, w') → (attempt m w).0 ≡ ok (m w).0
    shown (ok a) w' h = ap (λ s. s.0) (attempt_lem m w (ok a) w' h) ∙ ap (λ s. ok s.0) (sym h)
    shown (err e) w' h = ap (λ s. s.0) (attempt_lem m w (err e) w' h) ∙ ap (λ s. ok s.0) (sym h)

abbrev pub resumed :
    {A B : Type 0} → (Result A → Action B) → World → Result A → World → Result B × World
resumed f w (ok a) w' = f (ok a) w'
resumed f w (err e) w' = f (err e) (record w' { db = w.db })

resumed_lem :
    {A B : Type 0} (f : Result A → Action B) (w : World) (r : Result A) (w' : World)
    → continue (attempted w r w').0 f (attempted w r w').1 ≡ resumed f w r w'
resumed_lem f w (ok a) w' = refl
resumed_lem f w (err e) w' = refl

pub attempt-bind :
    {A B : Type 0} (m : Action A) (f : Result A → Action B) (w : World) (r : Result A) (w' : World)
    → m w ≡ (r, w')
    → (attempt m >>= f) w ≡ resumed f w r w'
attempt-bind m f w r w' h =
    ap (λ p. continue p.0 f p.1) (attempt_lem m w r w' h) ∙ resumed_lem f w r w'

pub attempt-Keeps : {A : Type 0} {P : Db → Type 0} (m : Action A) → Keeps P m → Keeps P (attempt m)
attempt-Keeps {A} {P} m k = record { at = λ w h. kept w (m w).0 (m w).1 refl h }
  where
    kept : (w : World) (r : Result A) (w' : World) → m w ≡ (r, w') → P w.db → P (attempt m w).1.db
    kept w (ok a) w' e h =
        subst P (ap (λ s. s.1.db) (sym (attempt_lem m w (ok a) w' e)))
          (subst P (ap (λ s. s.1.db) e) (k.at w h))
    kept w (err f) w' e h = subst P (ap (λ s. s.1.db) (sym (attempt_lem m w (err f) w' e))) h

-- Whether a round has accepted its item.
abbrev pub has_accepted : Progress → Result (Bool × Progress) → Bool
has_accepted p (ok (go, q)) = ltb (length p.accepted) (length q.accepted)
has_accepted p (err e) = false

abbrev Unless : Progress → Db → Result (Bool × Progress) × World → Type 0
Unless p old s = has_accepted p s.0 ≡ false → IsAudited old s.1.db

module _ ⦃x : External⦄ (cfg : RelayConfig) (auth : Auth) (chain : String)
    (route : UploadRoute) where
  pub after_audit-Keeps :
      {P : Db → Type 0} (r : Value) (rs : List Value) (e : ApiError) (p : Progress)
      (c : Result Chain)
      → Keeps P (after_audit route r rs e p c)
  unfolding after_audit
  after_audit-Keeps r rs e p (ok c) = search keeps_rules
  after_audit-Keeps r rs e p (err f) = search keeps_rules

  reject_item-IsAudited :
      (old : Db) (r : Value) (rs : List Value) (e : ApiError) (p : Progress)
      → Keeps (IsAudited old) (reject_item cfg chain route r rs e p)
  unfolding reject_item
  reject_item-IsAudited old r rs e p =
      search (keeps_rules, attempt-Keeps, audit_reject-IsAudited, after_audit-Keeps) depth 16

  missing_chain-IsAudited :
      (old : Db) (rs : List Value) (p : Progress) → Keeps (IsAudited old) (missing_chain route rs p)
  unfolding missing_chain
  missing_chain-IsAudited old rs p = search keeps_rules

  module _ (param : String) (v : Value) (index : ℕ) (r : Value) (rs : List Value) where
    settled :
        (p : Progress) (w : World) (q : Progress) (i : Result Item) (w₁ : World)
        → length q.accepted ≡ length p.accepted
        → Unless p w.db (resumed (settle_item cfg chain route r rs q) w i w₁)
    unfolding settle_item
    settled p w q (ok i) w₁ e n = ground (arith, length-append q.accepted (i.accepted ∷ []))
    settled p w q (err f) w₁ e n =
        (reject_item-IsAudited w.db r rs f q).at (record w₁ { db = w.db }) refl

    upload_from-IsAudited :
        (p : Progress) (found : Option Chain) (w : World)
        → has_accepted p (upload_from cfg auth chain route param v index r rs p found w).0 ≡ false
        → IsAudited w.db (upload_from cfg auth chain route param v index r rs p found w).1.db
    unfolding upload_from
    upload_from-IsAudited p none w h = (missing_chain-IsAudited w.db (r ∷ rs) p).at w refl
    upload_from-IsAudited p (some c) w h =
        let m = run_item c cfg auth chain route param v index r in
        let q : Progress = record p { final_chain = or_first p.final_chain c } in
        subst (Unless p w.db)
          (sym (attempt-bind m (settle_item cfg chain route r rs q) w (m w).0 (m w).1 refl))
          (settled p w q (m w).0 (m w).1 refl) h

    -- A round that does not accept its item, whether the loop goes on, ends or fails, has changed nothing
    -- but the transparency log, its heads and the state of chains.
    pub upload_one-IsAudited :
        (p : Progress) (w : World)
        → has_accepted p (upload_one cfg auth chain route param v index r rs p w).0 ≡ false
        → IsAudited w.db (upload_one cfg auth chain route param v index r rs p w).1.db
    unfolding upload_one load
    upload_one-IsAudited p w h = upload_from-IsAudited p (find_row chain w.chains) w h
