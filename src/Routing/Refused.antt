-- ===== src/Routing/Refused.antt =====
-- A refused request (src/api/sync.rs) leaves nothing but its nonce, its rate and its audit.
use palla_sync.Db.Action.{◌>>=◌, ◌>>◌, pure, continue, fail_with}
use palla_sync.Routing.Answer.{
  Response, denied, settle, is_delete, perform, ignored, transact, answer, guard,
}
use palla_sync.Batch.Rollback.{attempt-Keeps, resumed, attempt-bind}
use palla_sync.Prelude.{
  [], refl, String, ◌≡◌, List, ◌∷◌, Option, some, Bool, none, if◌then◌else◌, subst, true, sym,
  false, arith, find_row, text_eq,
}
use palla_sync.Crypto.Primitives.{External}
use palla_sync.Db.{Db, World, Chain, DeletionRow}
use palla_sync.Db.Action.{transaction, Action}
use palla_sync.Routing.Audit.{record_all, audit_request, record_loaded}
use palla_sync.Error.{Result, ok, Code, err, ApiError}
use palla_sync.Store.Objects.{load}
use palla_sync.Db.Keeps.{Keeps, keeps_rules, Keeps-bind, Keeps-fail_with}
use palla_sync.Config.{RelayConfig, write_guard}
use palla_sync.Json.{Value}
use palla_sync.Batch.Rollback.{IsAudited, save-IsAudited, transparency-IsAudited}
use palla_sync.Batch.{attempt}
use palla_sync.Routing.Endpoint.{Route}
use palla_sync.Read.{Query}
use palla_sync.Deletion.Erasure.{complete}
use palla_sync.Auth.Rate.{Floats}
use palla_sync.Auth.Token.{AuthRequest}
use palla_sync.Auth.{Auth}
use palla_sync.Auth.Authenticate.{authenticate}

-- What is claimed of an action that fails.
abbrev Refuses : Db → Result Response × World → Type 0
Refuses old (ok r, w) = Unit {0}
Refuses old (err e, w) = IsAudited old w.db

Refuses-Keeps :
    (old : Db) (m : Action Response) (w : World)
    → Keeps (IsAudited old) m
    → IsAudited old w.db
    → Refuses old (m w)
Refuses-Keeps old m w k h = weaken (m w).0 (m w).1 (k.at w h)
  where
    weaken : (r : Result Response) (w' : World) → IsAudited old w'.db → Refuses old (r, w')
    weaken (ok a) w' h' = tt
    weaken (err e) w' h' = h'

Refuses-if :
    (old : Db) (w : World) (b : Bool) (m n : Action Response)
    → Refuses old (m w)
    → Refuses old (n w)
    → Refuses old ((if b then m else n) w)
Refuses-if old w true m n hm hn = hm
Refuses-if old w false m n hm hn = hn

pub transaction-Keeps :
    {A : Type 0} {P : Db → Type 0} (m : Action A) → Keeps P m → Keeps P (transaction m)
unfolding attempt
transaction-Keeps m k = record { at = λ w h. (attempt-Keeps m k).at w h }

module _ ⦃x : External⦄ where
  record_all-IsAudited :
      (old : Db) (cfg : RelayConfig) (code : Code) (os : List Value) (c : Chain)
      → Keeps (IsAudited old) (record_all cfg code os c)
  unfolding record_all
  record_all-IsAudited old cfg code [] c = search keeps_rules
  record_all-IsAudited old cfg code (o ∷ os) c =
      search (keeps_rules, transparency-IsAudited, record_all-IsAudited old cfg code os) depth 16

  record_loaded-IsAudited :
      (old : Db) (cfg : RelayConfig) (code : Code) (os : List Value) (c : Option Chain)
      → Keeps (IsAudited old) (record_loaded cfg code os c)
  record_loaded-IsAudited old cfg code os none = search keeps_rules
  record_loaded-IsAudited old cfg code os (some c) =
      search (keeps_rules, record_all-IsAudited, save-IsAudited)

  audit_request-IsAudited :
      (old : Db) (cfg : RelayConfig) (chain : String) (v : Value) (code : Code)
      → Keeps (IsAudited old) (audit_request cfg chain v code)
  unfolding audit_request load
  audit_request-IsAudited old cfg chain v code =
      search (keeps_rules, transaction-Keeps, record_loaded-IsAudited) depth 24

  denied-IsAudited :
      (old : Db) (route : Route) (q : Query) (v : Value) (d : DeletionRow)
      → Keeps (IsAudited old) (denied route q v d)
  unfolding denied
  denied-IsAudited old route q v d = search keeps_rules depth 16

  -- What follows an operation, from the world that it reached.
  settled :
      (cfg : RelayConfig) (chain : String) (route : Route) (v : Value) (busy : Bool) (w : World)
      (r : Result Response) (w₁ : World)
      → Refuses w.db (resumed (settle cfg chain route v busy) w r w₁)
  unfolding settle
  settled cfg chain route v busy w (ok r) w₁ =
      Refuses-if w.db w₁ (is_delete route) (ignored (complete busy cfg) >> pure r) (pure r) tt tt
  settled cfg chain route v busy w (err e) w₁ =
      Refuses-Keeps w.db (audit_request cfg chain v e.code >> fail_with e) (record w₁ { db = w.db })
        (Keeps-bind _ _ (audit_request-IsAudited w.db cfg chain v e.code) (λ u. Keeps-fail_with e))
        refl

  perform-Refuses :
      (cfg : RelayConfig) (chain : String) (route : Route) (q : Query) (v : Value) (busy : Bool)
      (operation : Action Response) (d : Option DeletionRow) (w : World)
      → Refuses w.db (perform cfg chain route q v busy operation d w)
  perform-Refuses cfg chain route q v busy operation (some d) w =
      Refuses-Keeps w.db (denied route q v d) w (denied-IsAudited w.db route q v d) refl
  perform-Refuses cfg chain route q v busy operation none w =
      subst (Refuses w.db)
        (sym (
          attempt-bind operation (settle cfg chain route v busy) w (operation w).0 (operation w).1
            refl))
        (settled cfg chain route v busy w (operation w).0 (operation w).1)

  Refuses-continue :
      {A : Type 0} (old : Db) (r : Result A) (g : A → Action Response) (w : World)
      → w.db ≡ old
      → ((a : A) (w₁ : World) → w₁.db ≡ old → Refuses old (g a w₁))
      → Refuses old (continue r g w)
  Refuses-continue old (ok a) g w h k = k a w h
  Refuses-continue old (err e) g w h k = ground (arith, h)

  Refuses-bind :
      {A : Type 0} (old : Db) (m : Action A) (g : A → Action Response) (w : World)
      → Keeps (λ db. db ≡ old) m
      → w.db ≡ old
      → ((a : A) (w₁ : World) → w₁.db ≡ old → Refuses old (g a w₁))
      → Refuses old ((m >>= g) w)
  Refuses-bind old m g w keeps h k = Refuses-continue old (m w).0 g (m w).1 (keeps.at w h) k

  guard-Keeps :
      (old : Db) (cfg : RelayConfig) (is_get : Bool) (route : Route)
      → Keeps (λ db. db ≡ old) (guard cfg is_get route)
  unfolding write_guard
  guard-Keeps old cfg is_get route = record { at = λ w h. ground (arith, h) }

  transact-Refuses :
      (old : Db) (cfg : RelayConfig) (chain : String) (route : Route) (q : Query) (v : Value)
      (busy : Bool) (operation : Action Response) (w : World)
      → w.db ≡ old
      → Refuses old (transact cfg chain route q v busy operation w)
  unfolding transact
  transact-Refuses old cfg chain route q v busy operation w h =
      subst
        (λ d. Refuses d (perform cfg chain route q v busy operation (find_row chain w.deletions) w))
        h (perform-Refuses cfg chain route q v busy operation (find_row chain w.deletions) w)

  Refuses-err :
      (old : Db) (s : Result Response × World) (e : ApiError) (w' : World)
      → s ≡ (err e, w')
      → Refuses old s
      → IsAudited old w'.db
  Refuses-err old s e w' h k = subst (Refuses old) h k

  -- Whatever operation a request on a chain selects, and wherever the request is refused, the database
  -- is the one that authentication left, with what it took, but for the transparency log, its heads and
  -- the state of chains, where the refusal is audited.
  pub answer-IsAudited :
      ⦃f : Floats⦄ (cfg : RelayConfig) (r : AuthRequest) (is_get : Bool) (route : Route) (q : Query)
      (parsed : Result Value) (busy : Bool) (operation : Auth → Value → Action Response)
      (w w' : World) (e : ApiError)
      → answer cfg r is_get route q parsed busy operation w ≡ (err e, w')
      → IsAudited (authenticate cfg r w).1.db w'.db
  unfolding answer
  answer-IsAudited cfg r is_get route q parsed busy operation w w' e h =
      let old = (authenticate cfg r w).1.db in
      Refuses-err old (answer cfg r is_get route q parsed busy operation w) e w' h (
        Refuses-continue old (authenticate cfg r w).0 _ (authenticate cfg r w).1 refl λ auth w₁ h₁.
          Refuses-continue old parsed _ w₁ h₁ λ v w₂ h₂.
            Refuses-bind old (guard cfg is_get route) _ w₂ (guard-Keeps old cfg is_get route) h₂
              λ u w₃ h₃.
                transact-Refuses old cfg r.chain_id route q v busy (operation auth v) w₃ h₃)
