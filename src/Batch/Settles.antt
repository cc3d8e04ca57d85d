-- ===== src/Batch/Settles.antt =====
-- What a batch (`upload` of src/api/batch.rs) gathers, item by item.
use palla_sync.Prelude.{ℕ, ◌+◌, List, [], ◌∷◌, ◌++◌, String, ◌≡◌, refl, map, none, ap, sym, ◌∙◌}
use mathlib.Core.List.{append-nil, append_assoc}
use palla_sync.Json.{Value}
use palla_sync.Error.{Result, ok, err, ApiError, Code, failed, chain_not_found}
use palla_sync.Crypto.Primitives.{External}
use palla_sync.Db.{World, Chain}
use palla_sync.Config.{RelayConfig}
use palla_sync.Auth.{Auth}
use palla_sync.Store.Objects.{load}
use palla_sync.Domain.{rejection}
use palla_sync.Batch.Items.{UploadRoute, Item, id_key}
use palla_sync.Batch.{Progress, run_item, accept_item, reject_rest, audit_reject}

-- What a batch gathers, item by item.
module _ ⦃x : External⦄ (cfg : RelayConfig) (auth : Auth) (chain : String) (route : UploadRoute)
    (param : String) (v : Value) where
  -- The item `r` at the place `k` comes out so in some state of the store.
  pub record Outcome (k : ℕ) (r : Value) (o : Result Item) : Type 0 where
    pub state : World
    pub current : Chain
    pub result : (run_item current cfg auth chain route param v k r state).0 ≡ o

  -- Why a batch ends early: the chain is not there, or a rejection cannot be audited.
  pub data Stops : ApiError → Type 0 where
    gone : (w : World) → (load chain w).0 ≡ ok none → Stops (failed chain_not_found)
    unaudited :
        {e : ApiError} (r : Value) (code : Code) (w : World)
        → (audit_reject cfg chain r code w).0 ≡ err e
        → Stops e

  -- The items from the place `k` on, and what is accepted, the receipts and what is rejected for them.
  pub data Settles : ℕ → List Value → List Value → List Value → List Value → Type 0 where
    settled : {k : ℕ} → Settles k [] [] [] []
    accepts :
        {k : ℕ} {r : Value} {rs bs cs js : List Value} (i : Item)
        → Outcome k r (ok i)
        → Settles (k + 1) rs bs cs js
        → Settles k (r ∷ rs) (i.accepted ∷ bs) (i.receipt ∷ cs) js
    refuses :
        {k : ℕ} {r : Value} {rs bs cs js : List Value} (e : ApiError)
        → Outcome k r (err e)
        → Settles (k + 1) rs bs cs js
        → Settles k (r ∷ rs) bs cs (rejection r (id_key route) e ∷ js)
    stops :
        {k : ℕ} {rs : List Value} (e : ApiError)
        → Stops e
        → Settles k rs [] [] (map (λ r. rejection r (id_key route) e) rs)

-- From `p` to `q` the three lists have grown by these.
pub record Grows (bs cs js : List Value) (p q : Progress) : Type 0 where
  pub accepted : q.accepted ≡ p.accepted ++ bs
  pub receipts : q.receipts ≡ p.receipts ++ cs
  pub rejected : q.rejected ≡ p.rejected ++ js

pub Grows-Grows :
    {bs cs js bs' cs' js' : List Value} {p q s : Progress}
    → Grows bs cs js p q
    → Grows bs' cs' js' q s
    → Grows (bs ++ bs') (cs ++ cs') (js ++ js') p s
Grows-Grows {bs} {cs} {js} {bs'} {cs'} {js'} {p} g h = record {
  accepted = h.accepted ∙ ap (λ l. l ++ bs') g.accepted ∙ append_assoc p.accepted bs bs';
  receipts = h.receipts ∙ ap (λ l. l ++ cs') g.receipts ∙ append_assoc p.receipts cs cs';
  rejected = h.rejected ∙ ap (λ l. l ++ js') g.rejected ∙ append_assoc p.rejected js js';
}

pub Grows-none : (p : Progress) → Grows [] [] [] p p
Grows-none p = record {
  accepted = sym (append-nil p.accepted);
  receipts = sym (append-nil p.receipts);
  rejected = sym (append-nil p.rejected);
}

pub accept_item-Grows :
    (i : Item) (p : Progress) → Grows (i.accepted ∷ []) (i.receipt ∷ []) [] p (accept_item i p)
accept_item-Grows i p = record {
  accepted = refl;
  receipts = refl;
  rejected = sym (append-nil p.rejected);
}

pub reject_rest-Grows :
    (route : UploadRoute) (rs : List Value) (e : ApiError) (p : Progress)
    → Grows [] [] (map (λ r. rejection r (id_key route) e) rs) p (reject_rest route rs e p)
reject_rest-Grows route rs e p = record {
  accepted = sym (append-nil p.accepted);
  receipts = sym (append-nil p.receipts);
  rejected = refl;
}
