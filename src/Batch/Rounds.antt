-- ===== src/Batch/Rounds.antt =====
-- What one round of a batch (`upload` of src/api/batch.rs) does for its item.
use palla_sync.Prelude.{
  ℕ, Bool, true, false, List, [], ◌∷◌, String, ◌≡◌, ◌⊎◌, inl, inr, refl, arith, map, is_empty,
  if◌then◌else◌, ◌&&◌, Option, some, none, ap, sym, ◌∙◌,
}
use palla_sync.Json.{Value}
use palla_sync.Error.{Result, ok, err, ApiError, failed, chain_not_found}
use palla_sync.Crypto.Primitives.{External}
use palla_sync.Db.{World, Chain}
use palla_sync.Db.Action.{Action, ◌>>=◌, continue}
use palla_sync.Config.{RelayConfig}
use palla_sync.Auth.{Auth}
use palla_sync.Store.Objects.{load}
use palla_sync.Domain.{rejection}
use palla_sync.Batch.Items.{UploadRoute, Item, id_key}
use palla_sync.Batch.{
  Progress, upload_one, settle_item, reject_item, after_audit, missing_chain, attempt, run_item,
  or_first, audit_reject, must_audit, is_exhausted, upload_from,
}
use palla_sync.Batch.Settles.{
  Outcome, Stops, gone, unaudited, Grows, accept_item-Grows, reject_rest-Grows,
}
use palla_sync.Batch.Rollback.{attempt-result}

module _ ⦃x : External⦄ (cfg : RelayConfig) (auth : Auth) (chain : String) (route : UploadRoute)
    (param : String) (v : Value) where
  -- What a round has to do for its item, and a round that ends the batch for all that are left.
  abbrev pub Accounts : ℕ → Value → List Value → Progress → Result (Bool × Progress) → Type 0
  Accounts k r rs p (ok (true, q)) =
      ((i : Item) × (Outcome cfg auth chain route param v k r (ok i)
          × Grows (i.accepted ∷ []) (i.receipt ∷ []) [] p q))
      ⊎ ((e : ApiError) × (Outcome cfg auth chain route param v k r (err e)
            × Grows [] [] (rejection r (id_key route) e ∷ []) p q))
  Accounts k r rs p (ok (false, q)) =
      (e : ApiError) × (Stops cfg auth chain route param v e
        × Grows [] [] (map (λ r. rejection r (id_key route) e) (r ∷ rs)) p q)
  Accounts k r rs p (err e) = Unit {0}

  module _ (k : ℕ) (r : Value) (rs : List Value) (p : Progress) where
    abbrev Ensures : Action (Bool × Progress) → Type 0
    Ensures m = (w : World) → Accounts k r rs p (m w).0

    Ensures-if :
        (b : Bool) (m n : Action (Bool × Progress))
        → Ensures m
        → Ensures n
        → Ensures (if b then m else n)
    Ensures-if true m n hm hn = hm
    Ensures-if false m n hm hn = hn

    continue-Accounts :
        {A : Type 0} (o : Result A) (f : A → Action (Bool × Progress)) (w : World)
        → ((a : A) → o ≡ ok a → Accounts k r rs p (f a w).0)
        → Accounts k r rs p (continue o f w).0
    continue-Accounts (ok a) f w h = h a refl
    continue-Accounts (err e) f w h = tt

    -- The rest of a round knows what its first action returned, and where.
    Ensures-bind :
        {A : Type 0} (m : Action A) (f : A → Action (Bool × Progress))
        → ((a : A) (w w' : World) → (m w).0 ≡ ok a → Accounts k r rs p (f a w').0)
        → Ensures (m >>= f)
    Ensures-bind m f h w = continue-Accounts (m w).0 f (m w).1 (λ a e. h a w (m w).1 e)

    after_audit-Accounts :
        (e : ApiError) (o : Result Chain) (w : World)
        → Outcome cfg auth chain route param v k r (err e)
        → ((f : ApiError) → o ≡ err f → Stops cfg auth chain route param v f)
        → Accounts k r rs p (after_audit route r rs e p o w).0
    unfolding after_audit
    after_audit-Accounts e (ok c) w out stop =
        let g = reject_rest-Grows route (r ∷ []) e p in
        inr
          (e, (out, record { accepted = g.accepted; receipts = g.receipts; rejected = g.rejected }))
    after_audit-Accounts e (err f) w out stop =
        Ensures-if (is_empty p.accepted) _ _ (λ w. tt)
          (λ w. (f, (stop f refl, reject_rest-Grows route (r ∷ rs) f p))) w

    ok-injective : {A : Type 0} {a b : A} → ok a ≡ ok b → a ≡ b
    ok-injective h = ground (arith, h)

    reject_item-Accounts :
        (e : ApiError)
        → Outcome cfg auth chain route param v k r (err e)
        → Ensures (reject_item cfg chain route r rs e p)
    unfolding reject_item
    reject_item-Accounts e out =
        Ensures-if (is_empty p.accepted && is_exhausted e.code) _ _ (λ w. tt)
          (Ensures-if (must_audit route r e.code) _ _
            (Ensures-bind (attempt (audit_reject cfg chain r e.code)) _ (λ o w w' h.
              after_audit-Accounts e o w' out (λ f g.
                unaudited r e.code w (
                  ok-injective (sym (attempt-result (audit_reject cfg chain r e.code) w) ∙ h)
                  ∙ g))))
            (λ w. inr (e, (out, reject_rest-Grows route (r ∷ []) e p))))

    settle_item-Accounts :
        (o : Result Item)
        → Outcome cfg auth chain route param v k r o
        → Ensures (settle_item cfg chain route r rs p o)
    unfolding settle_item
    settle_item-Accounts (ok i) out w = inl (i, (out, accept_item-Grows i p))
    settle_item-Accounts (err e) out w = reject_item-Accounts e out w

    missing_chain-Accounts :
        Stops cfg auth chain route param v (failed chain_not_found)
        → Ensures (missing_chain route (r ∷ rs) p)
    unfolding missing_chain
    missing_chain-Accounts stop =
        Ensures-if (is_empty p.accepted) _ _ (λ w. tt)
          (λ w. (
            failed chain_not_found,
            (stop, reject_rest-Grows route (r ∷ rs) (failed chain_not_found) p),
          ))

  from_chain-Accounts :
      (k : ℕ) (r : Value) (rs : List Value) (p : Progress) (found : Option Chain)
      → (found ≡ none → Stops cfg auth chain route param v (failed chain_not_found))
      → Ensures k r rs p (upload_from cfg auth chain route param v k r rs p found)
  unfolding upload_from
  from_chain-Accounts k r rs p none stop = missing_chain-Accounts k r rs p (stop refl)
  from_chain-Accounts k r rs p (some c) stop =
      let q = record p { final_chain = or_first p.final_chain c } in
      let run = run_item c cfg auth chain route param v k r in
      Ensures-bind k r rs p (attempt run) _ (λ o w w' h.
        same (settle_item cfg chain route r rs q o w').0 (
          settle_item-Accounts k r rs q o
            (record {
              state = w;
              current = c;
              result = ok-injective k r rs p (sym (attempt-result run w) ∙ h);
            })
            w'))
    where
      -- The lists of `p` are those of `q`.
      same :
          (s : Result (Bool × Progress))
          → Accounts k r rs (record p { final_chain = or_first p.final_chain c }) s
          → Accounts k r rs p s
      same (ok (true, q)) (inl (i, (out, g))) =
          inl (
            i,
            (out, record { accepted = g.accepted; receipts = g.receipts; rejected = g.rejected }),
          )
      same (ok (true, q)) (inr (e, (out, g))) =
          inr (
            e,
            (out, record { accepted = g.accepted; receipts = g.receipts; rejected = g.rejected }),
          )
      same (ok (false, q)) (e, (stop, g)) = (
        e,
        (stop, record { accepted = g.accepted; receipts = g.receipts; rejected = g.rejected }),
      )
      same (err e) h = tt

  pub upload_one-Accounts :
      (k : ℕ) (r : Value) (rs : List Value) (p : Progress)
      → Ensures k r rs p (upload_one cfg auth chain route param v k r rs p)
  unfolding upload_one
  upload_one-Accounts k r rs p =
      Ensures-bind k r rs p (load chain) _
        (λ found w w' h. from_chain-Accounts k r rs p found (λ e. gone w (h ∙ ap (λ o. ok o) e)) w')
