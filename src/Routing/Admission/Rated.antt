-- ===== src/Routing/Admission/Rated.antt =====
-- A refused request of a device that is not enrolled (src/api/sync.rs) leaves only its rates.
use palla_sync.Auth.Authenticate.{join}
use palla_sync.Routing.Answer.{Response}
use palla_sync.Db.Action.{◌>>=◌, Action, continue, lift, or_fail}
use palla_sync.Prelude.{
  ◌∙◌, pair_eq, text_eq, ◌==◌, ◌||◌, Bool, true, delete_rows, delete_rows-upsert, beq_self, refl,
  ◌≡◌, String, List, arith, ℕ, subst, sym,
}
use palla_sync.Auth.Rate.{rate, Floats}
use palla_sync.Routing.Admission.{
  answer_candidate, Result, External, attempt, Query, Value, hash_bytes, candidate,
}
use palla_sync.Config.{write_guard, RelayConfig}
use palla_sync.Db.{Db, World}
use palla_sync.Crypto.Primitives.{External}
use palla_sync.Error.{Result, ok, ApiError, err, offer_not_found}
use palla_sync.Batch.{attempt}
use palla_sync.Auth.Rate.{take_token}
use palla_sync.Db.Keeps.{keeps_rules, Keeps-if, Keeps-fail_with, Keeps-modify, Keeps}
use palla_sync.Batch.Rollback.{resumed, attempt-bind}
use palla_sync.Read.{Query}
use palla_sync.Json.{Value, s}
use palla_sync.Crypto.{hash_bytes}

-- The rates of a request: of its address and of its offer.
abbrev pub of_source : ⦃x : External⦄ → List ℕ → String × String
of_source source = ("enrollment_source_ip", hash_bytes source)

abbrev pub of_offer : String → Value → String × String
of_offer chain v = ("enrollment_offer", join chain (join ":" (s v "request_id")))

abbrev is_either : String × String → String × String → String × String → ℕ × ℕ → Bool
is_either i j k bucket = (k == i) || (k == j)

-- Nothing but the rates of two identities has changed.
pub record IsRated (i j : String × String) (old db : Db) : Type 0 where
  tables : db ≡ record old { rates = db.rates }
  others : delete_rows (is_either i j) db.rates ≡ delete_rows (is_either i j) old.rates

-- What is claimed of an action that fails.
abbrev FailsIn : (Db → Type 0) → Result Response × World → Type 0
FailsIn P (ok r, w) = Unit {0}
FailsIn P (err e, w) = P w.db

module _ (P : Db → Type 0) where
  FailsIn-continue :
      {A : Type 0} (r : Result A) (g : A → Action Response) (w : World)
      → P w.db
      → ((a : A) (w₁ : World) → P w₁.db → FailsIn P (g a w₁))
      → FailsIn P (continue r g w)
  FailsIn-continue (ok a) g w h k = k a w h
  FailsIn-continue (err e) g w h k = h

  FailsIn-bind :
      {A : Type 0} (m : Action A) (g : A → Action Response) (w : World)
      → Keeps P m
      → P w.db
      → ((a : A) (w₁ : World) → P w₁.db → FailsIn P (g a w₁))
      → FailsIn P ((m >>= g) w)
  FailsIn-bind m g w keeps h k = FailsIn-continue (m w).0 g (m w).1 (keeps.at w h) k

  FailsIn-resumed :
      (w : World) (r : Result Response) (w₁ : World) → P w.db → FailsIn P (resumed lift w r w₁)
  FailsIn-resumed w (ok r) w₁ h = tt
  FailsIn-resumed w (err e) w₁ h = h

  -- What fails behind a savepoint leaves what was there before it.
  FailsIn-attempt : (m : Action Response) (w : World) → P w.db → FailsIn P ((attempt m >>= lift) w)
  FailsIn-attempt m w h =
      subst (FailsIn P) (sym (attempt-bind m lift w (m w).0 (m w).1 refl))
        (FailsIn-resumed w (m w).0 (m w).1 h)

  FailsIn-err :
      (r : Result Response × World) (e : ApiError) (w' : World)
      → r ≡ (err e, w')
      → FailsIn P r
      → P w'.db
  FailsIn-err r e w' h k = subst (FailsIn P) h k

module _ (i j : String × String) (old : Db) where
  take_token-IsRated :
      ⦃f : Floats⦄ (policy : Value) (scope identity : String) (t tokens : ℕ)
      → ((scope, identity) == i) || ((scope, identity) == j) ≡ true
      → Keeps (IsRated i j old) (take_token policy scope identity t tokens)
  take_token-IsRated ⦃f⦄ policy scope identity t tokens either =
      Keeps-if (f.less tokens (f.of_u64 1)) _ _ (Keeps-fail_with _) (
        Keeps-modify _ (λ db h. record {
          tables = ground (arith, h.tables);
          others =
              delete_rows-upsert (is_either i j) (scope, identity) (f.sub tokens (f.of_u64 1), t)
                db.rates (λ u. either)
              ∙ h.others;
        }))

  rate-IsRated :
      ⦃f : Floats⦄ (cfg : RelayConfig) (scope identity : String)
      → ((scope, identity) == i) || ((scope, identity) == j) ≡ true
      → Keeps (IsRated i j old) (rate cfg scope identity)
  unfolding rate
  rate-IsRated cfg scope identity either =
      let taken = λ (policy : Value) (t tokens : ℕ).
        take_token-IsRated policy scope identity t tokens either in
      search (keeps_rules, taken)

  guard-IsRated :
      (cfg : RelayConfig) → Keeps (IsRated i j old) (or_fail (write_guard cfg) offer_not_found)
  unfolding write_guard
  guard-IsRated cfg = record { at = λ w h. ground (arith, h) }

-- A request of a device that is not enrolled, wherever it is refused, has changed nothing but the rates
-- of its address and of its offer: every other table is as it was, and so are the rates of every other
-- scope and identity.
pub answer_candidate-IsRated :
    ⦃x : External⦄ ⦃f : Floats⦄ (cfg : RelayConfig) (source : List ℕ) (chain : String) (q : Query)
    (v : Value) (w w' : World) (e : ApiError)
    → answer_candidate cfg source chain q v w ≡ (err e, w')
    → IsRated (of_source source) (of_offer chain v) w.db w'.db
unfolding answer_candidate
answer_candidate-IsRated cfg source chain q v w w' e h =
    let i = of_source source in
    let j = of_offer chain v in
    let P = IsRated i j w.db in
    FailsIn-err P (answer_candidate cfg source chain q v w) e w' h (
      FailsIn-bind P (or_fail (write_guard cfg) offer_not_found) _ w (guard-IsRated i j w.db cfg)
        (record { tables = refl; others = refl })
        λ u w₁ h₁.
          FailsIn-bind P (rate cfg "enrollment_source_ip" (hash_bytes source)) _ w₁
            (rate-IsRated i j w.db cfg _ _ (ground (arith, beq_self i))) h₁
            λ u w₂ h₂.
              FailsIn-bind P
                (rate cfg "enrollment_offer" (join chain (join ":" (s v "request_id")))) _ w₂
                (rate-IsRated i j w.db cfg _ _ (ground (arith, beq_self j))) h₂
                λ u w₃ h₃. FailsIn-attempt P (candidate cfg chain q v) w₃ h₃)
