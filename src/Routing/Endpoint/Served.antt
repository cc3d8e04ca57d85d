-- ===== src/Routing/Endpoint/Served.antt =====
-- What is known of an endpoint that `endpoint` (src/api/sync.rs) returns.
use palla_sync.Prelude.{
  refl, Option, String, ℕ, ◌≡◌, true, some, ◌==◌, ◌≤◌, arith, none, ◌||◌, is_some, ◌⊎◌, text_eq,
  Bool-cases, ap, inl, Option-cases, ◌/=◌, contains, ◌&&◌, ◌∙◌, inr, is_none, ==_iff, subst, sym,
}
use palla_sync.Crypto.Primitives.{External}
use palla_sync.Read.{decimal}
use palla_sync.Routing.Endpoint.{
  Endpoint, is_uuid, check_param, ok, to_string, decode, number_range, check_endpoint, endpoint,
  check_method, strip_prefix, route_of, split_path,
}
use palla_sync.Wire.Types.{is_uuid}
use palla_sync.Routing.Endpoint.Methods.{method_of, Fits, route_of-Fits}
use palla_sync.Error.{ok, Result, err}
use palla_sync.Decimal.{to_string}
use palla_sync.Crypto.{decode}

module _ ⦃x : External⦄ where
  -- A parameter is a UUID or, of a route with a number, the text of a number within its bounds.
  abbrev pub IsParam : Option (ℕ × ℕ) → String → Type 0
  IsParam none p = is_uuid p ≡ true
  IsParam (some (min, max)) p = (k : ℕ) × (min ≤ k) × (k ≤ max) × (p ≡ to_string k)

  pub record IsServed (method : String) (e : Endpoint) : Type 0 where
    pub method_fits : method ≡ method_of e.route
    pub chain_decodes : ((e.chain == "") || is_some (decode e.chain (some 32))) ≡ true
    pub param_fits : (e.param ≡ "") ⊎ IsParam (number_range e.route) e.param

  decimal-bounds : (t : String) (min max k : ℕ) → decimal t min max ≡ ok k → (min ≤ k) × (k ≤ max)
  unfolding decimal
  decimal-bounds t min max k h = (ground (arith, h), ground (arith, h))

  -- The parameter is checked and written anew; nothing else changes.
  abbrev IsChecked : Option (ℕ × ℕ) → Endpoint → Endpoint → Type 0
  IsChecked range d e = (e.route ≡ d.route) × ((e.chain ≡ d.chain) × IsParam range e.param)

  number-IsChecked :
      (min max : ℕ) (d e : Endpoint) (r : Result ℕ)
      → decimal d.param min max ≡ r
      → check_param (some (min, max)) d ≡ ok e
      → IsChecked (some (min, max)) d e
  number-IsChecked min max d e (ok k) found h =
      let same : e ≡ record d { param = to_string k } = ground (arith, h, found) in
      let (low, high) = decimal-bounds d.param min max k found in
      (ap (λ f. f.route) same, (ap (λ f. f.chain) same, (k, low, high, ap (λ f. f.param) same)))
  number-IsChecked min max d e (err f) found h = absurd (ground (arith, h, found))

  check_param-IsChecked :
      (range : Option (ℕ × ℕ)) (d e : Endpoint) → check_param range d ≡ ok e → IsChecked range d e
  check_param-IsChecked none d e h = elim (Bool-cases (is_uuid d.param)) [
    | inl valid ↦
        let same : e ≡ d = ground (arith, h, valid) in
        (ap (λ f. f.route) same, (ap (λ f. f.chain) same, ap (λ f. is_uuid f.param) same ∙ valid))
    | inr bad ↦ absurd (ground (arith, h, bad))
  ]
  check_param-IsChecked (some (min, max)) d e h =
      number-IsChecked min max d e (decimal d.param min max) refl h

  check_endpoint-IsServed :
      (method : String) (d e : Endpoint)
      → method ≡ method_of d.route
      → check_endpoint d ≡ ok e
      → IsServed method e
  unfolding check_endpoint
  check_endpoint-IsServed method d e m h =
      elim (Bool-cases ((d.chain /= "") && is_none (decode d.chain (some 32)))) [
        | inl bad ↦ absurd (ground (arith, h, bad))
        | inr good ↦
            let chain_ok : ((d.chain == "") || is_some (decode d.chain (some 32))) ≡ true =
              ground (arith, good) in
            elim (Bool-cases (d.param == "")) [
              | inl empty ↦
                  let same : d ≡ e = ground (arith, h, good, empty) in
                  subst (IsServed method) same (record {
                    method_fits = m;
                    chain_decodes = chain_ok;
                    param_fits = inl ((==_iff d.param "").0 empty);
                  })
              | inr given ↦
                  let (route, (chain, param)) =
                    check_param-IsChecked (number_range d.route) d e
                      (ground (arith, h, good, given)) in
                  record {
                    method_fits = m ∙ ap method_of (sym route);
                    chain_decodes =
                        subst (λ c. ((c == "") || is_some (decode c (some 32))) ≡ true) (sym chain)
                          chain_ok;
                    param_fits =
                        inr (subst (λ r. IsParam (number_range r) e.param) (sym route) param);
                  }
            ]
      ]

  check_method-IsServed :
      (method : String) (found : Option Endpoint) (e : Endpoint)
      → Fits method found
      → check_method method found ≡ ok e
      → IsServed method e
  check_method-IsServed method none e fit h = cc
  check_method-IsServed method (some d) e fit h = elim (Bool-cases (contains d.allow method)) [
    | inl allowed ↦
        check_endpoint-IsServed method d e ((==_iff method (method_of d.route)).0 (fit allowed))
          (ground (arith, h, allowed))
    | inr refused ↦ absurd (ground (arith, h, refused))
  ]

-- An endpoint is served only for the method of its route; its chain, if it has one, is the text of
-- 32 bytes; and its parameter is empty, a UUID or, where the route takes a number, the text of a number
-- within its bounds.
pub endpoint-IsServed :
    ⦃x : External⦄ (path method : String) (e : Endpoint)
    → endpoint path method ≡ ok e
    → IsServed method e
unfolding endpoint
endpoint-IsServed path method e h = elim (Option-cases (strip_prefix "/pallasync/v3/" path)) [
  | inl missing ↦ absurd (ground (arith, h, missing))
  | inr (rest, found) ↦
      check_method-IsServed method (route_of method (split_path rest)) e
        (route_of-Fits method (split_path rest)) (ground (arith, h, found))
]
