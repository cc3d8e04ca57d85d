-- ===== src/Error/Retry.antt =====
-- The problem+json response of src/api/error.rs, and its Retry-After header.
use palla_sync.Prelude.{
  ℕ, ◌+◌, ◌-◌, ◌/◌, Bool, true, false, Option, none, some, [], ◌∷◌, ltb, if◌then◌else◌, String,
}
use palla_sync.Json.{Value, num, str, bool, object, ◌!◌, set_member, as_u64}
use palla_sync.Error.{
  Code, rate_limited, token_not_yet_valid, code_name, ApiError, status, retryable,
}

pub record Response : Type 0 where
  pub status : ℕ
  pub content_type : String
  pub body : Value
  pub retry_after : Option ℕ

-- `u64::div_ceil` and `Ord::clamp`
abbrev div_ceil : ℕ → ℕ → ℕ
div_ceil a b = (a + (b - 1)) / b

abbrev clamp : ℕ → ℕ → ℕ → ℕ
clamp lo hi x = if ltb x lo then lo else if ltb hi x then hi else x

abbrev waits : Code → Bool
waits rate_limited = true
waits token_not_yet_valid = true
waits _ = false

-- The milliseconds of `retry_after_ms` in the context, or a second.
retry_ms : Option Value → ℕ
retry_ms none = 1000
retry_ms (some v) = elim (as_u64 (v ! "retry_after_ms")) [ none ↦ 1000 | some ms ↦ ms ]

pub retry_after : ApiError → Option ℕ
unfolding retry_ms
retry_after e =
    if waits e.code then some (clamp 1 3600 (div_ceil (retry_ms e.context) 1000)) else none

-- `reason` is `StatusCode::canonical_reason`, `time` the clock.
pub into_response : (ℕ → String) → ℕ → ApiError → Response
into_response reason time e =
    let body = object (
      ("type", str "about:blank")
      ∷ ("title", str (reason (status e)))
      ∷ ("status", num (status e))
      ∷ ("code", str (code_name e.code))
      ∷ ("retryable", bool (retryable e))
      ∷ ("server_time_ms", num time)
      ∷ []) in
    record {
      status = status e;
      content_type = "application/problem+json";
      body = elim e.context [ none ↦ body | some c ↦ set_member body "context" c ];
      retry_after = retry_after e;
    }
