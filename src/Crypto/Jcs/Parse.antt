-- ===== src/Crypto/Jcs/Parse.antt =====
-- `parse` of src/crypto/jcs.rs as a whole.
use palla_sync.Prelude.{
  is_some, ℕ, Bool, false, not, ◌&&◌, ◌≡◌, Option, none, some, List, length, arith, Option-cases,
  inl, inr,
}
use native.Mathlib.Nat.{le_refl}
use palla_sync.Json.Raw.{Raw}
use palla_sync.Crypto.Primitives.{External}
use palla_sync.Crypto.Jcs.{starts_with_bom, parse}
use palla_sync.Crypto.Jcs.Lexical.{lexical, outside, scan-lexical}
use palla_sync.Crypto.Jcs.Visitor.{is_strict, is_some-strict}

abbrev reads_strict : Option Raw → Bool
reads_strict none = false
reads_strict (some r) = is_strict r

-- A body is accepted exactly if it is UTF-8 without a byte order mark, passes the automaton, and is
-- read by serde_json as a value whose numbers are in the safe range and whose members are distinct.
pub parse_accepts :
    ⦃x : External⦄ (bytes : List ℕ)
    → is_some (parse bytes)
      ≡ x.is_utf8 bytes
        && not (starts_with_bom bytes)
        && lexical false false 0 outside bytes
        && reads_strict (x.read_json bytes)
unfolding parse
parse_accepts ⦃x⦄ bytes =
    let scanned = scan-lexical (length bytes) false false 0 bytes (le_refl (length bytes)) in
    elim (Option-cases (x.read_json bytes)) [
      | inl e ↦ ground (arith, scanned, e)
      | inr (r, e) ↦ ground (arith, scanned, e, is_some-strict r)
    ]
