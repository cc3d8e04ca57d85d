-- ===== src/Tests/Parsing.antt =====
-- Concrete runs of the theorems on bodies, objects and queries (src/crypto/jcs.rs and
-- src/api/wire.rs).
use palla_sync.Prelude.{
  ℕ, true, false, List, [], ◌∷◌, ◌≡◌, refl, is_some, arith, some, if◌then◌else◌, ◌↔◌,
}
use palla_sync.Json.{Value, str, object, array}
use palla_sync.Json.Raw.{Raw, closed, entry, unsigned, map}
use palla_sync.Error.{ok, throw, invalid_field}
use palla_sync.Crypto.Primitives.{External}
use palla_sync.Crypto.{codes}
use palla_sync.Crypto.Jcs.{parse, strict, scan, is_clean, skip_digits}
use palla_sync.Crypto.Jcs.Lexical.{lexical, scan-lexical}
use palla_sync.Crypto.Jcs.Visitor.{is_strict, strict_accepts}
use palla_sync.Crypto.Jcs.Parse.{parse_accepts}
use palla_sync.Wire.Artifacts.{reject_local_artifacts}
use palla_sync.Wire.Artifacts.Recursive.{holds_artifact, reject_local_artifacts-holds}
use palla_sync.Wire.Query.{
  pct, canonical_query, decode_pairs, split_on, from_radix_16, Bytes, Pair, split_pair, hex_value,
  encode_byte, is_unreserved, upper_hex, sort_pairs, insert_pair, pair_leb, bytes_leb, bytes_beq,
  repeats,
}
use palla_sync.Wire.Query.Canonical.{pct_idem}
use palla_sync.Wire.Query.Order.{canonical_query-IsAscending, IsAscending}
use palla_sync.Tests.{sample}
use mathlib.Core.List.{Perm}

abbrev body : List ℕ
body = codes "{\"a\": 10}"

abbrev raw : Raw
raw = map (entry "a" (unsigned 10) closed)

abbrev reading : External
reading = record sample { read_json = λ b. some raw }

parse_accepts_example : is_some (parse ⦃x = reading⦄ body) ≡ true
unfolding lexical is_strict skip_digits
parse_accepts_example = parse_accepts ⦃x = reading⦄ body

strict_accepts_example : (is_some (strict raw) ≡ true) ↔ (is_strict raw ≡ true)
strict_accepts_example = strict_accepts raw

scan-lexical_example : is_clean (scan 9 false false 0 (codes "{\"a\":01}")) ≡ false
unfolding lexical skip_digits
scan-lexical_example = scan-lexical 9 false false 0 (codes "{\"a\":01}") (omega arith)

abbrev secret : Value
secret = array (object (("mnemonic", str "m") ∷ ("passphrase", str "p") ∷ []) ∷ [])

reject_local_artifacts-holds_example :
    reject_local_artifacts secret ≡ (if holds_artifact secret then throw invalid_field else ok tt)
reject_local_artifacts-holds_example = reject_local_artifacts-holds secret

decoding : pct (codes "%7e") ≡ ok (codes "~")
unfolding pct from_radix_16 hex_value encode_byte is_unreserved upper_hex
decoding = refl

pct_idem_example : pct (codes "~") ≡ ok (codes "~")
pct_idem_example =
    pct_idem (codes "%7e") (codes "~") (omega arith, (omega arith, (omega arith, tt))) decoding

abbrev question : Bytes
question = codes "b=1&a=2"

abbrev pairs : List Pair
pairs = (codes "b", codes "1") ∷ (codes "a", codes "2") ∷ []

abbrev sorted : List Pair
sorted = (codes "a", codes "2") ∷ (codes "b", codes "1") ∷ []

decoded_pairs : decode_pairs ((split_on b'&' question).0 ∷ (split_on b'&' question).1) ≡ ok pairs
unfolding decode_pairs split_on split_pair pct from_radix_16 hex_value encode_byte is_unreserved
    upper_hex
decoded_pairs = refl

accepted : canonical_query question ≡ ok sorted
unfolding canonical_query decode_pairs split_on split_pair pct from_radix_16 hex_value encode_byte
    is_unreserved upper_hex sort_pairs insert_pair pair_leb bytes_leb bytes_beq repeats
accepted = refl

canonical_query-IsAscending_example : IsAscending sorted × Perm sorted pairs
canonical_query-IsAscending_example =
    canonical_query-IsAscending question sorted pairs refl decoded_pairs accepted
