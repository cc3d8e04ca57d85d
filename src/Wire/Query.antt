-- ===== src/Wire/Query.antt =====
-- The query string of src/api/wire.rs, as a list of bytes: percent-encoding brought into one form,
-- pairs sorted, and a repeated name refused.
pub mod Canonical
pub mod Order
use palla_sync.Prelude.{
  ℕ, ◌+◌, ◌-◌, ◌*◌, ◌/◌, ◌%◌, Bool, true, false, not, ◌&&◌, ◌||◌, Option, none, some, List, [], ◌∷◌,
  ◌++◌, ◌==◌, nat_eq, ltb, leb, if◌then◌else◌, is_empty,
}
use palla_sync.Error.{Result, ok, err, throw, ◌>>=◌, ◌>>◌, reject_if, ok_or, invalid_field}

abbrev pub Bytes : Type 0
Bytes = List ℕ

abbrev pub Pair : Type 0
Pair = Bytes × Bytes

-- `char::to_digit(16)`
unfoldable pub hex_value : ℕ → Option ℕ
hex_value b =
    if leb b'0' b && leb b b'9'
    then some (b - 48)
    else if leb b'A' b && leb b b'F'
    then some (b - 55)
    else if leb b'a' b && leb b b'f'
    then some (b - 87)
    else none

abbrev two_digits : Option ℕ → Option ℕ → Option ℕ
two_digits none l = none
two_digits (some h) none = none
two_digits (some h) (some l) = some (16 * h + l)

-- `u8::from_str_radix(h, 16)` on two bytes, which lets a plus sign stand before one digit.
unfoldable pub from_radix_16 : ℕ → ℕ → Option ℕ
unfolding hex_value
from_radix_16 h l = if h == b'+' then hex_value l else two_digits (hex_value h) (hex_value l)

unfoldable pub is_unreserved : ℕ → Bool
is_unreserved b =
    (leb b'0' b && leb b b'9')
    || (leb b'A' b && leb b b'Z')
    || (leb b'a' b && leb b b'z')
    || (b == b'-' || b == b'.' || b == b'_' || b == b'~')

unfoldable pub upper_hex : ℕ → ℕ
upper_hex d = if ltb d 10 then 48 + d else 55 + d

-- `{v:02X}` behind a percent sign, or the byte itself
unfoldable pub encode_byte : ℕ → Bytes
unfolding is_unreserved upper_hex
encode_byte v =
    if is_unreserved v then v ∷ [] else b'%' ∷ upper_hex (v / 16) ∷ upper_hex (v % 16) ∷ []

abbrev pub prefixed : Bytes → Result Bytes → Result Bytes
prefixed p (ok out) = ok (p ++ out)
prefixed p (err e) = err e

abbrev pub decoded : Option ℕ → Result Bytes → Result Bytes
decoded none rest = throw invalid_field
decoded (some v) rest = prefixed (encode_byte v) rest

-- Every byte, written or escaped, goes through `encode_byte`.
unfoldable pub pct : Bytes → Result Bytes
pct [] = ok []
pct (b ∷ []) = if b == b'%' then throw invalid_field else ok (encode_byte b)
pct (b ∷ h ∷ []) =
    let rest = pct (h ∷ []) in
    if b == b'%' then throw invalid_field else prefixed (encode_byte b) rest
pct (b ∷ h ∷ l ∷ bs) =
    let behind = pct bs in
    let rest = pct (h ∷ l ∷ bs) in
    if b == b'%' then decoded (from_radix_16 h l) behind else prefixed (encode_byte b) rest

-- `split(sep)`: the piece before the first separator, and the pieces behind it
unfoldable pub split_on : ℕ → Bytes → Bytes × List Bytes
split_on sep [] = ([], [])
split_on sep (b ∷ bs) =
    let (piece, pieces) = split_on sep bs in
    if b == sep then ([], piece ∷ pieces) else (b ∷ piece, pieces)

-- `split_once('=').unwrap_or((p, ""))`
unfoldable pub split_pair : Bytes → Pair
split_pair [] = ([], [])
split_pair (b ∷ bs) = let (k, v) = split_pair bs in if b == b'=' then ([], bs) else (b ∷ k, v)

unfoldable pub decode_pairs : List Bytes → Result (List Pair)
decode_pairs [] = ok []
decode_pairs (p ∷ ps) = do
  let (k, v) = split_pair p
  key ← pct k
  value ← pct v
  rest ← decode_pairs ps
  ok ((key, value) ∷ rest)

-- `Ord` of byte strings and of pairs of them
unfoldable pub bytes_leb : Bytes → Bytes → Bool
bytes_leb [] ys = true
bytes_leb (x ∷ xs) [] = false
bytes_leb (x ∷ xs) (y ∷ ys) = if ltb x y then true else (x == y) && bytes_leb xs ys

unfoldable pub bytes_beq : Bytes → Bytes → Bool
bytes_beq [] [] = true
bytes_beq [] (y ∷ ys) = false
bytes_beq (x ∷ xs) [] = false
bytes_beq (x ∷ xs) (y ∷ ys) = (x == y) && bytes_beq xs ys

unfoldable pub pair_leb : Pair → Pair → Bool
unfolding bytes_leb bytes_beq
pair_leb (k, v) (k', v') = if bytes_beq k k' then bytes_leb v v' else bytes_leb k k'

-- `sort()`
unfoldable pub insert_pair : Pair → List Pair → List Pair
unfolding pair_leb
insert_pair p [] = p ∷ []
insert_pair p (q ∷ qs) =
    let rest = insert_pair p qs in if pair_leb p q then p ∷ q ∷ qs else q ∷ rest

unfoldable pub sort_pairs : List Pair → List Pair
unfolding insert_pair
sort_pairs [] = []
sort_pairs (p ∷ ps) = insert_pair p (sort_pairs ps)

-- `windows(2).any(|w| w[0].0 == w[1].0)`
unfoldable pub repeats : List Pair → Bool
unfolding bytes_beq
repeats [] = false
repeats (p ∷ []) = false
repeats (p ∷ q ∷ ps) = bytes_beq p.0 q.0 || repeats (q ∷ ps)

unfoldable pub canonical_query : Bytes → Result (List Pair)
canonical_query raw = if is_empty raw then ok [] else do
  let (piece, pieces) = split_on b'&' raw
  out ← decode_pairs (piece ∷ pieces)
  let sorted = sort_pairs out
  reject_if (repeats sorted) invalid_field
  ok sorted

-- `query_string`
unfoldable pub join_pairs : List Pair → Bytes
join_pairs [] = []
join_pairs ((k, v) ∷ []) = k ++ (b'=' ∷ v)
join_pairs ((k, v) ∷ p ∷ ps) = k ++ (b'=' ∷ v ++ (b'&' ∷ join_pairs (p ∷ ps)))
