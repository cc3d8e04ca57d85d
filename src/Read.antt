-- ===== src/Read.antt =====
-- Paged reading (src/api/read.rs): the query, the page and its bounds. Cursors, the log and the
-- transparency log are the child modules.
pub mod Cut
pub mod Cursors
pub mod Listing
pub mod Log
pub mod Published
pub mod Epochs
pub mod Pages
pub mod Resume
use palla_sync.Prelude.{
  contains, String, List, all, ℕ, Option, none, Bool, ◌∷◌, ◌*◌, ◌-◌, leb, if◌then◌else◌, ◌+◌,
  is_empty, some, ◌&&◌, ◌==◌, ◌||◌, [], not, text_eq, ltb, ◌^◌,
}
use palla_sync.Db.{Chain}
use palla_sync.Error.{
  ◌>>=◌, Result, ApiError, ok, throw, filter_not_allowed, with_context, invalid_field, failed,
  log_pruned,
}
use palla_sync.Json.{Value, object, num, str, set_member}
use palla_sync.Crypto.{codes}

abbrev pub response_max : ℕ
response_max = 8 * 1024 * 1024

abbrev pub page_bytes : ℕ
page_bytes = response_max - 32768

-- What a client must fetch a compaction for.
unfoldable pub pruned : Chain → ApiError
pruned c =
    let context =
      object (("min_available_seq", num c.min_available_seq) ∷ ("log_id", str c.log_id) ∷ []) in
    with_context (failed log_pruned) (elim c.boundary_compaction_id [
      | none ↦ context
      | some id ↦ set_member context "compaction_id" (str id)
    ])

pub record Page : Type 0 where
  pub cut : Chain
  pub position : ℕ
  pub key : String
  pub limit : ℕ
  pub resource : String
  pub filters : Value
  pub expires : ℕ
  pub extra : Value

abbrev pub Query : Type 0
Query = List (String × String)

unfoldable pub query : Query → String → Option String
query [] name = none
query ((k, v) ∷ q) name = if k == name then some v else query q name

abbrev is_digit : ℕ → Bool
is_digit d = leb 48 d && leb d 57

-- The number that digits are, behind the number of those before them.
abbrev digits_from : ℕ → List ℕ → ℕ
digits_from acc [] = acc
digits_from acc (d ∷ ds) = digits_from (acc * 10 + (d - 48)) ds

-- What does not fit 64 bits is refused as what is above `max`.
unfoldable pub decimal : String → ℕ → ℕ → Result ℕ
unfolding all
decimal t min max =
    let digits = codes t in
    let value = digits_from 0 digits in
    if is_empty digits || not (all is_digit digits)
    then throw invalid_field
    else if ltb value (2 ^ 64) && leb min value && leb value max
    then ok value
    else throw invalid_field

-- `query(q, name).map(|s| decimal(&s, min, max)).transpose()?`
abbrev pub opt_decimal : Option String → ℕ → ℕ → Result (Option ℕ)
opt_decimal none min max = ok none
opt_decimal (some t) min max = do v ← decimal t min max; ok (some v)

unfoldable pub allowed : Query → List String → Result (Unit {0})
unfolding contains
allowed [] names = ok tt
allowed ((k, v) ∷ q) names =
    let rest = allowed q names in if contains names k then rest else throw filter_not_allowed

-- `parse` of a parameter that `decimal` let through; an empty text would be a panic.
abbrev pub number_of : String → ℕ
number_of t = digits_from 0 (codes t)
