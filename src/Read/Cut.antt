-- ===== src/Read/Cut.antt =====
-- The chain that a cursor keeps: `Chain` of src/api/store.rs as serde writes and reads it.
use palla_sync.Prelude.{refl, Option, some, String, Bool, ℕ, none, ◌∷◌, ◌≡◌, []}
use palla_sync.Json.{
  lookup, Value, object, get, str, as_str, bool, opt_str, insert, as_u64, null, num,
}
use palla_sync.Db.{Chain}

unfoldable pub chain_value : Chain → Value
unfolding object
chain_value c = object (
    ("chain_id", str c.chain_id)
    ∷ ("parameters", c.parameters)
    ∷ ("epoch", c.epoch)
    ∷ ("log_id", str c.log_id)
    ∷ ("head_seq", num c.head_seq)
    ∷ ("head_hash", str c.head_hash)
    ∷ ("min_available_seq", num c.min_available_seq)
    ∷ ("boundary_compaction_id", opt_str c.boundary_compaction_id)
    ∷ ("transparency_id", str c.transparency_id)
    ∷ ("transparency_index", num c.transparency_index)
    ∷ ("transparency_hash", str c.transparency_hash)
    ∷ ("writable", bool c.writable)
    ∷ ("notice_id", str c.notice_id)
    ∷ [])

abbrev given : {A B : Type 0} → Option A → (A → Option B) → Option B
given none f = none
given (some a) f = f a

abbrev text_at : Value → String → Option String
text_at v k = given (lookup v k) as_str

abbrev number_at : Value → String → Option ℕ
number_at v k = given (lookup v k) as_u64

abbrev as_bool : Value → Option Bool
as_bool (bool b) = some b
as_bool v = none

-- A member that may be null.
abbrev as_optional : Value → Option (Option String)
as_optional null = some none
as_optional (str t) = some (some t)
as_optional v = none

-- A member with a default, which is no text.
abbrev optional_at : Value → String → Option (Option String)
optional_at v k = elim (lookup v k) [ none ↦ some none | some w ↦ as_optional w ]

-- `serde_json::from_value`
unfoldable pub read_chain : Value → Option Chain
unfolding lookup
read_chain v = given (text_at v "chain_id") λ chain_id. given (lookup v "parameters") λ parameters.
    given (lookup v "epoch") λ epoch. given (text_at v "log_id") λ log_id.
      given (number_at v "head_seq") λ head_seq. given (text_at v "head_hash") λ head_hash.
        given (number_at v "min_available_seq") λ min_available_seq.
          given (optional_at v "boundary_compaction_id") λ boundary.
            given (text_at v "transparency_id") λ transparency_id.
              given (number_at v "transparency_index") λ transparency_index.
                given (text_at v "transparency_hash") λ transparency_hash.
                  given (given (lookup v "writable") as_bool) λ writable.
                    given (text_at v "notice_id") λ notice_id. some (record {
                      chain_id = chain_id;
                      parameters = parameters;
                      epoch = epoch;
                      log_id = log_id;
                      head_seq = head_seq;
                      head_hash = head_hash;
                      min_available_seq = min_available_seq;
                      boundary_compaction_id = boundary;
                      transparency_id = transparency_id;
                      transparency_index = transparency_index;
                      transparency_hash = transparency_hash;
                      writable = writable;
                      notice_id = notice_id;
                    })

as_optional-opt_str : (o : Option String) → as_optional (opt_str o) ≡ some o
as_optional-opt_str none = refl
as_optional-opt_str (some t) = refl

pub read_chain-chain_value : (c : Chain) → read_chain (chain_value c) ≡ some c
unfolding read_chain chain_value lookup get insert
read_chain-chain_value c = rw (as_optional-opt_str c.boundary_compaction_id) refl
