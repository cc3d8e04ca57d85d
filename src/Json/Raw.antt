-- ===== src/Json/Raw.antt =====
-- What serde_json reports of a text to the visitor of src/crypto/jcs.rs: the members of an object as
-- they stand, repeated ones too, and numbers that are negative or have a fraction.
use palla_sync.Prelude.{ℕ, Bool, String}

mutual
  pub data Raw : Type 0 where
    unit : Raw
    boolean : Bool → Raw
    unsigned : ℕ → Raw
    -- the value is -(n + 1)
    negative : ℕ → Raw
    float : Raw
    text : String → Raw
    seq : RawItems → Raw
    map : RawMembers → Raw

  pub data RawItems : Type 0 where
    last : RawItems
    item : Raw → RawItems → RawItems

  pub data RawMembers : Type 0 where
    closed : RawMembers
    entry : String → Raw → RawMembers → RawMembers
