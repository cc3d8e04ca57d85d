-- ===== src/Invariant/Completion.antt =====
-- `complete` of src/api/deletion.rs against the digests of objects: it erases those of chains with an
-- open deletion.
use palla_sync.Routing.Refused.{transaction-Keeps}
use palla_sync.Error.{Result, ok, err}
use palla_sync.Db.Action.{transaction, gets, ◌>>=◌, continue}
use palla_sync.Prelude.{
  pair_eq, ℕ, Table, Bool, false, List, [], ◌∷◌, String, ◌≡◌, ◌==◌, contains, text_eq, arith,
  find_row-kept, ==_iff,
}
use palla_sync.Json.{Value}
use palla_sync.Crypto.Primitives.{External}
use palla_sync.Config.{RelayConfig}
use palla_sync.Db.{kind_eq, Db, World, ObjectKey, DeletionRow}
use palla_sync.Db.Keeps.{Keeps, Keeps-bind, Keeps-pure, keeps_rules}
use palla_sync.Store.Objects.{find_digest}
use palla_sync.Store.Append.Immutable.{HasDigest}
use palla_sync.Deletion.Erasure.{
  keys_of, incomplete, erase_chain, erase_chains, erase, keep_version, complete_at, complete_row,
  complete_rows, complete,
}

module _ (k : ObjectKey) (d : String) where
  erase_chain-HasDigest :
      (c : String) (db : Db)
      → (c == k.0) ≡ false
      → HasDigest k d db
      → HasDigest k d (erase_chain c db)
  unfolding erase_chain find_digest
  erase_chain-HasDigest c db other h = ground (
    arith,
    h,
    find_row-kept k (λ i r. i.0 == c) db.objects
        (λ r. ground (arith, other, ==_iff c k.0, ==_iff k.0 c)),
  )

  erase_chains-HasDigest :
      (cs : List String) (db : Db)
      → contains cs k.0 ≡ false
      → HasDigest k d db
      → HasDigest k d (erase_chains cs db)
  unfolding erase_chains contains
  erase_chains-HasDigest [] db other h = h
  erase_chains-HasDigest (c ∷ cs) db other h =
      erase_chains-HasDigest cs (erase_chain c db) (ground (arith, other))
        (erase_chain-HasDigest c db (ground (arith, other)) h)

  erase-HasDigest :
      (busy : Bool) (w : World)
      → contains (keys_of (incomplete w.db)) k.0 ≡ false
      → HasDigest k d w.db
      → HasDigest k d (erase busy w).1.db
  unfolding erase
  erase-HasDigest busy w other h =
      ground (arith, h, erase_chains-HasDigest (keys_of (incomplete w.db)) w.db other h)

  keep_version-HasDigest :
      (c : String) (v : Value) (db : Db) → HasDigest k d db → HasDigest k d (keep_version c v db)
  unfolding keep_version find_digest
  keep_version-HasDigest c v db h = ground (arith, h)

  module _ ⦃x : External⦄ (cfg : RelayConfig) where
    complete_at-HasDigest :
        (c : String) (v : Value) (t : ℕ) → Keeps (HasDigest k d) (complete_at cfg c v t)
    unfolding complete_at find_digest
    complete_at-HasDigest c v t = record { at = λ w h. ground (arith, h) }

    complete_row-HasDigest : (c : String) (v : Value) → Keeps (HasDigest k d) (complete_row cfg c v)
    unfolding complete_row
    complete_row-HasDigest c v = search (keeps_rules, keep_version-HasDigest, complete_at-HasDigest)

    complete_rows-HasDigest :
        (rows : Table String DeletionRow) → Keeps (HasDigest k d) (complete_rows cfg rows)
    unfolding complete_rows
    complete_rows-HasDigest [] = Keeps-pure tt
    complete_rows-HasDigest ((c, r) ∷ rows) =
        Keeps-bind (complete_row cfg c r.proof) _ (complete_row-HasDigest c r.proof)
          (λ u. complete_rows-HasDigest rows)

    rest-HasDigest : Keeps (HasDigest k d) (transaction (gets incomplete >>= complete_rows cfg))
    rest-HasDigest = search (keeps_rules, transaction-Keeps, complete_rows-HasDigest)

    pub complete-HasDigest :
        (busy : Bool) (w : World)
        → contains (keys_of (incomplete w.db)) k.0 ≡ false
        → HasDigest k d w.db
        → HasDigest k d (complete busy cfg w).1.db
    unfolding complete
    complete-HasDigest busy w other h =
        after (erase busy w).0 (erase busy w).1 (erase-HasDigest busy w other h)
      where
        after :
            (r : Result (Unit {0})) (w₁ : World)
            → HasDigest k d w₁.db
            → HasDigest k d
                (continue r (λ u. transaction (gets incomplete >>= complete_rows cfg)) w₁).1.db
        after (ok u) w₁ h = rest-HasDigest.at w₁ h
        after (err e) w₁ h = h
