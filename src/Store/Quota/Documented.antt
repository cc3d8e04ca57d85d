-- ===== src/Store/Quota/Documented.antt =====
-- The used bytes as README.md describes them, beside those that `used` of src/api/store.rs counts.
use palla_sync.Prelude.{
  ℕ, ◌+◌, ◌==◌, none, some, String, ◌≡◌, refl, arith, text_eq, Table, [], ◌∷◌, if◌then◌else◌,
}
use palla_sync.Crypto.Primitives.{External}
use palla_sync.Db.{Db, SeqKey, ObjectKey, ObjectRow, LogRow}
use palla_sync.Store.Quota.{
  used, sum_rows, object_size, log_size, text_length, opt_size, receipt_size, transparency_size,
  head_size, outcome_size, cursor_size, offer_size,
}

sum_rows-add :
    {K V : Type 0} (f g h : K → V → ℕ) (t : Table K V)
    → ((k : K) (v : V) → f k v + g k v ≡ h k v)
    → sum_rows f t + sum_rows g t ≡ sum_rows h t
unfolding sum_rows
sum_rows-add f g h [] e = refl
sum_rows-add f g h ((k, v) ∷ t) e = omega (arith, e k v, sum_rows-add f g h t e)

module _ ⦃x : External⦄ where
  -- The identifier and the hash of an object count whether its body is there or not.
  abbrev documented_object : String → ObjectKey → ObjectRow → ℕ
  documented_object c k r =
      if k.0 == c then opt_size r.body + text_length k.1.1 + text_length r.object_hash else 0

  abbrev documented_log : String → SeqKey → LogRow → ℕ
  documented_log c k r = if k.0 == c then opt_size r.entry + text_length r.head_hash else 0

  abbrev pub documented : Db → String → ℕ
  documented db c =
      sum_rows (documented_object c) db.objects
      + sum_rows (documented_log c) db.log
      + sum_rows (receipt_size c) db.receipts
      + sum_rows (transparency_size c) db.transparency
      + sum_rows (head_size c) db.heads
      + sum_rows (outcome_size c) db.outcomes
      + sum_rows (cursor_size c) db.cursors
      + sum_rows (offer_size c) db.offers

  -- The identifiers and hashes of objects and log entries whose bodies were removed.
  abbrev removed_object : String → ObjectKey → ObjectRow → ℕ
  removed_object c k r = elim r.body [
    | none ↦ if k.0 == c then text_length k.1.1 + text_length r.object_hash else 0
    | some v ↦ 0
  ]

  abbrev removed_log : String → SeqKey → LogRow → ℕ
  removed_log c k r = elim r.entry [
    | none ↦ if k.0 == c then text_length r.head_hash else 0
    | some v ↦ 0
  ]

  abbrev pub removed : Db → String → ℕ
  removed db c = sum_rows (removed_object c) db.objects + sum_rows (removed_log c) db.log

  object_sizes :
      (c : String) (k : ObjectKey) (r : ObjectRow)
      → object_size c k r + removed_object c k r ≡ documented_object c k r
  object_sizes c k r = ground arith

  log_sizes :
      (c : String) (k : SeqKey) (r : LogRow)
      → log_size c k r + removed_log c k r ≡ documented_log c k r
  log_sizes c k r = ground arith

  pub used-removed : (db : Db) (c : String) → used db c + removed db c ≡ documented db c
  unfolding used
  used-removed db c = omega (
    arith,
    sum_rows-add (object_size c) (removed_object c) (documented_object c) db.objects
        (object_sizes c),
    sum_rows-add (log_size c) (removed_log c) (documented_log c) db.log (log_sizes c),
  )
