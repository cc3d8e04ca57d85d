-- ===== src/Retention/Expiry.antt =====
-- `expire` of src/api/retention.rs: its loop over the epochs against one update of all of them.
use palla_sync.Prelude.{
  Equality, ℕ, Bool, true, false, ◌&&◌, ◌||◌, not, List, [], ◌∷◌, String, ◌≡◌, refl, arith, ap, sym,
  ◌∙◌, ◌==◌, leb, nat_eq, text_eq, pair_eq, contains, any, Table, update_row, update_rows,
  count_rows, select_rows, ==_iff, count_rows_mono,
}
use palla_sync.Error.{ok}
use palla_sync.Db.{kind_eq, Db, World, Chain, ObjectKey, ObjectRow, SeqKey, LogRow, HandoffRow}
use palla_sync.Retention.{
  expire, expire_epoch, expire_epochs, due_epochs, carries_envelope, is_envelope_of, drop_entry,
  drop_body, set_expired, row_epochs,
}

-- A handoff of the chain that is due.
abbrev is_due : String → ℕ → String × ℕ → HandoffRow → Bool
is_due c time k r = (k.0 == c) && leb r.due_at_ms time && not r.expired

-- An envelope of one of the epochs, and an entry of the log with one.
abbrev is_swept : String → List ℕ → ObjectKey → ObjectRow → Bool
is_swept c es k r = any (λ e. is_envelope_of c e k r) es

abbrev is_swept_entry : String → ℕ → List ℕ → SeqKey → LogRow → Bool
is_swept_entry c first es k r = any (λ e. carries_envelope c e first k r) es

-- What expiring at `time` has to do: no handoff is due any more, and exactly the envelopes of the epochs
-- that were due have lost their bodies, and their entries below the first available one theirs.
pub record IsExpired (c : Chain) (time : ℕ) (old db : Db) : Type 0 where
  none_due : count_rows (is_due c.chain_id time) db.handoffs ≡ 0
  objects :
      db.objects ≡ update_rows (is_swept c.chain_id (due_epochs c time old)) drop_body old.objects
  log :
      db.log
      ≡ update_rows
          (is_swept_entry c.chain_id c.min_available_seq (due_epochs c time old))
          drop_entry
          old.log
  others : db ≡ record old { handoffs = db.handoffs; objects = db.objects; log = db.log }

module _ {ℓ} {K V : Type ℓ} ⦃eq : Equality K⦄ where
  update_rows-none : (f : V → V) (t : Table K V) → update_rows (λ k v. false) f t ≡ t
  unfolding update_rows
  update_rows-none f [] = refl
  update_rows-none f ((k, v) ∷ t) = ap (λ r. (k, v) ∷ r) (update_rows-none f t)

  -- Two updates are one where what the first has updated is not updated again.
  update_rows-update_rows :
      (p q : K → V → Bool) (f : V → V) (t : Table K V)
      → ((k : K) (v : V) → p k (f v) ≡ false)
      → update_rows p f (update_rows q f t) ≡ update_rows (λ k v. q k v || p k v) f t
  unfolding update_rows
  update_rows-update_rows p q f [] h = refl
  update_rows-update_rows p q f ((k, v) ∷ t) h =
      ground (arith, update_rows-update_rows p q f t h, h k v)

swept_dropped :
    (c : String) (es : List ℕ) (k : ObjectKey) (r : ObjectRow)
    → is_swept c es k (drop_body r) ≡ false
unfolding any
swept_dropped c [] k r = refl
swept_dropped c (e ∷ es) k r = swept_dropped c es k r

entry_dropped :
    (c : String) (first : ℕ) (es : List ℕ) (k : SeqKey) (r : LogRow)
    → is_swept_entry c first es k (drop_entry r) ≡ false
unfolding any
entry_dropped c first [] k r = refl
entry_dropped c first (e ∷ es) k r = entry_dropped c first es k r

expire_epochs-objects :
    (c : Chain) (es : List ℕ) (db : Db)
    → (expire_epochs c es db).objects ≡ update_rows (is_swept c.chain_id es) drop_body db.objects
unfolding expire_epochs expire_epoch any
expire_epochs-objects c [] db = sym (update_rows-none drop_body db.objects)
expire_epochs-objects c (e ∷ es) db =
    expire_epochs-objects c es (expire_epoch c e db)
    ∙ update_rows-update_rows (is_swept c.chain_id es) (is_envelope_of c.chain_id e) drop_body
        db.objects (swept_dropped c.chain_id es)

expire_epochs-log :
    (c : Chain) (es : List ℕ) (db : Db)
    → (expire_epochs c es db).log
      ≡ update_rows (is_swept_entry c.chain_id c.min_available_seq es) drop_entry db.log
unfolding expire_epochs expire_epoch any
expire_epochs-log c [] db = sym (update_rows-none drop_entry db.log)
expire_epochs-log c (e ∷ es) db =
    expire_epochs-log c es (expire_epoch c e db)
    ∙ update_rows-update_rows (is_swept_entry c.chain_id c.min_available_seq es)
        (carries_envelope c.chain_id e c.min_available_seq) drop_entry db.log
        (entry_dropped c.chain_id c.min_available_seq es)

expire_epochs-others :
    (c : Chain) (es : List ℕ) (db : Db)
    → let db' = expire_epochs c es db in
      db' ≡ record db { handoffs = db'.handoffs; objects = db'.objects; log = db'.log }
unfolding expire_epochs expire_epoch
expire_epochs-others c [] db = refl
expire_epochs-others c (e ∷ es) db = expire_epochs-others c es (expire_epoch c e db)

-- A due handoff whose epoch is not listed.
abbrev is_pending : String → ℕ → List ℕ → String × ℕ → HandoffRow → Bool
is_pending c time es k r = is_due c time k r && not (contains es k.1)

pending-step :
    (c : String) (time e : ℕ) (es : List ℕ) (t : Table (String × ℕ) HandoffRow)
    → count_rows (is_pending c time (e ∷ es)) t ≡ 0
    → count_rows (is_pending c time es) (update_row (c, e) set_expired t) ≡ 0
unfolding count_rows update_row contains
pending-step c time e es [] h = refl
pending-step c time e es ((k, r) ∷ t) h =
    ground
      (arith, pending-step c time e es t, ==_iff k (c, e), ==_iff k.0 c, ==_iff k.1 e, ==_iff e k.1)

pending-due :
    (c : String) (time : ℕ) (t : Table (String × ℕ) HandoffRow) (es : List ℕ)
    → ((e : ℕ)
        → contains (row_epochs (select_rows (is_due c time) t)) e ≡ true
        → contains es e ≡ true)
    → count_rows (is_pending c time es) t ≡ 0
unfolding count_rows select_rows contains
pending-due c time [] es h = refl
pending-due c time ((k, r) ∷ t) es h =
    let rest : count_rows (is_pending c time es) t ≡ 0 =
      pending-due c time t es (λ e m. h e (ground arith)) in
    ground (arith, rest, h k.1, ==_iff k.1 k.1)

expire_epochs-due :
    (c : Chain) (time : ℕ) (es : List ℕ) (db : Db)
    → count_rows (is_pending c.chain_id time es) db.handoffs ≡ 0
    → count_rows (is_due c.chain_id time) (expire_epochs c es db).handoffs ≡ 0
unfolding expire_epochs expire_epoch contains
expire_epochs-due c time [] db h = ground (
  arith,
  h,
  count_rows_mono (is_pending c.chain_id time []) (is_due c.chain_id time) db.handoffs
      (λ k r d. ground (arith, d)),
)
expire_epochs-due c time (e ∷ es) db h =
    expire_epochs-due c time es (expire_epoch c e db)
      (pending-step c.chain_id time e es db.handoffs h)

-- expire succeeds. Behind it no handoff of the chain is due at the time it read, exactly the envelopes
-- of the epochs that were due have lost their bodies and, below the first available number, their entries
-- of the log, and the other tables are as they were.
pub expire-IsExpired :
    (c : Chain) (w : World)
    → ((expire c w).0 ≡ ok tt) × IsExpired c (w.time w.reads) w.db (expire c w).1.db
unfolding expire due_epochs
expire-IsExpired c w =
    let time = w.time w.reads in
    let es = due_epochs c time w.db in
    (
      refl,
      record {
        none_due =
            expire_epochs-due c time es w.db
              (pending-due c.chain_id time w.db.handoffs es (λ e m. m));
        objects = expire_epochs-objects c es w.db;
        log = expire_epochs-log c es w.db;
        others = expire_epochs-others c es w.db;
      },
    )
