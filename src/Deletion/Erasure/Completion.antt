-- ===== src/Deletion/Erasure/Completion.antt =====
-- `complete` of src/api/deletion.rs leaves no deletion that is not complete.
use palla_sync.Prelude.{
  ℕ, Bool, true, false, not, ◌&&◌, List, [], ◌∷◌, String, ◌≡◌, refl, arith, text_eq, nat_eq,
  pair_eq, contains, Table, count_rows, select_rows, update_row, ==_iff, and-eq_true, ap, sym, ◌∙◌,
  count_rows-select_rows, select_rows-none, ◌+◌,
}
use palla_sync.Json.{Value, ◌!◌, is_object, set_member, num, is_null}
use palla_sync.Json.Laws.{set_member-get, set_member-object}
use palla_sync.Error.{ok, internal_error}
use palla_sync.Crypto.Primitives.{External}
use palla_sync.Db.{World, Db, DeletionRow}
use palla_sync.Db.Action.{Action, gets, ◌>>=◌, transaction, require}
use palla_sync.Db.Inversion.{bind-ok, require-ok}
use palla_sync.Config.{RelayConfig}
use palla_sync.Deletion.Erasure.{
  is_incomplete, incomplete, keys_of, erase, completed_ledger, complete_row, complete_rows,
  complete, set_proof, is_open, keep_version, num, is_null, internal_error, complete_at, sign_relay,
  completed_receipt, delete_signing, write_proof, completed_proof,
}
use palla_sync.Deletion.Erasure.Laws.{erase-IsErased}
use palla_sync.Crypto.{sign_relay}
use palla_sync.Deletion.{delete_signing}

-- The proofs of deletions are objects that hold an object as their ledger, as `delete` makes them.
abbrev pub has_ledger : Value → Bool
has_ledger proof = is_object proof && is_object (proof ! "ledger")

-- The incomplete deletions of chains that are not listed.
abbrev is_left : List String → String → DeletionRow → Bool
is_left cs c r = is_incomplete c r && not (contains cs c)

abbrev pub is_bare : String → DeletionRow → Bool
is_bare c r = not (has_ledger r.proof)

left_none :
    (c : String) (cs : List String) (done : Value) (t : Table String DeletionRow)
    → is_open done ≡ false
    → count_rows (is_left (c ∷ cs)) t ≡ 0
    → count_rows (is_left cs) (update_row c (set_proof done) t) ≡ 0
unfolding count_rows update_row contains
left_none c cs done [] d h = refl
left_none c cs done ((k, r) ∷ t) d h =
    ground (arith, d, left_none c cs done t d, ==_iff k c, ==_iff c k)

left_selected :
    (t : Table String DeletionRow) (cs : List String)
    → ((c : String)
        → contains (keys_of (select_rows is_incomplete t)) c ≡ true
        → contains cs c ≡ true)
    → count_rows (is_left cs) t ≡ 0
unfolding count_rows select_rows contains
left_selected [] cs h = refl
left_selected ((k, r) ∷ t) cs h =
    let rest : count_rows (is_left cs) t ≡ 0 = left_selected t cs (λ c m. h c (ground arith)) in
    ground (arith, rest, h k, ==_iff k k)

pub transaction-ok :
    {A : Type 0} (m : Action A) (w : World) {a : A} {w' : World}
    → transaction m w ≡ (ok a, w')
    → m w ≡ (ok a, w')
unfolding transaction
transaction-ok m w h = ground arith

kept-left :
    (p : String → DeletionRow → Bool) (c : String) (proof : Value) (db : Db)
    → count_rows p db.deletions ≡ 0
    → count_rows p (keep_version c proof db).deletions ≡ 0
unfolding keep_version
kept-left p c proof db h = ground arith

module _ ⦃x : External⦄ where
  completed_ledger-closed :
      (ledger : Value) (t : ℕ)
      → is_object ledger ≡ true
      → (completed_ledger ledger t ! "completed_at_ms") ≡ num t
  unfolding completed_ledger
  completed_ledger-closed ledger t h =
      set_member-get (set_member ledger "completed_at_ms" (num t)) _ "receipt_hash"
        "completed_at_ms" (set_member-object ledger (num t) "completed_at_ms" h)
      ∙ set_member-get ledger (num t) "completed_at_ms" "completed_at_ms" h

  completed-closed :
      (proof receipt ledger : Value) (t : ℕ)
      → is_object proof ≡ true
      → is_object (proof ! "ledger") ≡ true
      → ledger ≡ completed_ledger (proof ! "ledger") t
      → is_open (set_member (set_member proof "ledger" ledger) "delete_receipt" receipt) ≡ false
  completed-closed proof receipt ledger t h l e =
      let kept : (set_member (set_member proof "ledger" ledger) "delete_receipt" receipt ! "ledger")
          ≡ ledger =
        set_member-get (set_member proof "ledger" ledger) receipt "delete_receipt" "ledger"
          (set_member-object proof ledger "ledger" h)
        ∙ set_member-get proof ledger "ledger" "ledger" h in
      ap (λ v. is_null (v ! "completed_at_ms")) (kept ∙ e)
      ∙ ap is_null (completed_ledger-closed (proof ! "ledger") t l)

  complete_at-left :
      (cfg : RelayConfig) (c : String) (cs : List String) (proof : Value) (time : ℕ) (w w' : World)
      {u : Unit {0}}
      → complete_at cfg c proof time w ≡ (ok u, w')
      → has_ledger proof ≡ true
      → count_rows (is_left (c ∷ cs)) w.deletions ≡ 0
      → count_rows (is_left cs) w'.deletions ≡ 0
  unfolding complete_at
  complete_at-left cfg c cs proof time w w' h l left =
      let (is_obj, is_led) = and-eq_true (is_object proof) (is_object (proof ! "ledger")) l in
      let ledger = completed_ledger (proof ! "ledger") time in
      let sealed =
        sign_relay cfg.key (completed_receipt (proof ! "delete_receipt") ledger) delete_signing in
      let b =
        bind-ok (require sealed internal_error)
          (λ receipt. write_proof c (completed_proof proof ledger receipt)) w h in
      let done = completed_proof proof ledger b.value in
      let closed = completed-closed proof b.value ledger time is_obj is_led refl in
      let (signed, before) = require-ok sealed internal_error w b.first in
      let after : w'.deletions ≡ update_row c (set_proof done) w.deletions =
        ground (arith, b.rest, before) in
      ground (arith, left_none c cs done w.deletions closed left, after)

  complete_row-left :
      (cfg : RelayConfig) (c : String) (cs : List String) (proof : Value) (w w' : World)
      {u : Unit {0}}
      → complete_row cfg c proof w ≡ (ok u, w')
      → has_ledger proof ≡ true
      → count_rows (is_left (c ∷ cs)) w.deletions ≡ 0
      → count_rows (is_left cs) w'.deletions ≡ 0
  unfolding complete_row
  complete_row-left cfg c cs proof w w' h l left =
      complete_at-left cfg c cs proof (w.time w.reads)
        (record w { db = keep_version c proof w.db; reads = w.reads + 1 }) w' h l
        (kept-left (is_left (c ∷ cs)) c proof w.db left)

  complete_rows-left :
      (cfg : RelayConfig) (rows : Table String DeletionRow) (w w' : World) {u : Unit {0}}
      → complete_rows cfg rows w ≡ (ok u, w')
      → count_rows is_bare rows ≡ 0
      → count_rows (is_left (keys_of rows)) w.deletions ≡ 0
      → count_rows (is_left []) w'.deletions ≡ 0
  unfolding complete_rows contains count_rows
  complete_rows-left cfg [] w w' h l left = ground (arith, h, left)
  complete_rows-left cfg ((c, r) ∷ rows) w w' h l left =
      let b = bind-ok (complete_row cfg c r.proof) _ w h in
      complete_rows-left cfg rows b.world w' b.rest (ground arith)
        (complete_row-left cfg c (keys_of rows) r.proof w b.world b.first (ground arith) left)

  left-incomplete :
      (t : Table String DeletionRow)
      → count_rows (is_left []) t ≡ 0
      → count_rows is_incomplete t ≡ 0
  unfolding count_rows contains
  left-incomplete [] h = refl
  left-incomplete ((c, r) ∷ t) h = ground (arith, left-incomplete t)

  complete_none :
      (busy : Bool) (cfg : RelayConfig) (w : World)
      → incomplete w.db ≡ []
      → complete busy cfg w ≡ (ok tt, w)
  unfolding complete erase transaction complete_rows
  complete_none busy cfg w e = rw (e, complete) (ground arith)

  -- Where the proofs of deletions hold a ledger, a `complete` that succeeds leaves no deletion that is
  -- not complete, and completing again, whatever SQLite answers, succeeds and changes nothing.
  pub complete-incomplete :
      (busy : Bool) (cfg : RelayConfig) (w w' : World)
      → count_rows is_bare w.deletions ≡ 0
      → complete busy cfg w ≡ (ok tt, w')
      → (incomplete w'.db ≡ []) × ((again : Bool) → complete again cfg w' ≡ (ok tt, w'))
  unfolding complete incomplete
  complete-incomplete busy cfg w w' l h =
      let b = bind-ok (erase busy) _ w h in
      let same : b.world.deletions ≡ w.deletions =
        ap (λ p. p.1.deletions) (sym b.first) ∙ (erase-IsErased busy w).1.1.deletions in
      let rest = transaction-ok (gets incomplete >>= complete_rows cfg) b.world b.rest in
      let bare : count_rows is_bare b.world.deletions ≡ 0 = ap (count_rows is_bare) same ∙ l in
      let left =
        complete_rows-left cfg (incomplete b.world.db) b.world w' rest
          (count_rows-select_rows is_bare is_incomplete b.world.deletions bare)
          (left_selected b.world.deletions _ (λ c m. m)) in
      let none_left =
        select_rows-none is_incomplete w'.deletions (left-incomplete w'.deletions left) in
      (none_left, λ again. complete_none again cfg w' none_left)
