-- ===== src/Deletion/Erasure/Laws.antt =====
-- What `erase` of src/api/deletion.rs leaves behind.
use palla_sync.Prelude.{
  Bool, true, false, List, [], ◌∷◌, String, ◌==◌, ◌≡◌, refl, arith, text_eq, nat_eq, pair_eq,
  contains, any, select, count_rows, count_rows-deleted, count_rows-delete_rows, select_rows,
  select_rows-delete_rows, Bool-cases, ==_iff, any-select, any-select_self, select-select, inl, sym,
  ◌∙◌, subst, inr,
}
use palla_sync.Db.{kind_eq, World, Db}
use palla_sync.Deletion.Erasure.{erase_chain, erase_chains, erase_all, erase, incomplete, keys_of}

-- Nothing of a chain is left in the tables that hold ciphertext or state.
pub record IsErased (c : String) (db : Db) : Type 0 where
  pub objects : count_rows (λ k r. k.0 == c) db.objects ≡ 0
  pub log : count_rows (λ k r. k.0 == c) db.log ≡ 0
  pub registry : count_rows (λ k r. k.0 == c) db.registry ≡ 0
  pub outcomes : count_rows (λ k r. k.0 == c) db.outcomes ≡ 0
  pub offers : count_rows (λ k r. k.0 == c) db.offers ≡ 0
  pub cursors : count_rows (λ k r. r.chain_id == c) db.cursors ≡ 0
  pub payload_nonces : count_rows (λ k r. k.0 == c) db.payload_nonces ≡ 0
  pub handoffs : count_rows (λ k r. k.0 == c) db.handoffs ≡ 0
  pub imports : any (λ k. k == c) db.imports ≡ false
  pub registry_history : any (λ h. h.0 == c) db.registry_history ≡ false

-- The rows of a chain are those that they were.
pub record IsUntouched (c : String) (old db : Db) : Type 0 where
  pub objects : select_rows (λ k r. k.0 == c) db.objects ≡ select_rows (λ k r. k.0 == c) old.objects
  pub log : select_rows (λ k r. k.0 == c) db.log ≡ select_rows (λ k r. k.0 == c) old.log
  pub registry :
      select_rows (λ k r. k.0 == c) db.registry ≡ select_rows (λ k r. k.0 == c) old.registry
  pub outcomes :
      select_rows (λ k r. k.0 == c) db.outcomes ≡ select_rows (λ k r. k.0 == c) old.outcomes
  pub offers : select_rows (λ k r. k.0 == c) db.offers ≡ select_rows (λ k r. k.0 == c) old.offers
  pub cursors :
      select_rows (λ k r. r.chain_id == c) db.cursors
      ≡ select_rows (λ k r. r.chain_id == c) old.cursors
  pub payload_nonces :
      select_rows (λ k r. k.0 == c) db.payload_nonces
      ≡ select_rows (λ k r. k.0 == c) old.payload_nonces
  pub handoffs :
      select_rows (λ k r. k.0 == c) db.handoffs ≡ select_rows (λ k r. k.0 == c) old.handoffs
  pub imports : select (λ k. k == c) db.imports ≡ select (λ k. k == c) old.imports
  pub registry_history :
      select (λ h. h.0 == c) db.registry_history ≡ select (λ h. h.0 == c) old.registry_history

-- What stays public of every chain: its row, receipts, transparency log, heads and deletion.
pub record IsPublished (old db : Db) : Type 0 where
  pub chains : db.chains ≡ old.chains
  pub receipts : db.receipts ≡ old.receipts
  pub transparency : db.transparency ≡ old.transparency
  pub heads : db.heads ≡ old.heads
  pub deletions : db.deletions ≡ old.deletions

erase_chain-IsErased : (c : String) (db : Db) → IsErased c (erase_chain c db)
unfolding erase_chain
erase_chain-IsErased c db = record {
  objects = count_rows-deleted _ db.objects;
  log = count_rows-deleted _ db.log;
  registry = count_rows-deleted _ db.registry;
  outcomes = count_rows-deleted _ db.outcomes;
  offers = count_rows-deleted _ db.offers;
  cursors = count_rows-deleted _ db.cursors;
  payload_nonces = count_rows-deleted _ db.payload_nonces;
  handoffs = count_rows-deleted _ db.handoffs;
  imports = any-select_self _ db.imports;
  registry_history = any-select_self _ db.registry_history;
}

erase_chain-IsErased_kept : (c j : String) (db : Db) → IsErased c db → IsErased c (erase_chain j db)
unfolding erase_chain
erase_chain-IsErased_kept c j db h = record {
  objects = count_rows-delete_rows _ _ db.objects h.objects;
  log = count_rows-delete_rows _ _ db.log h.log;
  registry = count_rows-delete_rows _ _ db.registry h.registry;
  outcomes = count_rows-delete_rows _ _ db.outcomes h.outcomes;
  offers = count_rows-delete_rows _ _ db.offers h.offers;
  cursors = count_rows-delete_rows _ _ db.cursors h.cursors;
  payload_nonces = count_rows-delete_rows _ _ db.payload_nonces h.payload_nonces;
  handoffs = count_rows-delete_rows _ _ db.handoffs h.handoffs;
  imports = any-select _ _ db.imports h.imports;
  registry_history = any-select _ _ db.registry_history h.registry_history;
}

erase_chains-IsErased_kept :
    (c : String) (cs : List String) (db : Db) → IsErased c db → IsErased c (erase_chains cs db)
unfolding erase_chains
erase_chains-IsErased_kept c [] db h = h
erase_chains-IsErased_kept c (j ∷ cs) db h =
    erase_chains-IsErased_kept c cs (erase_chain j db) (erase_chain-IsErased_kept c j db h)

erase_chains-IsErased :
    (c : String) (cs : List String) (db : Db)
    → contains cs c ≡ true
    → IsErased c (erase_chains cs db)
unfolding erase_chains contains
erase_chains-IsErased c [] db h = cc
erase_chains-IsErased c (j ∷ cs) db h = elim (Bool-cases (j == c)) [
  | inl same ↦ erase_chains-IsErased_kept c cs (erase_chain j db) (
      subst (λ i. IsErased c (erase_chain i db)) (sym ((==_iff j c).0 same))
        (erase_chain-IsErased c db))
  | inr other ↦ erase_chains-IsErased c cs (erase_chain j db) (ground (arith, h, other))
]

apart : (c j i : String) → (j == c) ≡ false → (i == c) ≡ true → (i == j) ≡ false
apart c j i h same = ground (arith, ==_iff j c, ==_iff i c, ==_iff i j)

erase_chain-IsUntouched :
    (c j : String) (old db : Db)
    → (j == c) ≡ false
    → IsUntouched c old db
    → IsUntouched c old (erase_chain j db)
unfolding erase_chain
erase_chain-IsUntouched c j old db d h = record {
  objects = select_rows-delete_rows _ _ db.objects (λ k r. apart c j k.0 d) ∙ h.objects;
  log = select_rows-delete_rows _ _ db.log (λ k r. apart c j k.0 d) ∙ h.log;
  registry = select_rows-delete_rows _ _ db.registry (λ k r. apart c j k.0 d) ∙ h.registry;
  outcomes = select_rows-delete_rows _ _ db.outcomes (λ k r. apart c j k.0 d) ∙ h.outcomes;
  offers = select_rows-delete_rows _ _ db.offers (λ k r. apart c j k.0 d) ∙ h.offers;
  cursors = select_rows-delete_rows _ _ db.cursors (λ k r. apart c j r.chain_id d) ∙ h.cursors;
  payload_nonces =
      select_rows-delete_rows _ _ db.payload_nonces (λ k r. apart c j k.0 d) ∙ h.payload_nonces;
  handoffs = select_rows-delete_rows _ _ db.handoffs (λ k r. apart c j k.0 d) ∙ h.handoffs;
  imports = select-select _ _ db.imports (λ k. apart c j k d) ∙ h.imports;
  registry_history =
      select-select _ _ db.registry_history (λ k. apart c j k.0 d) ∙ h.registry_history;
}

IsUntouched-self : (c : String) (db : Db) → IsUntouched c db db
IsUntouched-self c db = record {
  objects = refl;
  log = refl;
  registry = refl;
  outcomes = refl;
  offers = refl;
  cursors = refl;
  payload_nonces = refl;
  handoffs = refl;
  imports = refl;
  registry_history = refl;
}

erase_chains-IsUntouched :
    (c : String) (cs : List String) (old db : Db)
    → contains cs c ≡ false
    → IsUntouched c old db
    → IsUntouched c old (erase_chains cs db)
unfolding erase_chains contains
erase_chains-IsUntouched c [] old db h u = u
erase_chains-IsUntouched c (j ∷ cs) old db h u =
    erase_chains-IsUntouched c cs old (erase_chain j db) (ground arith)
      (erase_chain-IsUntouched c j old db (ground arith) u)

erase_chains-IsPublished :
    (cs : List String) (old db : Db) → IsPublished old db → IsPublished old (erase_chains cs db)
unfolding erase_chains erase_chain
erase_chains-IsPublished [] old db h = h
erase_chains-IsPublished (j ∷ cs) old db h =
    erase_chains-IsPublished cs old (erase_chain j db) (record {
      chains = h.chains;
      receipts = h.receipts;
      transparency = h.transparency;
      heads = h.heads;
      deletions = h.deletions;
    })

erase-chains :
    (busy : Bool) (w : World) → (erase busy w).1.db ≡ erase_chains (keys_of (incomplete w.db)) w.db
unfolding erase erase_chains
erase-chains busy w = erased (keys_of (incomplete w.db))
  where
    erased : (cs : List String) → (erase_all busy cs w).1.db ≡ erase_chains cs w.db
    erased [] = refl
    erased (c ∷ cs) = ground arith

-- Whether or not SQLite grants the checkpoint, `erase` leaves nothing of a chain whose deletion is
-- not complete in the tables with ciphertext or state, leaves the rows of every other chain as they
-- were, and keeps the rows, receipts, transparency logs, heads and deletions of all chains.
pub erase-IsErased :
    (busy : Bool) (w : World)
    → ((c : String)
        → contains (keys_of (incomplete w.db)) c ≡ true
        → IsErased c (erase busy w).1.db)
      × (((c : String)
            → contains (keys_of (incomplete w.db)) c ≡ false
            → IsUntouched c w.db (erase busy w).1.db)
          × IsPublished w.db (erase busy w).1.db)
erase-IsErased busy w =
    let cs = keys_of (incomplete w.db) in
    let e = sym (erase-chains busy w) in
    (
      λ c h. subst (IsErased c) e (erase_chains-IsErased c cs w.db h),
      (
        λ c h.
            subst (IsUntouched c w.db) e
              (erase_chains-IsUntouched c cs w.db w.db h (IsUntouched-self c w.db)),
        subst (IsPublished w.db) e (
            erase_chains-IsPublished cs w.db w.db (record {
              chains = refl;
              receipts = refl;
              transparency = refl;
              heads = refl;
              deletions = refl;
            })),
      ),
    )
