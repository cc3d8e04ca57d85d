-- ===== src/Read/Pages.antt =====
-- What a page of the log holds (`log` of src/api/read.rs): no row is passed over, and the bounds.
use palla_sync.Prelude.{
  refl, ℕ, Bool, Table, List, Option, true, ◌∷◌, some, not, ◌++◌, ◌≡◌, ◌≤◌, leb, false, subst, [],
  if◌then◌else◌, ◌&&◌, ◌+◌, length, arith, ap, sym, none, ◌||◌, Bool-cases, inr, inl,
}
use palla_sync.Crypto.Primitives.{External}
use palla_sync.Json.{Value}
use palla_sync.Error.{Result, ok, err}
use palla_sync.Read.Log.{push_entry, scan}
use palla_sync.Read.Listing.{item_size, fits}
use palla_sync.Read.{page_bytes}
use palla_sync.Db.{Chain}

-- The items of rows that are wanted.
abbrev pub wanted_of : (Value → Bool) → Table ℕ (Option Value) → List Value
wanted_of wanted [] = []
wanted_of wanted ((seq, none) ∷ rows) = wanted_of wanted rows
wanted_of wanted ((seq, some v) ∷ rows) =
    let rest = wanted_of wanted rows in if wanted v then v ∷ rest else rest

-- The number of the last row, or the one before the first.
abbrev pub last_seq : ℕ → Table ℕ (Option Value) → ℕ
last_seq position [] = position
last_seq position ((seq, v) ∷ rows) = last_seq seq rows

abbrev pub has_no : (Value → Bool) → List Value → Bool
has_no secret [] = true
has_no secret (v ∷ vs) = not (secret v) && has_no secret vs

module _ ⦃x : External⦄ where
  abbrev pub sizes : List Value → ℕ
  sizes [] = 0
  sizes (v ∷ vs) = item_size v + sizes vs

  -- There is no next row, or the next item that is wanted has no room.
  abbrev IsStopped : (Value → Bool) → ℕ → ℕ → ℕ → Table ℕ (Option Value) → Type 0
  IsStopped wanted limit count bytes [] = Unit {0}
  IsStopped wanted limit count bytes ((seq, none) ∷ rows) = ⊥
  IsStopped wanted limit count bytes ((seq, some v) ∷ rows) =
      (wanted v ≡ true) × (leb limit count || not (fits bytes v) ≡ true)

  -- A page is the wanted items of the first rows; the scan position is that of the last of these rows.
  pub record IsPage (wanted secret : Value → Bool) (limit count bytes position : ℕ)
      (rows : Table ℕ (Option Value)) (items : List Value) (last : ℕ) : Type 0 where
    pub before : Table ℕ (Option Value)
    pub after : Table ℕ (Option Value)
    pub split : before ++ after ≡ rows
    pub all_wanted : items ≡ wanted_of wanted before
    pub reached : last ≡ last_seq position before
    pub counted : count + length items ≤ limit
    pub sized : bytes + sizes items ≤ page_bytes
    pub readable : has_no secret items ≡ true
    pub stopped : IsStopped wanted limit (count + length items) (bytes + sizes items) after

  push_entry-ok :
      (v : Value) (r : Result (List Value × ℕ)) (items : List Value) (last : ℕ)
      → push_entry v r ≡ ok (items, last)
      → (rest : List Value) × (r ≡ ok (rest, last)) × (items ≡ v ∷ rest)
  push_entry-ok v (ok (rest, position)) items last h = (rest, ground (arith, h), ground (arith, h))
  push_entry-ok v (err e) items last h = cc

  module _ (wanted secret : Value → Bool) (limit : ℕ) where
    IsPage-over :
        (count bytes position seq : ℕ) (v : Value) (rows : Table ℕ (Option Value))
        (items : List Value) (last : ℕ)
        → wanted v ≡ false
        → IsPage wanted secret limit count bytes seq rows items last
        → IsPage wanted secret limit count bytes position ((seq, some v) ∷ rows) items last
    IsPage-over count bytes position seq v rows items last skip p = record {
      before = (seq, some v) ∷ p.before;
      after = p.after;
      split = ap (λ l. (seq, some v) ∷ l) p.split;
      all_wanted = ground (arith, skip, p.all_wanted);
      reached = p.reached;
      counted = p.counted;
      sized = p.sized;
      readable = p.readable;
      stopped = p.stopped;
    }

    IsStopped-shift :
        (count count₁ bytes bytes₁ : ℕ) (rows : Table ℕ (Option Value))
        → count ≡ count₁
        → bytes ≡ bytes₁
        → IsStopped wanted limit count bytes rows
        → IsStopped wanted limit count₁ bytes₁ rows
    IsStopped-shift count count₁ bytes bytes₁ rows e f h =
        subst (λ k. IsStopped wanted limit k bytes₁ rows) e
          (subst (λ k. IsStopped wanted limit count k rows) f h)

    IsPage-push :
        (count bytes position seq : ℕ) (v : Value) (rows : Table ℕ (Option Value))
        (items : List Value) (last : ℕ)
        → wanted v ≡ true
        → secret v ≡ false
        → IsPage wanted secret limit (count + 1) (bytes + item_size v) seq rows items last
        → IsPage wanted secret limit count bytes position ((seq, some v) ∷ rows) (v ∷ items) last
    IsPage-push count bytes position seq v rows items last w free p = record {
      before = (seq, some v) ∷ p.before;
      after = p.after;
      split = ap (λ l. (seq, some v) ∷ l) p.split;
      all_wanted = ground (arith, w, p.all_wanted);
      reached = p.reached;
      counted = omega (arith, p.counted);
      sized = omega (arith, p.sized);
      readable = ground (arith, free, p.readable);
      stopped =
          IsStopped-shift (count + 1 + length items) (count + length (v ∷ items))
            (bytes + item_size v + sizes items) (bytes + sizes (v ∷ items)) p.after (omega arith)
            (omega arith) p.stopped;
    }

    IsPage-empty :
        (count bytes position : ℕ) (rows : Table ℕ (Option Value))
        → count ≤ limit
        → bytes ≤ page_bytes
        → IsStopped wanted limit count bytes rows
        → IsPage wanted secret limit count bytes position rows [] position
    IsPage-empty count bytes position rows c b h = record {
      before = [];
      after = rows;
      split = refl;
      all_wanted = refl;
      reached = refl;
      counted = omega arith;
      sized = omega arith;
      readable = refl;
      stopped =
          IsStopped-shift count (count + 0) bytes (bytes + 0) rows (omega arith) (omega arith) h;
    }

    at_start :
        {count bytes position : ℕ} {rows : Table ℕ (Option Value)} (items : List Value) (last : ℕ)
        → items ≡ []
        → last ≡ position
        → IsPage wanted secret limit count bytes position rows [] position
        → IsPage wanted secret limit count bytes position rows items last
    at_start {count} {bytes} {position} {rows} items last e f p =
        subst (λ l. IsPage wanted secret limit count bytes position rows l last) (sym e)
          (subst (IsPage wanted secret limit count bytes position rows []) (sym f) p)

    scan-IsPage :
        (c : Chain) (count bytes position : ℕ) (rows : Table ℕ (Option Value)) (items : List Value)
        (last : ℕ)
        → count ≤ limit
        → bytes ≤ page_bytes
        → scan c wanted secret limit count bytes position rows ≡ ok (items, last)
        → IsPage wanted secret limit count bytes position rows items last
    unfolding scan
    scan-IsPage c count bytes position [] items last cl bl h =
        let empty = IsPage-empty count bytes position [] cl bl tt in
        at_start items last (ground (arith, h)) (ground (arith, h)) empty
    scan-IsPage c count bytes position ((seq, none) ∷ rows) items last cl bl h = cc
    scan-IsPage c count bytes position ((seq, some v) ∷ rows) items last cl bl h =
        elim (Bool-cases (wanted v)) [
          | inr skip ↦
              IsPage-over count bytes position seq v rows items last skip
                (scan-IsPage c count bytes seq rows items last cl bl (ground (arith, h, skip)))
          | inl w ↦ elim (Bool-cases (leb limit count || not (fits bytes v))) [
            | inl full ↦
                at_start items last (ground (arith, h, w, full)) (ground (arith, h, w, full))
                  (IsPage-empty count bytes position ((seq, some v) ∷ rows) cl bl (w, full))
            | inr room ↦ elim (Bool-cases (secret v)) [
              | inl hidden ↦ absurd (ground (arith, h, w, room, hidden))
              | inr free ↦
                  let taken =
                    scan c wanted secret limit (count + 1) (bytes + item_size v) seq rows in
                  let (rest, e, split) =
                    push_entry-ok v taken items last (ground (arith, h, w, room, free)) in
                  subst
                    (λ l.
                      IsPage wanted secret limit count bytes position ((seq, some v) ∷ rows) l last)
                    (sym split)
                    (IsPage-push count bytes position seq v rows rest last w free (
                      scan-IsPage c (count + 1) (bytes + item_size v) seq rows rest last
                        (ground (arith, room)) (ground (arith, room)) e))
            ]
          ]
        ]

-- A page that the loop of `log` returns holds the wanted items of the first rows, none of them passed
-- over, up to the row that its position says; it is within its limit and its bytes, it holds nothing
-- that the reader must not see, and it ends only where there is no row left or no room for the next
-- wanted item.
pub scan-IsPage_whole :
    ⦃x : External⦄ (c : Chain) (wanted secret : Value → Bool) (limit position : ℕ)
    (rows : Table ℕ (Option Value)) (items : List Value) (last : ℕ)
    → scan c wanted secret limit 0 0 position rows ≡ ok (items, last)
    → IsPage wanted secret limit 0 0 position rows items last
scan-IsPage_whole c wanted secret limit position rows items last h =
    scan-IsPage wanted secret limit c 0 0 position rows items last (omega arith) (omega arith) h
