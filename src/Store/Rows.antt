-- ===== src/Store/Rows.antt =====
-- `bounded_rows` of src/api/store.rs: the rows of a query up to 8 MiB of one of their columns, which
-- `size` measures.
use palla_sync.Prelude.{
  ℕ, ◌+◌, ◌*◌, ◌≤◌, ◌<◌, Bool, true, false, List, [], ◌∷◌, ◌++◌, ◌≡◌, refl, ap, inl, inr, arith,
  ltb, Bool-cases, if◌then◌else◌, subst, sym,
}
use palla_sync.Error.{Result, ok, err, throw, payload_too_large}

abbrev pub rows_max : ℕ
rows_max = 8 * 1024 * 1024

module _ {A : Type 0} where
  abbrev pub push_row : A → Result (List A) → Result (List A)
  push_row r (ok rs) = ok (r ∷ rs)
  push_row r (err e) = err e

  -- The loop, from the bytes of the rows before; the flag says whether there are none.
  unfoldable pub bounded_from : (A → ℕ) → Bool → ℕ → List A → Result (List A)
  bounded_from size first bytes [] = ok []
  bounded_from size first bytes (r ∷ rs) =
      let rest = push_row r (bounded_from size false (bytes + size r) rs) in
      let stop = if first then throw payload_too_large else ok [] in
      if ltb rows_max (bytes + size r) then stop else rest

  unfoldable pub bounded_rows : (A → ℕ) → List A → Result (List A)
  bounded_rows size rows = bounded_from size true 0 rows

  unfoldable pub total : (A → ℕ) → List A → ℕ
  total size [] = 0
  total size (r ∷ rs) = size r + total size rs

  -- There is nothing behind, or the next row would be too much.
  abbrev Stops : (A → ℕ) → ℕ → List A → Type 0
  Stops size bytes [] = Unit {0}
  Stops size bytes (r ∷ rs) = rows_max < bytes + size r

  -- The rows are a beginning of the query's, within the bound, and as long as they can be.
  pub record IsBounded (size : A → ℕ) (bytes : ℕ) (rows taken : List A) : Type 0 where
    pub rest : List A
    pub split : taken ++ rest ≡ rows
    pub within : bytes + total size taken ≤ rows_max
    pub longest : Stops size (bytes + total size taken) rest

  push_row-ok :
      (r : A) (rows : Result (List A)) (taken : List A)
      → push_row r rows ≡ ok taken
      → (rs : List A) × (rows ≡ ok rs) × (taken ≡ r ∷ rs)
  push_row-ok r (ok rs) taken h = (rs, refl, ground arith)
  push_row-ok r (err e) taken h = cc

  IsBounded-push :
      (size : A → ℕ) (bytes : ℕ) (r : A) (rows taken : List A)
      → IsBounded size (bytes + size r) rows taken
      → IsBounded size bytes (r ∷ rows) (r ∷ taken)
  unfolding total
  IsBounded-push size bytes r rows taken p =
      let same : bytes + size r + total size taken ≡ bytes + (size r + total size taken) =
        omega arith in
      record {
        rest = p.rest;
        split = ap (λ l. r ∷ l) p.split;
        within = omega (arith, p.within);
        longest = subst (λ k. Stops size k p.rest) same p.longest;
      }

  bounded_from-IsBounded :
      (size : A → ℕ) (first : Bool) (bytes : ℕ) (rows taken : List A)
      → bytes ≤ rows_max
      → bounded_from size first bytes rows ≡ ok taken
      → IsBounded size bytes rows taken
  unfolding bounded_from total
  bounded_from-IsBounded size first bytes [] taken b h =
      let e : taken ≡ [] = ground (arith, h) in
      subst (IsBounded size bytes []) (sym e)
        (record { rest = []; split = refl; within = omega arith; longest = tt })
  bounded_from-IsBounded size first bytes (r ∷ rs) taken b h =
      elim (Bool-cases (ltb rows_max (bytes + size r))) [
        | inl over ↦
            let e : taken ≡ [] = ground (arith, h, over) in
            subst (IsBounded size bytes (r ∷ rs)) (sym e) (record {
              rest = r ∷ rs;
              split = refl;
              within = omega arith;
              longest = ground (arith, over);
            })
        | inr fits ↦
            let (ts, more, e) =
              push_row-ok r (bounded_from size false (bytes + size r) rs) taken
                (ground (arith, h, fits)) in
            let p =
              bounded_from-IsBounded size false (bytes + size r) rs ts (ground (arith, fits))
                more in
            subst (IsBounded size bytes (r ∷ rs)) (sym e) (IsBounded-push size bytes r rs ts p)
      ]

  -- What bounded_rows returns is the longest beginning of the query's rows within the bound.
  pub bounded_rows-IsBounded :
      (size : A → ℕ) (rows taken : List A)
      → bounded_rows size rows ≡ ok taken
      → IsBounded size 0 rows taken
  unfolding bounded_rows
  bounded_rows-IsBounded size rows taken h =
      bounded_from-IsBounded size true 0 rows taken (omega arith) h
