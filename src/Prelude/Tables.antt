-- ===== src/Prelude/Tables.antt =====
-- Database tables as association lists from a primary key, and what SQL does to them. Rows are in no
-- particular order, as in SQL; a new row stands in front.
use Prim.Native.Nat.{ℕ, ◌≤◌, ◌<◌}
use mathlib.Core.Path.{◌≡◌, refl}
use mathlib.Core.Bool.{Bool, true, false}
use mathlib.Core.List.{List, [], ◌∷◌}
use mathlib.Core.Option.{Option, none, some}
use native.Mathlib.Omega.{arith}
use palla_sync.Prelude.Tests.{Equality, ◌==◌, if◌then◌else◌, is_some}

abbrev pub Table {ℓ} : Type ℓ → Type ℓ → Type ℓ
Table K V = List (K × V)

abbrev pub map_option {ℓ} : {V : Type ℓ} → (V → V) → Option V → Option V
map_option f none = none
map_option f (some v) = some (f v)

abbrev pub map_to {ℓ} : {V B : Type ℓ} → (V → B) → Option V → Option B
map_to f none = none
map_to f (some v) = some (f v)

module _ {ℓ} {K V : Type ℓ} ⦃e : Equality K⦄ where
  -- SELECT … WHERE the primary key is `k`
  unfoldable pub find_row : K → Table K V → Option V
  find_row k [] = none
  find_row k ((j, v) ∷ t) = if j == k then some v else find_row k t

  -- INSERT of a key that is not there
  abbrev pub add_row : K → V → Table K V → Table K V
  add_row k v t = (k, v) ∷ t

  -- UPDATE … WHERE the primary key is `k`
  unfoldable pub update_row : K → (V → V) → Table K V → Table K V
  update_row k f [] = []
  update_row k f ((j, v) ∷ t) = (j, if j == k then f v else v) ∷ update_row k f t

  -- INSERT … ON CONFLICT DO UPDATE
  unfoldable pub upsert : K → V → Table K V → Table K V
  upsert k v [] = (k, v) ∷ []
  upsert k v ((j, w) ∷ t) = let rest = upsert k v t in if j == k then (k, v) ∷ t else (j, w) ∷ rest

  -- UPDATE … WHERE
  unfoldable pub update_rows : (K → V → Bool) → (V → V) → Table K V → Table K V
  update_rows p f [] = []
  update_rows p f ((j, v) ∷ t) = (j, if p j v then f v else v) ∷ update_rows p f t

  -- DELETE … WHERE
  unfoldable pub delete_rows : (K → V → Bool) → Table K V → Table K V
  delete_rows p [] = []
  delete_rows p ((j, v) ∷ t) = let rest = delete_rows p t in if p j v then rest else (j, v) ∷ rest

  -- SELECT COUNT(*) … WHERE
  unfoldable pub count_rows : (K → V → Bool) → Table K V → ℕ
  count_rows p [] = 0
  count_rows p ((j, v) ∷ t) = if p j v then ℕ.suc (count_rows p t) else count_rows p t

  -- SELECT … WHERE
  unfoldable pub select_rows : (K → V → Bool) → Table K V → Table K V
  select_rows p [] = []
  select_rows p ((j, v) ∷ t) = let rest = select_rows p t in if p j v then (j, v) ∷ rest else rest

  pub find_row-add_row :
      (k j : K) (v : V) (t : Table K V)
      → find_row j (add_row k v t) ≡ (if k == j then some v else find_row j t)
  unfolding find_row
  find_row-add_row k j v t = refl

  pub find_row-update_row :
      (k j : K) (f : V → V) (t : Table K V)
      → find_row j (update_row k f t)
        ≡ (if k == j then map_option f (find_row j t) else find_row j t)
  unfolding find_row update_row
  find_row-update_row k j f [] = ground arith
  find_row-update_row k j f ((i, v) ∷ t) = ground (
    arith,
    find_row-update_row k j f t,
    e.decides {x = i} {y = k},
    e.decides {x = i} {y = j},
    e.decides {x = k} {y = j},
  )

  pub find_row-upsert :
      (k j : K) (v : V) (t : Table K V)
      → find_row j (upsert k v t) ≡ (if k == j then some v else find_row j t)
  unfolding find_row upsert
  find_row-upsert k j v [] = refl
  find_row-upsert k j v ((i, w) ∷ t) = ground (
    arith,
    find_row-upsert k j v t,
    e.decides {x = i} {y = k},
    e.decides {x = i} {y = j},
    e.decides {x = k} {y = j},
  )

  -- An update that leaves the row of `k` alone.
  pub find_row-update_rows :
      (k : K) (p : K → V → Bool) (f : V → V) (t : Table K V)
      → ((v : V) → p k v ≡ false)
      → find_row k (update_rows p f t) ≡ find_row k t
  unfolding find_row update_rows
  find_row-update_rows k p f [] h = refl
  find_row-update_rows k p f ((i, v) ∷ t) h =
      ground (arith, find_row-update_rows k p f t h, e.decides {x = i} {y = k}, h v)

  -- A new key changes no row that is there.
  pub find_row-new :
      (k j : K) (u v : V) (t : Table K V)
      → find_row k t ≡ some u
      → is_some (find_row j t) ≡ false
      → find_row k (add_row j v t) ≡ some u
  unfolding find_row
  find_row-new k j u v t h new = ground (arith, h, new, e.decides {x = j} {y = k})

  -- A row that the condition does not name is not deleted.
  pub find_row-delete_rows :
      (k : K) (u : V) (p : K → V → Bool) (t : Table K V)
      → p k u ≡ false
      → find_row k t ≡ some u
      → find_row k (delete_rows p t) ≡ some u
  unfolding find_row delete_rows
  find_row-delete_rows k u p [] keep h = cc
  find_row-delete_rows k u p ((j, v) ∷ t) keep h =
      ground (arith, find_row-delete_rows k u p t keep, e.decides {x = j} {y = k})

  -- An update that keeps a part of each row keeps that part of what is found.
  pub update_rows-part :
      {B : Type ℓ} (g : V → B) (k : K) (p : K → V → Bool) (f : V → V) (t : Table K V)
      → ((v : V) → g (f v) ≡ g v)
      → map_to g (find_row k (update_rows p f t)) ≡ map_to g (find_row k t)
  unfolding find_row update_rows
  update_rows-part g k p f [] h = refl
  update_rows-part g k p f ((i, v) ∷ t) h =
      ground (arith, update_rows-part g k p f t h, h v, e.decides {x = i} {y = k})

  pub count_rows_mono :
      (p q : K → V → Bool) (t : Table K V)
      → ((j : K) (u : V) → q j u ≡ true → p j u ≡ true)
      → count_rows q t ≤ count_rows p t
  unfolding count_rows
  count_rows_mono p q [] h = omega arith
  count_rows_mono p q ((i, v) ∷ t) h = ground (arith, count_rows_mono p q t h, h i v)

  -- A condition that excludes the row of `k` besides holds of fewer rows.
  pub count_rows-lt :
      (p q : K → V → Bool) (k : K) (v : V) (t : Table K V)
      → ((j : K) (u : V) → q j u ≡ true → p j u ≡ true)
      → find_row k t ≡ some v
      → p k v ≡ true
      → q k v ≡ false
      → count_rows q t < count_rows p t
  unfolding count_rows find_row
  count_rows-lt p q k v [] h found yes_p no_q = cc
  count_rows-lt p q k v ((i, u) ∷ t) h found yes_p no_q =
      ground (
        arith,
        count_rows_mono p q t h,
        count_rows-lt p q k v t h,
        h i u,
        e.decides {x = i} {y = k},
      )

  -- After a deletion only rows that the condition does not name are found.
  pub find_row-deleted :
      (k : K) (p : K → V → Bool) (t : Table K V)
      → ((u : V) → p k u ≡ true)
      → find_row k (delete_rows p t) ≡ none
  unfolding find_row delete_rows
  find_row-deleted k p [] h = refl
  find_row-deleted k p ((i, u) ∷ t) h =
      ground (arith, find_row-deleted k p t h, h u, e.decides {x = i} {y = k})

  pub find_row-kept :
      (k : K) (p : K → V → Bool) (t : Table K V)
      → ((u : V) → p k u ≡ false)
      → find_row k (delete_rows p t) ≡ find_row k t
  unfolding find_row delete_rows
  find_row-kept k p [] h = refl
  find_row-kept k p ((i, u) ∷ t) h =
      ground (arith, find_row-kept k p t h, h u, e.decides {x = i} {y = k})

  -- A deletion leaves no row that it names, and none that was not there.
  pub count_rows-deleted : (p : K → V → Bool) (t : Table K V) → count_rows p (delete_rows p t) ≡ 0
  unfolding count_rows delete_rows
  count_rows-deleted p [] = refl
  count_rows-deleted p ((i, v) ∷ t) = ground (arith, count_rows-deleted p t)

  -- What an insertion has changed is the row of its key.
  pub delete_rows-upsert :
      (p : K → V → Bool) (k : K) (v : V) (t : Table K V)
      → ((u : V) → p k u ≡ true)
      → delete_rows p (upsert k v t) ≡ delete_rows p t
  unfolding delete_rows upsert
  delete_rows-upsert p k v [] h = ground (arith, h v)
  delete_rows-upsert p k v ((i, u) ∷ t) h =
      ground (arith, delete_rows-upsert p k v t h, h u, h v, e.decides {x = i} {y = k})

  pub count_rows-delete_rows :
      (p q : K → V → Bool) (t : Table K V) → count_rows p t ≡ 0 → count_rows p (delete_rows q t) ≡ 0
  unfolding count_rows delete_rows
  count_rows-delete_rows p q [] h = refl
  count_rows-delete_rows p q ((i, v) ∷ t) h = ground (arith, count_rows-delete_rows p q t)

  pub select_rows-delete_rows :
      (p q : K → V → Bool) (t : Table K V)
      → ((k : K) (v : V) → p k v ≡ true → q k v ≡ false)
      → select_rows p (delete_rows q t) ≡ select_rows p t
  unfolding select_rows delete_rows
  select_rows-delete_rows p q [] h = refl
  select_rows-delete_rows p q ((i, v) ∷ t) h =
      ground (arith, select_rows-delete_rows p q t h, h i v)

  pub count_rows-select_rows :
      (p q : K → V → Bool) (t : Table K V) → count_rows p t ≡ 0 → count_rows p (select_rows q t) ≡ 0
  unfolding count_rows select_rows
  count_rows-select_rows p q [] h = refl
  count_rows-select_rows p q ((i, v) ∷ t) h = ground (arith, count_rows-select_rows p q t)

  pub select_rows-none :
      (p : K → V → Bool) (t : Table K V) → count_rows p t ≡ 0 → select_rows p t ≡ []
  unfolding count_rows select_rows
  select_rows-none p [] h = refl
  select_rows-none p ((i, v) ∷ t) h = ground (arith, select_rows-none p t)
