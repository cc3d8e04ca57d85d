-- ===== src/Tests/Rows.antt =====
-- Concrete runs of the theorem on bounded rows (src/api/store.rs).
use palla_sync.Prelude.{refl, ℕ, ◌*◌, ◌∷◌, [], ◌≡◌}
use palla_sync.Store.Rows.{bounded_rows-IsBounded, bounded_rows, IsBounded, bounded_from}
use palla_sync.Error.{err, ok, failed, payload_too_large}

abbrev size : ℕ → ℕ
size k = k * 1024 * 1024

-- Of three rows with 5, 3 and 1 MiB, the first two are returned.
two_rows : bounded_rows size (5 ∷ 3 ∷ 1 ∷ []) ≡ ok (5 ∷ 3 ∷ [])
unfolding bounded_rows bounded_from
two_rows = refl

too_large : bounded_rows size (9 ∷ []) ≡ err (failed payload_too_large)
unfolding bounded_rows bounded_from
too_large = refl

bounded_rows-IsBounded_example : IsBounded size 0 (5 ∷ 3 ∷ 1 ∷ []) (5 ∷ 3 ∷ [])
bounded_rows-IsBounded_example = bounded_rows-IsBounded size (5 ∷ 3 ∷ 1 ∷ []) (5 ∷ 3 ∷ []) two_rows
