-- ===== src/Wire/Query/Order.antt =====
-- The pairs of a canonical query (src/api/wire.rs) stand in strictly ascending order of their names.
use palla_sync.Prelude.{
  Bool, true, false, ◌≡◌, refl, inl, inr, List, [], ◌∷◌, arith, Bool-cases, nat_eq, ◌==◌, ltb, ◌&&◌,
  is_empty, if◌then◌else◌, subst,
}
use mathlib.Core.List.{Perm}
use mathlib.Core.List.Perm
use palla_sync.Error.{ok}
use palla_sync.Wire.Query.{
  Bytes, Pair, bytes_leb, bytes_beq, pair_leb, insert_pair, sort_pairs, repeats, decode_pairs,
  split_on, canonical_query,
}

bytes_beq-eq : (a b : Bytes) → bytes_beq a b ≡ true → a ≡ b
unfolding bytes_beq
bytes_beq-eq [] [] h = refl
bytes_beq-eq [] (y ∷ b) h = cc
bytes_beq-eq (x ∷ a) [] h = cc
bytes_beq-eq (x ∷ a) (y ∷ b) h = ground (arith, bytes_beq-eq a b)

bytes_beq_refl : (a : Bytes) → bytes_beq a a ≡ true
unfolding bytes_beq
bytes_beq_refl [] = refl
bytes_beq_refl (x ∷ a) = ground (arith, bytes_beq_refl a)

bytes_leb-total : (a b : Bytes) → bytes_leb a b ≡ false → bytes_leb b a ≡ true
unfolding bytes_leb
bytes_leb-total [] b h = cc
bytes_leb-total (x ∷ a) [] h = refl
bytes_leb-total (x ∷ a) (y ∷ b) h = ground (arith, bytes_leb-total a b)

-- Strictly below, as byte strings.
unfoldable pub bytes_ltb : Bytes → Bytes → Bool
bytes_ltb [] [] = false
bytes_ltb [] (y ∷ b) = true
bytes_ltb (x ∷ a) [] = false
bytes_ltb (x ∷ a) (y ∷ b) = if◌then◌else◌ (ltb x y) true ((x == y) && bytes_ltb a b)

bytes_ltb-intro :
    (a b : Bytes) → bytes_leb a b ≡ true → bytes_beq a b ≡ false → bytes_ltb a b ≡ true
unfolding bytes_leb bytes_beq bytes_ltb
bytes_ltb-intro [] [] h k = cc
bytes_ltb-intro [] (y ∷ b) h k = refl
bytes_ltb-intro (x ∷ a) [] h k = cc
bytes_ltb-intro (x ∷ a) (y ∷ b) h k = ground (arith, bytes_ltb-intro a b)

bytes_ltb_trans :
    (a b c : Bytes) → bytes_ltb a b ≡ true → bytes_ltb b c ≡ true → bytes_ltb a c ≡ true
unfolding bytes_ltb
bytes_ltb_trans [] [] c h k = cc
bytes_ltb_trans [] (y ∷ b) [] h k = cc
bytes_ltb_trans [] (y ∷ b) (z ∷ c) h k = refl
bytes_ltb_trans (x ∷ a) [] c h k = cc
bytes_ltb_trans (x ∷ a) (y ∷ b) [] h k = cc
bytes_ltb_trans (x ∷ a) (y ∷ b) (z ∷ c) h k = ground (arith, bytes_ltb_trans a b c)

bytes_beq_comm : (a b : Bytes) → bytes_beq a b ≡ bytes_beq b a
unfolding bytes_beq
bytes_beq_comm [] [] = refl
bytes_beq_comm [] (y ∷ b) = refl
bytes_beq_comm (x ∷ a) [] = refl
bytes_beq_comm (x ∷ a) (y ∷ b) = ground (arith, bytes_beq_comm a b)

pair_leb-total : (p q : Pair) → pair_leb p q ≡ false → pair_leb q p ≡ true
unfolding pair_leb
pair_leb-total (k, v) (k', v') h =
    ground (arith, bytes_beq_comm k k', bytes_leb-total v v', bytes_leb-total k k')

pair_leb-key :
    (p q : Pair) → pair_leb p q ≡ true → bytes_beq p.0 q.0 ≡ false → bytes_ltb p.0 q.0 ≡ true
unfolding pair_leb
pair_leb-key (k, v) (k', v') h n = bytes_ltb-intro k k' (ground arith) n

-- Each pair is at most the next.
abbrev IsSorted : List Pair → Type 0
IsSorted [] = Unit
IsSorted (p ∷ []) = Unit
IsSorted (p ∷ q ∷ ps) = (pair_leb p q ≡ true) × IsSorted (q ∷ ps)

insert_pair-IsSorted : (p : Pair) (qs : List Pair) → IsSorted qs → IsSorted (insert_pair p qs)
unfolding insert_pair
insert_pair-IsSorted p [] h = tt
insert_pair-IsSorted p (q ∷ []) h = ground (arith, pair_leb-total p q)
insert_pair-IsSorted p (q ∷ r ∷ rs) h =
    ground (arith, pair_leb-total p q, insert_pair-IsSorted p (r ∷ rs) h.1)

sort_pairs-IsSorted : (ps : List Pair) → IsSorted (sort_pairs ps)
unfolding sort_pairs
sort_pairs-IsSorted [] = tt
sort_pairs-IsSorted (p ∷ ps) = insert_pair-IsSorted p (sort_pairs ps) (sort_pairs-IsSorted ps)

-- The name is strictly below those of all the pairs.
abbrev pub IsBelow : Bytes → List Pair → Type 0
IsBelow k [] = Unit
IsBelow k (q ∷ qs) = (bytes_ltb k q.0 ≡ true) × IsBelow k qs

-- Each name is strictly below all that follow it, so no name is repeated.
abbrev pub IsAscending : List Pair → Type 0
IsAscending [] = Unit
IsAscending (p ∷ ps) = IsBelow p.0 ps × IsAscending ps

IsBelow-trans : (j k : Bytes) (qs : List Pair) → bytes_ltb j k ≡ true → IsBelow k qs → IsBelow j qs
IsBelow-trans j k [] h b = tt
IsBelow-trans j k (q ∷ qs) h b = (bytes_ltb_trans j k q.0 h b.0, IsBelow-trans j k qs h b.1)

IsAscending-intro : (ps : List Pair) → IsSorted ps → repeats ps ≡ false → IsAscending ps
unfolding repeats
IsAscending-intro [] h r = tt
IsAscending-intro (p ∷ []) h r = (tt, tt)
IsAscending-intro (p ∷ q ∷ ps) h r =
    let rest = IsAscending-intro (q ∷ ps) h.1 (ground arith) in
    let below = pair_leb-key p q h.0 (ground arith) in
    ((below, IsBelow-trans p.0 q.0 ps below rest.0), rest)

insert_pair-perm : (p : Pair) (qs : List Pair) → Perm (insert_pair p qs) (p ∷ qs)
unfolding insert_pair
insert_pair-perm p [] = Perm.refl (p ∷ [])
insert_pair-perm p (q ∷ qs) = elim (Bool-cases (pair_leb p q)) [
  | inl e ↦ rw e (Perm.refl (p ∷ q ∷ qs))
  | inr e ↦ rw e (Perm.trans (Perm.cons q (insert_pair-perm p qs)) (Perm.swap p q qs))
]

sort_pairs-perm : (ps : List Pair) → Perm (sort_pairs ps) ps
unfolding sort_pairs
sort_pairs-perm [] = Perm.refl []
sort_pairs-perm (p ∷ ps) =
    Perm.trans (insert_pair-perm p (sort_pairs ps)) (Perm.cons p (sort_pairs-perm ps))

-- An accepted query has exactly the decoded pairs of the text, each name strictly below the next:
-- no name stands twice.
pub canonical_query-IsAscending :
    (raw : Bytes) (q ps : List Pair)
    → is_empty raw ≡ false
    → decode_pairs ((split_on b'&' raw).0 ∷ (split_on b'&' raw).1) ≡ ok ps
    → canonical_query raw ≡ ok q
    → IsAscending q × Perm q ps
unfolding canonical_query
canonical_query-IsAscending raw q ps ne d h = elim (Bool-cases (repeats (sort_pairs ps))) [
  | inl e ↦ absurd (ground (arith, e, d, ne))
  | inr e ↦
      let same : sort_pairs ps ≡ q = ground (arith, e, d, ne) in
      subst (λ l. IsAscending l × Perm l ps) same
        (IsAscending-intro (sort_pairs ps) (sort_pairs-IsSorted ps) e, sort_pairs-perm ps)
]
