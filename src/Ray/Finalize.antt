-- ===== src/Ray/Finalize.antt =====
-- horovod/ray/runner.py, finalize_registration: the place of every worker.
use horovod.Common.{
  ℕ, zero, suc, ◌+◌, ◌≡◌, refl, sym, subst, ◌∙◌, String, false, some, List, [], ◌∷◌, ◌++◌, length,
  get_elem?, rank_key, arith, All, append_assoc,
}
use horovod.Common.Dict.{
  Dict, contains, contains-append, lookup, insert, lookup-insert, lookup-insert_self, Nodup,
}
use horovod.Ray.{
  Coordinator, or_zero, Crosses, count_nodes, Place, place_node, place_nodes, finalize_registration,
}
use horovod.Ray.Counting.{
  tall, all_ranks, sizes-count_nodes, crosses-count_nodes, apart, Nodup-append_left,
  Nodup-append_right,
}

abbrev pub place_at : ℕ → ℕ → ℕ → ℕ → Place
place_at cross n l size = record {
  cross_rank = cross;
  cross_size = n;
  local_rank = l;
  local_size = size;
}

module _ (s : Crosses) where
  -- Every rank has been counted.
  abbrev Counted : List ℕ → Type 0
  Counted ranks = All (λ r. (c : ℕ) × (lookup r s.1 ≡ some c)) ranks

  abbrev HereFrom : ℕ → ℕ → List ℕ → Dict ℕ Place → Type 0
  HereFrom size l ranks p =
      (i rank cross : ℕ)
      → get_elem? ranks i ≡ some rank
      → lookup rank s.1 ≡ some cross
      → lookup rank p ≡ some (place_at cross (or_zero (lookup (l + i) s.0)) (l + i) size)

  here_cons :
      (size l r k : ℕ) (ranks : List ℕ) (p : Dict ℕ Place)
      → lookup r p ≡ some (place_at k (or_zero (lookup l s.0)) l size)
      → lookup r s.1 ≡ some k
      → HereFrom size (suc l) ranks p
      → HereFrom size l (r ∷ ranks) p
  here_cons size l r k ranks p own counted rest zero rank cross e c =
      let same : r ≡ rank = cc in
      let z : l + 0 ≡ l = omega arith in
      let both : some k ≡ some cross = sym counted ∙ rw (same) c in
      let crosses : k ≡ cross = cc in rw (z, ← same, ← crosses) own
  here_cons size l r k ranks p own counted rest (suc i) rank cross e c =
      let moved : l + suc i ≡ suc l + i = omega arith in rw (moved) (rest i rank cross e c)

  -- The places p after a node, of local ranks from l on, and the places before it.
  record Placed (size l : ℕ) (ranks : List ℕ) (places p : Dict ℕ Place) : Type 0 where
    other : (rank : ℕ) → contains rank ranks ≡ false → lookup rank p ≡ lookup rank places
    here : HereFrom size l ranks p

  place_node-Placed :
      (size l : ℕ) (ranks : List ℕ) (places : Dict ℕ Place)
      → Nodup ranks
      → Counted ranks
      → (p : Dict ℕ Place) × (place_node s size l ranks places ≡ some p)
        × Placed size l ranks places p
  unfolding place_node contains
  place_node-Placed size l [] places nd all =
      (places, refl, record { other = λ rank c. refl; here = λ i rank cross e. cc })
  place_node-Placed size l (r ∷ ranks) places (fresh, nd) ((k, ck), all) =
      let mine = place_at k (or_zero (lookup l s.0)) l size in
      let (p, f, rest) = place_node-Placed size (suc l) ranks (insert r mine places) nd all in
      let own : lookup r p ≡ some mine = rest.other r fresh ∙ lookup-insert_self r mine places in
      (
        p,
        rw (ck) f,
        record {
          other = λ rank c. ground (arith, rest.other rank, lookup-insert r rank mine places, c);
          here = here_cons size l r k ranks p own ck rest.here;
        },
      )

  abbrev AllCounted : Dict String (List ℕ) → Type 0
  AllCounted [] = Unit
  AllCounted ((node, ranks) ∷ nodes) = Counted ranks × AllCounted nodes

  placed_others :
      (nodes : Dict String (List ℕ)) (places : Dict ℕ Place)
      → Nodup (all_ranks nodes)
      → AllCounted nodes
      → (p : Dict ℕ Place) × (place_nodes s nodes places ≡ some p)
        × ((rank : ℕ)
            → contains rank (all_ranks nodes) ≡ false
            → lookup rank p ≡ lookup rank places)
  unfolding place_nodes all_ranks
  placed_others [] places nd all = (places, refl, λ rank c. refl)
  placed_others ((n, ranks) ∷ nodes) places nd (counted, all) =
      let (q, e, now) =
        place_node-Placed (length ranks) 0 ranks places
          (Nodup-append_left ranks (all_ranks nodes) nd) counted in
      let (p, f, later) =
        placed_others nodes q (Nodup-append_right ranks (all_ranks nodes) nd) all in
      (
        p,
        rw (e) f,
        λ rank c.
            ground
              (arith, later rank, now.other rank, contains-append rank ranks (all_ranks nodes), c),
      )

  -- A worker is at its place after its node has been placed, and later nodes do not move it.
  place_nodes-at :
      (before after : Dict String (List ℕ)) (node : String) (ranks : List ℕ) (places : Dict ℕ Place)
      → Nodup (all_ranks (before ++ (node, ranks) ∷ after))
      → AllCounted (before ++ (node, ranks) ∷ after)
      → (l rank cross : ℕ) → get_elem? ranks l ≡ some rank
      → lookup rank s.1 ≡ some cross
      → (p : Dict ℕ Place) × (place_nodes s (before ++ (node, ranks) ∷ after) places ≡ some p)
        × (lookup rank p ≡ some (place_at cross (or_zero (lookup l s.0)) l (length ranks)))
  unfolding place_nodes all_ranks
  place_nodes-at [] after node ranks places nd (counted, all) l rank cross e c =
      let nd_ranks = Nodup-append_left ranks (all_ranks after) nd in
      let (q, f, now) = place_node-Placed (length ranks) 0 ranks places nd_ranks counted in
      let (p, g, later) =
        placed_others after q (Nodup-append_right ranks (all_ranks after) nd) all in
      let z : 0 + l ≡ l = omega arith in
      (
        p,
        rw (f) g,
        later rank (apart rank l ranks (all_ranks after) nd e)
            ∙ now.here l rank cross e c
            ∙ rw (z) refl,
      )
  place_nodes-at ((n, rs) ∷ before) after node ranks places nd (counted, all) l rank cross e c =
      let nodes = before ++ (node, ranks) ∷ after in
      let (q, f, _) =
        place_node-Placed (length rs) 0 rs places (Nodup-append_left rs (all_ranks nodes) nd)
          counted in
      let (p, g, at_place) =
        place_nodes-at before after node ranks q (Nodup-append_right rs (all_ranks nodes) nd) all l
          rank cross e c in
      (p, rw (f) g, at_place)

All-positions {κ} :
    (P : ℕ → Type κ) (xs : List ℕ) → ((i x : ℕ) → get_elem? xs i ≡ some x → P x) → All P xs
All-positions P [] f = tt
All-positions P (x ∷ xs) f = (f 0 x refl, All-positions P xs (λ i y e. f (suc i) y e))

AllCounted-count_nodes :
    (before nodes : Dict String (List ℕ))
    → Nodup (all_ranks (before ++ nodes))
    → AllCounted (count_nodes (before ++ nodes) ([], [])) nodes
AllCounted-count_nodes before [] nd = tt
AllCounted-count_nodes before ((node, ranks) ∷ nodes) nd =
    let s = count_nodes (before ++ (node, ranks) ∷ nodes) ([], []) in
    let moved = append_assoc before ((node, ranks) ∷ []) nodes in
    (
      All-positions (λ r. (c : ℕ) × (lookup r s.1 ≡ some c)) ranks
          (λ l rank e. (_, crosses-count_nodes rank l node ranks before nodes ([], []) nd e)),
      subst (λ ns. AllCounted (count_nodes ns ([], [])) nodes) moved
          (AllCounted-count_nodes (before ++ (node, ranks) ∷ []) nodes (rw (moved) nd)),
    )

-- The place of a worker when the world ranks are all different: its local rank is its position at the
-- node, its cross rank counts the earlier nodes with that many workers, and the cross size all such.
pub finalize_registration-place :
    (c : Coordinator) (before after : Dict String (List ℕ)) (node : String) (ranks : List ℕ)
    (l rank : ℕ)
    → c.node_id_by_rank ≡ before ++ (node, ranks) ∷ after
    → Nodup (all_ranks c.node_id_by_rank)
    → get_elem? ranks l ≡ some rank
    → (p : Dict ℕ Place) × (finalize_registration c ≡ some p)
      × (lookup rank p
          ≡ some (place_at (tall l before) (tall l c.node_id_by_rank) l (length ranks)))
unfolding finalize_registration lookup
finalize_registration-place c before after node ranks l rank split nd e =
    let nodes = before ++ (node, ranks) ∷ after in
    let nd2 : Nodup (all_ranks nodes) = rw split at nd in
    let s = count_nodes nodes ([], []) in
    let cross = crosses-count_nodes rank l node ranks before after ([], []) nd2 e in
    let (p, f, at_place) =
      place_nodes-at s before after node ranks [] nd2 (AllCounted-count_nodes [] nodes nd2) l rank
        (0 + tall l before) e cross in
    let sizes : or_zero (lookup l s.0) ≡ tall l nodes =
      sizes-count_nodes l nodes ([], []) ∙ omega arith in
    let z : 0 + tall l before ≡ tall l before = omega arith in
    (p, rw (split) f, at_place ∙ rw (split, sizes, z) refl)

-- No rank is missing: the second loop raises no KeyError.
pub finalize_registration_total :
    (c : Coordinator)
    → Nodup (all_ranks c.node_id_by_rank)
    → (p : Dict ℕ Place) × (finalize_registration c ≡ some p)
unfolding finalize_registration
finalize_registration_total c nd =
    let nodes = c.node_id_by_rank in
    let (p, e, _) =
      placed_others (count_nodes nodes ([], [])) nodes [] nd (AllCounted-count_nodes [] nodes nd) in
    (p, e)
