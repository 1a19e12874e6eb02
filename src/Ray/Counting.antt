-- ===== src/Ray/Counting.antt =====
-- horovod/ray/runner.py, finalize_registration: what its first loop counts.
use horovod.Common.{
  ℕ, zero, suc, ◌+◌, ◌≡◌, refl, ap, ◌∙◌, String, Bool, false, ◌&&◌, some, List, [], ◌∷◌, ◌++◌,
  length, get_elem?, ltb, leb, eqb, eqb_iff, if◌then◌else◌, rank_key, arith,
}
use horovod.Common.Dict.{
  Dict, contains, contains-append, lookup, insert, lookup-insert, lookup-insert_self, Nodup,
}
use horovod.Ray.{or_zero, Crosses, count_node, count_nodes}

abbrev one : Bool → ℕ
one b = if b then 1 else 0

-- How many nodes have a worker of local rank l.
unfoldable pub tall : ℕ → Dict String (List ℕ) → ℕ
tall l [] = 0
tall l ((node, ranks) ∷ nodes) = one (ltb l (length ranks)) + tall l nodes

pub tall-append : (l : ℕ) (xs ys : Dict String (List ℕ)) → tall l (xs ++ ys) ≡ tall l xs + tall l ys
unfolding tall
tall-append l [] ys = omega arith
tall-append l ((n, r) ∷ xs) ys = omega (arith, tall-append l xs ys)

unfoldable pub all_ranks : Dict String (List ℕ) → List ℕ
all_ranks [] = []
all_ranks ((node, ranks) ∷ nodes) = ranks ++ all_ranks nodes

sizes-count_node :
    (l k : ℕ) (ranks : List ℕ) (s : Crosses)
    → or_zero (lookup l (count_node k ranks s).0)
      ≡ or_zero (lookup l s.0) + one (leb k l && ltb l (k + length ranks))
unfolding count_node
sizes-count_node l k [] s = ground arith
sizes-count_node l k (r ∷ ranks) (sizes, crosses) =
    let n = or_zero (lookup k sizes) in
    ground (
      arith,
      sizes-count_node l (suc k) ranks (insert k (n + 1) sizes, insert r n crosses),
      lookup-insert k l (n + 1) sizes,
      eqb_iff k l,
    )

pub sizes-count_nodes :
    (l : ℕ) (nodes : Dict String (List ℕ)) (s : Crosses)
    → or_zero (lookup l (count_nodes nodes s).0) ≡ or_zero (lookup l s.0) + tall l nodes
unfolding count_nodes tall
sizes-count_nodes l [] s = omega arith
sizes-count_nodes l ((n, ranks) ∷ nodes) s =
    ground (arith, sizes-count_nodes l nodes (count_node 0 ranks s), sizes-count_node l 0 ranks s)

crosses-count_node_other :
    (rank k : ℕ) (ranks : List ℕ) (s : Crosses)
    → contains rank ranks ≡ false
    → lookup rank (count_node k ranks s).1 ≡ lookup rank s.1
unfolding count_node contains
crosses-count_node_other rank k [] s c = refl
crosses-count_node_other rank k (r ∷ ranks) (sizes, crosses) c =
    let n = or_zero (lookup k sizes) in
    ground (
      arith,
      crosses-count_node_other rank (suc k) ranks (insert k (n + 1) sizes, insert r n crosses),
      lookup-insert r rank n crosses,
      c,
    )

crosses-count_node :
    (rank k i : ℕ) (ranks : List ℕ) (s : Crosses)
    → Nodup ranks
    → get_elem? ranks i ≡ some rank
    → lookup rank (count_node k ranks s).1 ≡ some (or_zero (lookup (k + i) s.0))
unfolding count_node
crosses-count_node rank k i [] s nd e = cc
crosses-count_node rank k zero (r ∷ ranks) (sizes, crosses) (c, nd) e =
    let n = or_zero (lookup k sizes) in
    let same : r ≡ rank = cc in
    let z : k + 0 ≡ k = omega arith in
    rw (z) (
      crosses-count_node_other rank (suc k) ranks (insert k (n + 1) sizes, insert r n crosses)
        (rw same at c)
      ∙ rw (same) (lookup-insert_self rank n crosses))
crosses-count_node rank k (suc i) (r ∷ ranks) (sizes, crosses) (c, nd) e =
    let n = or_zero (lookup k sizes) in
    let moved : suc k + i ≡ k + suc i = omega arith in
    let later : eqb k (k + suc i) ≡ false = ground arith in
    crosses-count_node rank (suc k) i ranks (insert k (n + 1) sizes, insert r n crosses) nd e
    ∙ rw (moved, lookup-insert k (k + suc i) (n + 1) sizes, later) refl

crosses-count_nodes_other :
    (rank : ℕ) (nodes : Dict String (List ℕ)) (s : Crosses)
    → contains rank (all_ranks nodes) ≡ false
    → lookup rank (count_nodes nodes s).1 ≡ lookup rank s.1
unfolding count_nodes all_ranks
crosses-count_nodes_other rank [] s c = refl
crosses-count_nodes_other rank ((n, ranks) ∷ nodes) s c = ground (
  arith,
  crosses-count_nodes_other rank nodes (count_node 0 ranks s),
  crosses-count_node_other rank 0 ranks s,
  contains-append rank ranks (all_ranks nodes),
  c,
)

pub Nodup-append_right : (xs ys : List ℕ) → Nodup (xs ++ ys) → Nodup ys
Nodup-append_right [] ys nd = nd
Nodup-append_right (x ∷ xs) ys (c, nd) = Nodup-append_right xs ys nd

pub Nodup-append_left : (xs ys : List ℕ) → Nodup (xs ++ ys) → Nodup xs
Nodup-append_left [] ys nd = tt
Nodup-append_left (x ∷ xs) ys (c, nd) =
    (ground (arith, contains-append x xs ys, c), Nodup-append_left xs ys nd)

pub apart :
    (rank i : ℕ) (xs ys : List ℕ)
    → Nodup (xs ++ ys)
    → get_elem? xs i ≡ some rank
    → contains rank ys ≡ false
apart rank i [] ys nd e = cc
apart rank zero (x ∷ xs) ys (c, nd) e =
    let same : x ≡ rank = cc in ground (arith, contains-append x xs ys, c)
apart rank (suc i) (x ∷ xs) ys (c, nd) e = apart rank i xs ys nd e

-- A worker of local rank l has as many workers of this local rank before it as nodes have one.
pub crosses-count_nodes :
    (rank l : ℕ) (node : String) (ranks : List ℕ) (before after : Dict String (List ℕ))
    (s : Crosses)
    → Nodup (all_ranks (before ++ (node, ranks) ∷ after))
    → get_elem? ranks l ≡ some rank
    → lookup rank (count_nodes (before ++ (node, ranks) ∷ after) s).1
      ≡ some (or_zero (lookup l s.0) + tall l before)
unfolding count_nodes all_ranks tall
crosses-count_nodes rank l node ranks [] after s nd e =
    let z : 0 + l ≡ l = omega arith in
    let none_before : or_zero (lookup l s.0) + 0 ≡ or_zero (lookup l s.0) = omega arith in
    crosses-count_nodes_other rank after (count_node 0 ranks s)
      (apart rank l ranks (all_ranks after) nd e)
    ∙ crosses-count_node rank 0 l ranks s (Nodup-append_left ranks (all_ranks after) nd) e
    ∙ rw (z, none_before) refl
crosses-count_nodes rank l node ranks ((n, rs) ∷ before) after s nd e =
    let rest =
      crosses-count_nodes rank l node ranks before after (count_node 0 rs s)
        (Nodup-append_right rs (all_ranks (before ++ (node, ranks) ∷ after)) nd) e in
    rest ∙ ap some (ground (arith, sizes-count_node l 0 rs s))
