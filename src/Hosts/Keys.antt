-- ===== src/Hosts/Keys.antt =====
-- No slot of a host is handed out twice.
use horovod.Common.{
  ℕ, suc, ◌<◌, String, ◌≡◌, refl, ap, false, Option, List, [], ◌∷◌, ◌++◌, length, arith, All, Key,
  rank_key, host_key, slot_key,
}
use horovod.Common.Dict.{Nodup, contains, contains-append, Nodup-append}
use horovod.Hosts.{HostInfo, SlotInfo, ok}
use horovod.Hosts.Assign.{HostRanks, get_host_assignments}
use horovod.Hosts.Columns.{rank_names}
use horovod.Hosts.Filling.{names, filling, rank_names-filling}
use horovod.Hosts.Spec.{spec_host, spec_list, world_of}
use horovod.Hosts.Ranks.{get_host_assignments-eq-ok}

-- (slot_info.hostname, slot_info.local_rank)
abbrev pub slot_keys : List SlotInfo → List (String × ℕ)
slot_keys [] = []
slot_keys (s ∷ slots) = (s.hostname, s.local_rank) ∷ slot_keys slots

pub slot_keys-append : (xs ys : List SlotInfo) → slot_keys (xs ++ ys) ≡ slot_keys xs ++ slot_keys ys
slot_keys-append [] ys = refl
slot_keys-append (x ∷ xs) ys = ap (λ t. (x.hostname, x.local_rank) ∷ t) (slot_keys-append xs ys)

module _ (world : ℕ) (all : HostRanks) where
  contains-spec_host_other :
      (before : HostRanks) (x y : String) (j n l : ℕ) (rs : List ℕ)
      → Key.same host_key y x ≡ false
      → contains (x, j) (slot_keys (spec_host world all before y n l rs)) ≡ false
  unfolding contains
  contains-spec_host_other before x y j n l [] ne = refl
  contains-spec_host_other before x y j n l (r ∷ rs) ne =
      ground (arith, contains-spec_host_other before x y j n (suc l) rs ne)

  contains-spec_host_below :
      (before : HostRanks) (x : String) (j n l : ℕ) (rs : List ℕ)
      → j < l
      → contains (x, j) (slot_keys (spec_host world all before x n l rs)) ≡ false
  unfolding contains
  contains-spec_host_below before x j n l [] h = refl
  contains-spec_host_below before x j n l (r ∷ rs) h =
      ground (arith, contains-spec_host_below before x j n (suc l) rs (omega arith))

  Nodup-spec_host :
      (before : HostRanks) (x : String) (n l : ℕ) (rs : List ℕ)
      → Nodup (slot_keys (spec_host world all before x n l rs))
  Nodup-spec_host before x n l [] = tt
  Nodup-spec_host before x n l (r ∷ rs) = (
    contains-spec_host_below before x l n (suc l) rs (omega arith),
    Nodup-spec_host before x n (suc l) rs,
  )

  contains-spec_list_other :
      (x : String) (j : ℕ) (before hr : HostRanks)
      → contains x (rank_names hr) ≡ false
      → contains (x, j) (slot_keys (spec_list world all before hr)) ≡ false
  unfolding contains
  contains-spec_list_other x j before [] c = refl
  contains-spec_list_other x j before ((h, ranks) ∷ hr) c =
      let mine = spec_host world all before h.hostname (length ranks) 0 ranks in
      let later = spec_list world all (before ++ (h, ranks) ∷ []) hr in
      rw (slot_keys-append, contains-append)
        (ground (
          arith,
          contains-spec_host_other before x h.hostname j (length ranks) 0 ranks,
          contains-spec_list_other x j (before ++ (h, ranks) ∷ []) hr,
        ))

  later_absent :
      (before hr : HostRanks) (x : String) (n l : ℕ) (rs : List ℕ) (b : HostRanks)
      → contains x (rank_names hr) ≡ false
      → All
          (λ k. contains k (slot_keys (spec_list world all b hr)) ≡ false)
          (slot_keys (spec_host world all before x n l rs))
  later_absent before hr x n l [] b c = tt
  later_absent before hr x n l (r ∷ rs) b c =
      (contains-spec_list_other x l b hr c, later_absent before hr x n (suc l) rs b c)

  Nodup-spec_list :
      (before hr : HostRanks)
      → Nodup (rank_names hr)
      → Nodup (slot_keys (spec_list world all before hr))
  Nodup-spec_list before [] nd = tt
  Nodup-spec_list before ((h, ranks) ∷ hr) (c, nd) =
      let b = before ++ (h, ranks) ∷ [] in
      rw slot_keys-append (
        Nodup-append (slot_keys (spec_host world all before h.hostname (length ranks) 0 ranks))
          (slot_keys (spec_list world all b hr))
          (Nodup-spec_host before h.hostname (length ranks) 0 ranks) (Nodup-spec_list b hr nd)
          (later_absent before hr h.hostname (length ranks) 0 ranks b c))

-- A host and a local rank name at most one of the assigned processes.
Nodup-get_host_assignments :
    (hosts : List HostInfo) (min_np : ℕ) (max_np : Option ℕ) (slots : List SlotInfo)
    → Nodup (names hosts)
    → get_host_assignments hosts min_np max_np ≡ ok slots
    → Nodup (slot_keys slots)
Nodup-get_host_assignments hosts min_np max_np slots nd h =
    let (e, enough) = get_host_assignments-eq-ok hosts min_np max_np slots nd h in
    let hr = filling max_np 0 hosts in
    rw e
      (Nodup-spec_list (world_of hosts max_np) hr [] hr (rw (rank_names-filling max_np 0 hosts) nd))
