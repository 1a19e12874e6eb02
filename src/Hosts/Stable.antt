-- ===== src/Hosts/Stable.antt =====
-- Processes keep their place when hosts are added behind the others.
use horovod.Common.{
  ℕ, suc, ◌+◌, String, ◌≡◌, refl, Option, append_assoc, List, [], ◌∷◌, ◌++◌, length, host_key,
}
use horovod.Common.Dict.{Nodup}
use horovod.Hosts.{HostInfo, SlotInfo, ok}
use horovod.Hosts.Assign.{HostRanks, get_host_assignments}
use horovod.Hosts.Columns.{room}
use horovod.Hosts.Filling.{names, filling}
use horovod.Hosts.Spec.{spec_host, spec_list, world_of}
use horovod.Hosts.Ranks.{get_host_assignments-eq-ok}

-- All of a slot but the sizes that count other hosts.
pub record Seat : Type 0 where
  pub hostname : String
  pub rank : ℕ
  pub local_rank : ℕ
  pub local_size : ℕ
  pub cross_rank : ℕ

abbrev pub seats : List SlotInfo → List Seat
seats [] = []
seats (s ∷ slots) =
    record {
      hostname = s.hostname;
      rank = s.rank;
      local_rank = s.local_rank;
      local_size = s.local_size;
      cross_rank = s.cross_rank;
    }
    ∷ seats slots

seats-append : (xs ys : List SlotInfo) → seats (xs ++ ys) ≡ seats xs ++ seats ys
seats-append [] ys = refl
seats-append (x ∷ xs) ys = rw (seats-append xs ys)

seats-spec_host :
    (w w' : ℕ) (all all' before : HostRanks) (x : String) (n l : ℕ) (rs : List ℕ)
    → seats (spec_host w all before x n l rs) ≡ seats (spec_host w' all' before x n l rs)
seats-spec_host w w' all all' before x n l [] = refl
seats-spec_host w w' all all' before x n l (r ∷ rs) =
    rw (seats-spec_host w w' all all' before x n (suc l) rs)

seats-spec_list :
    (w w' : ℕ) (all all' before hr more : HostRanks)
    → (rest : List Seat) × (seats (spec_list w' all' before (hr ++ more))
        ≡ seats (spec_list w all before hr) ++ rest)
seats-spec_list w w' all all' before [] more = (seats (spec_list w' all' before more), refl)
seats-spec_list w w' all all' before ((h, ranks) ∷ hr) more =
    let (rest, e) = seats-spec_list w w' all all' (before ++ (h, ranks) ∷ []) hr more in
    (
      rest,
      rw (
        seats-append,
        seats-append,
        e,
        seats-spec_host w w' all all' before h.hostname (length ranks) 0 ranks,
        append_assoc,
      ),
    )

filling-append :
    (max_np : Option ℕ) (r : ℕ) (hosts more : List HostInfo)
    → (rest : HostRanks) × (filling max_np r (hosts ++ more) ≡ filling max_np r hosts ++ rest)
filling-append max_np r [] more = (filling max_np r more, refl)
filling-append max_np r (h ∷ hosts) more =
    let (rest, e) = filling-append max_np (r + room max_np r h.slots) hosts more in (rest, rw e)

-- When hosts are added at the end of the order, every process of the old assignment keeps its host,
-- rank, local rank, local size and cross rank, and new processes come after the old ones.
pub get_host_assignments_stable :
    (hosts more : List HostInfo) (min_np : ℕ) (max_np : Option ℕ) (slots slots' : List SlotInfo)
    → Nodup (names hosts)
    → Nodup (names (hosts ++ more))
    → get_host_assignments hosts min_np max_np ≡ ok slots
    → get_host_assignments (hosts ++ more) min_np max_np ≡ ok slots'
    → (rest : List Seat) × (seats slots' ≡ seats slots ++ rest)
get_host_assignments_stable hosts more min_np max_np slots slots' nd nd' h h' =
    let (e, _) = get_host_assignments-eq-ok hosts min_np max_np slots nd h in
    let (e', _) = get_host_assignments-eq-ok (hosts ++ more) min_np max_np slots' nd' h' in
    let (fill, f) = filling-append max_np 0 hosts more in
    let hr = filling max_np 0 hosts in
    let (rest, s) =
      seats-spec_list (world_of hosts max_np) (world_of (hosts ++ more) max_np) hr (hr ++ fill) []
        hr fill in
    (rest, rw (e, e', f, s))
