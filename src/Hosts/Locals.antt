-- ===== src/Hosts/Locals.antt =====
-- The slots of one host in an assignment: its local ranks in order.
use horovod.Common.{
  ℕ, zero, suc, ◌+◌, String, ◌≡◌, refl, false, Option, some, append-nil, List, [], ◌∷◌, ◌++◌,
  length, arith, get_elem?, if◌then◌else◌, ◌=?◌, host_key, str_iff, Bool-cases, inl, inr,
}
use horovod.Common.Dict.{Nodup, contains}
use horovod.Hosts.{HostInfo, SlotInfo, ok}
use horovod.Hosts.Assign.{HostRanks, get_host_assignments}
use horovod.Hosts.Columns.{rank_names}
use horovod.Hosts.Filling.{names, filling, rank_names-filling}
use horovod.Hosts.Spec.{spec_host, spec_list, world_of}
use horovod.Hosts.Ranks.{get_host_assignments-eq-ok}

abbrev pub slots_at : String → List SlotInfo → List SlotInfo
slots_at h [] = []
slots_at h (s ∷ slots) = if s.hostname =? h then s ∷ slots_at h slots else slots_at h slots

pub slots_at-append :
    (h : String) (xs ys : List SlotInfo) → slots_at h (xs ++ ys) ≡ slots_at h xs ++ slots_at h ys
slots_at-append h [] ys = refl
slots_at-append h (x ∷ xs) ys = ground (arith, slots_at-append h xs ys)

-- Item `i` has local rank `l + i` and host `h`.
abbrev pub Ordered : String → ℕ → List SlotInfo → Type 0
Ordered h l [] = Unit
Ordered h l (s ∷ slots) = (s.hostname ≡ h) × (s.local_rank ≡ l) × Ordered h (suc l) slots

pub Ordered-get_elem? :
    (h : String) (l i : ℕ) (slots : List SlotInfo) (s : SlotInfo)
    → Ordered h l slots
    → get_elem? slots i ≡ some s
    → (s.hostname ≡ h) × (s.local_rank ≡ l + i)
Ordered-get_elem? h l i [] s o e = cc
Ordered-get_elem? h l zero (t ∷ slots) s (n, r, o) e = ground arith
Ordered-get_elem? h l (suc i) (t ∷ slots) s (n, r, o) e =
    let (n', r') = Ordered-get_elem? h (suc l) i slots s o e in (n', omega arith)

module _ (world : ℕ) (all : HostRanks) where
  slots_at-spec_host_other :
      (before : HostRanks) (h x : String) (n l : ℕ) (rs : List ℕ)
      → (x =? h) ≡ false
      → slots_at h (spec_host world all before x n l rs) ≡ []
  slots_at-spec_host_other before h x n l [] ne = refl
  slots_at-spec_host_other before h x n l (r ∷ rs) ne =
      rw ne (slots_at-spec_host_other before h x n (suc l) rs ne)

  slots_at-spec_host_own :
      (before : HostRanks) (h : String) (n l : ℕ) (rs : List ℕ)
      → Ordered h l (slots_at h (spec_host world all before h n l rs))
  slots_at-spec_host_own before h n l [] = tt
  slots_at-spec_host_own before h n l (r ∷ rs) =
      rw ((str_iff h h).1 refl) (refl, refl, slots_at-spec_host_own before h n (suc l) rs)

  slots_at-spec_list_absent :
      (h : String) (before hr : HostRanks)
      → contains h (rank_names hr) ≡ false
      → slots_at h (spec_list world all before hr) ≡ []
  unfolding contains
  slots_at-spec_list_absent h before [] c = refl
  slots_at-spec_list_absent h before ((g, ranks) ∷ hr) c =
      rw
        (
          slots_at-append,
          slots_at-spec_host_other before h g.hostname (length ranks) 0 ranks (ground (arith, c)),
        )
        (slots_at-spec_list_absent h (before ++ (g, ranks) ∷ []) hr (ground (arith, c)))

  Ordered-spec_list :
      (h : String) (before hr : HostRanks)
      → Nodup (rank_names hr)
      → Ordered h 0 (slots_at h (spec_list world all before hr))
  Ordered-spec_list h before [] nd = tt
  Ordered-spec_list h before ((g, ranks) ∷ hr) (c, nd) =
      rw slots_at-append (elim (Bool-cases (g.hostname =? h)) [
        | inl own ↦
            let e : g.hostname ≡ h = (str_iff g.hostname h).0 own in
            let rest = slots_at-spec_list_absent h (before ++ (g, ranks) ∷ []) hr (rw (← e) c) in
            rw (rest, append-nil, e) (slots_at-spec_host_own before h (length ranks) 0 ranks)
        | inr other ↦
            rw (slots_at-spec_host_other before h g.hostname (length ranks) 0 ranks other)
              (Ordered-spec_list h (before ++ (g, ranks) ∷ []) hr nd)
      ])

-- The slots of a host are its local ranks 0, 1, …, in order.
pub get_host_assignments-Ordered :
    (hosts : List HostInfo) (min_np : ℕ) (max_np : Option ℕ) (slots : List SlotInfo) (h : String)
    → Nodup (names hosts)
    → get_host_assignments hosts min_np max_np ≡ ok slots
    → Ordered h 0 (slots_at h slots)
get_host_assignments-Ordered hosts min_np max_np slots h nd r =
    let (e, _) = get_host_assignments-eq-ok hosts min_np max_np slots nd r in
    let hr = filling max_np 0 hosts in
    rw e (
      Ordered-spec_list (world_of hosts max_np) hr h [] hr
        (rw (rank_names-filling max_np 0 hosts) nd))
