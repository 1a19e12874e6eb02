-- ===== src/Hosts/Columns.antt =====
-- `cross_ranks` as the loops of `get_host_assignments` leave it: at each local rank, the hosts that
-- have such a slot, numbered in order.
use horovod.Common.{
  ℕ, zero, suc, ◌+◌, ◌-◌, ◌≤◌, min, String, ◌≡◌, refl, ap, true, false, ◌&&◌, Option, none, some,
  List, [], ◌∷◌, ◌++◌, append_assoc, append-nil, length, range_from, arith, ltb, leb, eqb, eqb_iff,
  if◌then◌else◌, rank_key, host_key, str_iff, Bool-cases, inl, inr,
}
use horovod.Common.Dict.{Dict, contains, lookup, insert, lookup-insert}
use horovod.Hosts.Assign.{Alloc, HostRanks, at_local, at_limit, take_slot, take_slots}

-- How many of `n` slots get a rank, when `rank` ranks are given already.
abbrev pub room : Option ℕ → ℕ → ℕ → ℕ
room none rank n = n
room (some m) rank n = min n (m - rank)

abbrev pub Within : Option ℕ → ℕ → Type 0
Within none rank = Unit
Within (some m) rank = rank ≤ m

-- The hosts with a slot of local rank `l`.
abbrev pub column : ℕ → HostRanks → List String
column l [] = []
column l ((h, ranks) ∷ hr) = if ltb l (length ranks) then h.hostname ∷ column l hr else column l hr

abbrev pub numbered : ℕ → List String → Dict String ℕ
numbered c [] = []
numbered c (h ∷ hs) = (h, c) ∷ numbered (suc c) hs

abbrev pub rank_names : HostRanks → List String
rank_names [] = []
rank_names ((h, ranks) ∷ hr) = h.hostname ∷ rank_names hr

pub rank_names-append :
    (hr hr' : HostRanks) → rank_names (hr ++ hr') ≡ rank_names hr ++ rank_names hr'
rank_names-append [] hr' = refl
rank_names-append ((h, ranks) ∷ hr) hr' = ap (λ t. h.hostname ∷ t) (rank_names-append hr hr')

pub length-numbered : (c : ℕ) (hs : List String) → length (numbered c hs) ≡ length hs
length-numbered c [] = refl
length-numbered c (h ∷ hs) = ap suc (length-numbered (suc c) hs)

pub numbered-append :
    (c : ℕ) (xs : List String) (x : String)
    → numbered c (xs ++ x ∷ []) ≡ numbered c xs ++ (x, c + length xs) ∷ []
numbered-append c [] x = ground arith
numbered-append c (y ∷ xs) x = ground (arith, numbered-append (suc c) xs x)

pub lookup-numbered_absent :
    (x : String) (c : ℕ) (xs : List String)
    → contains x xs ≡ false
    → lookup x (numbered c xs) ≡ none
unfolding contains lookup
lookup-numbered_absent x c [] h = refl
lookup-numbered_absent x c (y ∷ xs) h = ground (arith, lookup-numbered_absent x (suc c) xs)

pub column-append :
    (l : ℕ) (hr hr' : HostRanks) → column l (hr ++ hr') ≡ column l hr ++ column l hr'
column-append l [] hr' = refl
column-append l ((h, ranks) ∷ hr) hr' = ground (arith, column-append l hr hr')

pub contains-column :
    (x : String) (l : ℕ) (hr : HostRanks)
    → contains x (rank_names hr) ≡ false
    → contains x (column l hr) ≡ false
unfolding contains
contains-column x l [] h = refl
contains-column x l ((h, ranks) ∷ hr) e = ground (arith, contains-column x l hr)

-- The entry of the host behind `hr`.
pub lookup-column :
    (x : String) (c : ℕ) (xs ys : List String)
    → contains x xs ≡ false
    → lookup x (numbered c (xs ++ x ∷ ys)) ≡ some (c + length xs)
unfolding contains lookup
lookup-column x c [] ys h = ground (arith, str_iff x x)
lookup-column x c (y ∷ xs) ys h = ground (arith, lookup-column x (suc c) xs ys)

at_local-take_slot :
    (x : String) (l j : ℕ) (s : Alloc)
    → at_local (take_slot x l s).cross_ranks j ≡ (
        if eqb l j
        then insert x (length (at_local s.cross_ranks j)) (at_local s.cross_ranks j)
        else at_local s.cross_ranks j)
unfolding take_slot
at_local-take_slot x l j s = ground (
  arith,
  eqb_iff l j,
  lookup-insert l j (insert x (length (at_local s.cross_ranks l)) (at_local s.cross_ranks l))
      s.cross_ranks,
)

pub room_zero : (max_np : Option ℕ) (r : ℕ) → room max_np r 0 ≡ 0
room_zero none r = refl
room_zero (some m) r = omega arith

room_full : (max_np : Option ℕ) (r n : ℕ) → at_limit max_np r ≡ true → room max_np r n ≡ 0
room_full none r n h = cc
room_full (some m) r n h = ground arith

room_more :
    (max_np : Option ℕ) (r n : ℕ)
    → at_limit max_np r ≡ false
    → Within max_np r
    → Within max_np (r + 1) × (room max_np r (suc n) ≡ suc (room max_np (r + 1) n))
room_more none r n h w = (tt, refl)
room_more (some m) r n h w = ground arith

-- The inner loop gives `room` ranks, from `s.rank` on, to the local ranks from `l` on.
module _ (max_np : Option ℕ) (x : String) where
  take_slots_stop :
      (n l : ℕ) (s : Alloc) → at_limit max_np s.rank ≡ true → take_slots max_np x (suc n) l s ≡ s
  unfolding take_slots
  take_slots_stop n l s full = rw (full, take_slots)

  take_slots_go :
      (n l : ℕ) (s : Alloc)
      → at_limit max_np s.rank ≡ false
      → take_slots max_np x (suc n) l s ≡ take_slots max_np x n (suc l) (take_slot x l s)
  unfolding take_slots
  take_slots_go n l s more = rw (more, take_slots)

  room_slot :
      (n l : ℕ) (s : Alloc)
      → at_limit max_np s.rank ≡ false
      → Within max_np s.rank
      → Within max_np (take_slot x l s).rank
        × (room max_np s.rank (suc n) ≡ suc (room max_np (take_slot x l s).rank n))
  unfolding take_slot
  room_slot n l s = room_more max_np s.rank n

  pub rank-take_slots :
      (n l : ℕ) (s : Alloc)
      → Within max_np s.rank
      → (take_slots max_np x n l s).rank ≡ s.rank + room max_np s.rank n
  unfolding take_slots take_slot
  rank-take_slots zero l s w = omega (arith, room_zero max_np s.rank)
  rank-take_slots (suc n) l s w = elim (Bool-cases (at_limit max_np s.rank)) [
    | inl full ↦
        rw (take_slots_stop n l s full) (omega (arith, room_full max_np s.rank (suc n) full))
    | inr more ↦
        let (w', e) = room_more max_np s.rank n more w in
        rw (take_slots_go n l s more)
          (rw e (omega (arith, rank-take_slots n (suc l) (take_slot x l s) w')))
  ]

  pub ranks-take_slots :
      (n l : ℕ) (s : Alloc)
      → Within max_np s.rank
      → (take_slots max_np x n l s).ranks ≡ s.ranks ++ range_from s.rank (room max_np s.rank n)
  unfolding take_slots take_slot
  ranks-take_slots zero l s w = rw (room_zero max_np s.rank) (rw append-nil)
  ranks-take_slots (suc n) l s w = elim (Bool-cases (at_limit max_np s.rank)) [
    | inl full ↦
        rw (take_slots_stop n l s full) (rw (room_full max_np s.rank (suc n) full) (rw append-nil))
    | inr more ↦
        let (w', e) = room_more max_np s.rank n more w in
        let e' : suc s.rank ≡ s.rank + 1 = omega arith in
        rw (take_slots_go n l s more)
          (rw (e, ranks-take_slots n (suc l) (take_slot x l s) w', append_assoc, e'))
  ]

  pub at_local-take_slots :
      (n l j : ℕ) (s : Alloc)
      → Within max_np s.rank
      → at_local (take_slots max_np x n l s).cross_ranks j ≡ (
          if leb l j && ltb j (l + room max_np s.rank n)
          then insert x (length (at_local s.cross_ranks j)) (at_local s.cross_ranks j)
          else at_local s.cross_ranks j)
  unfolding take_slots
  at_local-take_slots zero l j s w = ground (arith, room_zero max_np s.rank)
  at_local-take_slots (suc n) l j s w = elim (Bool-cases (at_limit max_np s.rank)) [
    | inl full ↦
        rw (take_slots_stop n l s full) (ground (arith, room_full max_np s.rank (suc n) full))
    | inr more ↦
        let (w', e) = room_slot n l s more w in
        rw (take_slots_go n l s more) (
          rw (at_local-take_slots n (suc l) j (take_slot x l s) w', at_local-take_slot x l j s, e)
            (ground arith))
  ]
