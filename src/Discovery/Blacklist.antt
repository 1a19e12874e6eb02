-- ===== src/Discovery/Blacklist.antt =====
-- The blacklist is for good, and it wakes the workers of the host.
use horovod.Common.{
  ℕ, suc, ◌≤◌, ◌<◌, String, ltb, ltb→lt, ltb→ge, eqb_iff, rank_key, ◌≡◌, refl, true, false, List,
  arith, ◌||◌, if◌then◌else◌, ◌=?◌, host_key, str_iff, Bool-cases, inl, inr,
}
use horovod.Common.Dict.{contains, lookup, insert, lookup-insert}
use horovod.Discovery.{
  HostState, new_state, new_manager, HostStates, state_of, HostManager, current_hosts, blacklist,
  blacklist_state, is_blacklisted, get_event, is_fired, get_host_event, update_available_hosts,
  same_dict,
}
use horovod.Discovery.Manager.{
  Step, discover, read, ban, event, Reach, here, next, contains-keep_allowed,
}

state_of-insert :
    (states : HostStates) (h k : String) (s : HostState)
    → state_of (insert h s states) k ≡ (if h =? k then s else state_of states k)
state_of-insert states h k s = ground (arith, lookup-insert h k s states)

-- Every event that has been replaced is set, and one that is yet to come is not.
pub record IsSettled (s : HostState) : Type 0 where
  pub old : (g : ℕ) → g < s.event → is_fired s g ≡ true
  pub fresh : (g : ℕ) → s.event < g → is_fired s g ≡ false

-- What may happen to the state of a host: it is not taken off the blacklist, and a set event stays set.
record Later (s t : HostState) : Type 0 where
  banned : s.blacklisted ≡ true → t.blacklisted ≡ true
  fired : (g : ℕ) → is_fired s g ≡ true → is_fired t g ≡ true
  grown : s.event ≤ t.event
  settled : IsSettled s → IsSettled t

Later-refl : (s : HostState) → Later s s
Later-refl s = record { banned = λ e. e; fired = λ g e. e; grown = omega arith; settled = λ v. v }

Later-trans : {s t u : HostState} → Later s t → Later t u → Later s u
Later-trans a b = record {
  banned = λ e. b.banned (a.banned e);
  fired = λ g e. b.fired g (a.fired g e);
  grown = let x = a.grown in let y = b.grown in omega arith;
  settled = λ v. b.settled (a.settled v);
}

blacklist_state-IsSettled : (s : HostState) → IsSettled s → IsSettled (blacklist_state s)
unfolding is_fired contains
blacklist_state-IsSettled s v = record {
  old = λ g lt. ground (arith, v.old g lt, eqb_iff s.event g);
  fresh = λ g lt. ground (arith, v.fresh g lt, eqb_iff s.event g, lt);
}

get_event-IsSettled : (s : HostState) → IsSettled s → IsSettled (get_event s).0
unfolding is_fired get_event
get_event-IsSettled s v = elim (Bool-cases (contains s.event s.set_events)) [
  | inl spent ↦ rw (spent) (record {
    old = λ g lt. elim (Bool-cases (ltb g s.event)) [
      | inl below ↦ v.old g (ltb→lt g s.event below)
      | inr at ↦
          let same : s.event ≡ g = omega (arith, ltb→ge g s.event at, lt) in rw (← same) spent
    ];
    fresh = λ g lt. v.fresh g (omega (arith, lt));
  })
  | inr unset ↦ rw (unset) v
]

Later-blacklist_state : (s : HostState) → Later s (blacklist_state s)
unfolding is_fired contains
Later-blacklist_state s = record {
  banned = λ e. refl;
  fired = λ g e. ground arith;
  grown = omega arith;
  settled = blacklist_state-IsSettled s;
}

Later-get_event : (s : HostState) → Later s (get_event s).0
unfolding is_fired get_event
Later-get_event s = record {
  banned = λ e. ground arith;
  fired = λ g e. ground arith;
  grown = ground arith;
  settled = get_event-IsSettled s;
}

Later-insert :
    (states : HostStates) (h k : String) (s : HostState)
    → Later (state_of states h) s
    → Later (state_of states k) (state_of (insert h s states) k)
Later-insert states h k s l = rw state_of-insert (elim (Bool-cases (h =? k)) [
  | inl same ↦ rw same (rw (← ((str_iff h k).0 same)) l)
  | inr other ↦ rw other (Later-refl (state_of states k))
])

module _ {iteration : List String → List String} where
  Step-Later :
      {m n : HostManager} (k : String)
      → Step iteration m n
      → Later (state_of m.states k) (state_of n.states k)
  unfolding update_available_hosts current_hosts blacklist get_host_event
  Step-Later k (discover m slots ns) = elim (Bool-cases (same_dict m.found.host_slots slots)) [
    | inl same ↦ rw same (Later-refl (state_of m.states k))
    | inr changed ↦ rw changed (Later-refl (state_of m.states k))
  ]
  Step-Later k (read m) = Later-refl (state_of m.states k)
  Step-Later k (ban m h) =
      Later-insert m.states h k (blacklist_state (state_of m.states h))
        (Later-blacklist_state (state_of m.states h))
  Step-Later k (event m h) =
      Later-insert m.states h k (get_event (state_of m.states h)).0
        (Later-get_event (state_of m.states h))

  Reach-Later :
      {m n : HostManager} (k : String)
      → Reach iteration m n
      → Later (state_of m.states k) (state_of n.states k)
  Reach-Later {m} k here = Later-refl (state_of m.states k)
  Reach-Later k (next r s) = Later-trans (Reach-Later k r) (Step-Later k s)

-- Only the named host is added.
pub is_blacklisted-blacklist :
    (m : HostManager) (h k : String)
    → is_blacklisted (blacklist m h) k ≡ ((h =? k) || is_blacklisted m k)
unfolding is_blacklisted blacklist
is_blacklisted-blacklist m h k =
    ground (arith, lookup-insert h k (blacklist_state (state_of m.states h)) m.states)

blacklist-is_blacklisted : (m : HostManager) (h : String) → is_blacklisted (blacklist m h) h ≡ true
unfolding is_blacklisted blacklist
blacklist-is_blacklisted m h =
    ground (arith, str_iff h h, lookup-insert h h (blacklist_state (state_of m.states h)) m.states)

blacklist-fires :
    (m : HostManager) (h : String) (g : ℕ)
    → IsSettled (state_of m.states h)
    → g ≤ (state_of m.states h).event
    → is_fired (state_of (blacklist m h).states h) g ≡ true
unfolding is_fired blacklist contains
blacklist-fires m h g v le =
    let banned = blacklist_state (state_of m.states h) in
    let own : state_of (insert h banned m.states) h ≡ banned =
      ground (arith, str_iff h h, lookup-insert h h banned m.states) in
    rw own (elim (Bool-cases (ltb g (state_of m.states h).event)) [
      | inl below ↦ ground (arith, v.old g (ltb→lt g (state_of m.states h).event below))
      | inr at ↦ ground (
        arith,
        ltb→ge g (state_of m.states h).event at,
        le,
        eqb_iff (state_of m.states h).event g,
      )
    ])

event-get_event : (s : HostState) → (get_event s).1 ≡ (get_event s).0.event
unfolding get_event
event-get_event s = ground arith

get_event_unset : (s : HostState) → IsSettled s → is_fired (get_event s).0 (get_event s).1 ≡ false
unfolding get_event is_fired
get_event_unset s v = elim (Bool-cases (contains s.event s.set_events)) [
  | inl spent ↦ rw (spent) (v.fresh (suc s.event) (omega arith))
  | inr unset ↦ rw (unset) unset
]

new_state-IsSettled : IsSettled new_state
unfolding is_fired contains
new_state-IsSettled = record { old = λ g lt. ground (arith, lt); fresh = λ g lt. refl }

-- Once blacklisted, a host stays so whatever is discovered later, and is in no list of current
-- hosts again.
pub blacklist_forever :
    (iteration : List String → List String) (m n : HostManager) (h : String)
    → Reach iteration (blacklist m h) n
    → (is_blacklisted n h ≡ true)
      × (contains h (current_hosts n).found.host_assignment_order ≡ false)
unfolding is_blacklisted current_hosts
blacklist_forever iteration m n h r =
    let start : (state_of (blacklist m h).states h).blacklisted ≡ true =
      blacklist-is_blacklisted m h in
    let banned = (Reach-Later h r).banned start in
    (banned, ground (arith, banned, contains-keep_allowed n.states h n.found.host_assignment_order))

-- The event handed out for a host, after any operations of a new manager, is not set then; after any
-- further operations, a blacklisting of the host sets this very event, also when the host was asked
-- for its event again in between, and it stays set.
pub get_host_event_fires :
    (iteration : List String → List String) (m n k : HostManager) (h : String)
    → Reach iteration new_manager m
    → Reach iteration (get_host_event m h).0 n
    → Reach iteration (blacklist n h) k
    → (is_fired (state_of (get_host_event m h).0.states h) (get_host_event m h).1 ≡ false)
      × (is_fired (state_of k.states h) (get_host_event m h).1 ≡ true)
unfolding get_host_event lookup
get_host_event_fires iteration m n k h q r s =
    let s0 = state_of m.states h in
    let event = (get_event s0).1 in
    let v : IsSettled s0 = (Reach-Later h q).settled new_state-IsSettled in
    let own : state_of (get_host_event m h).0.states h ≡ (get_event s0).0 =
      ground (arith, str_iff h h, lookup-insert h h (get_event s0).0 m.states) in
    let grown : (get_event s0).0.event ≤ (state_of n.states h).event =
      rw (← own) (Reach-Later h r).grown in
    let w : IsSettled (state_of n.states h) =
      (Reach-Later h r).settled (rw own (get_event-IsSettled s0 v)) in
    let woken : is_fired (state_of (blacklist n h).states h) event ≡ true =
      blacklist-fires n h event w (omega (arith, event-get_event s0, grown)) in
    (rw own (get_event_unset s0 v), (Reach-Later h s).fired event woken)
