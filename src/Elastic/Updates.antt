-- ===== src/Elastic/Updates.antt =====
-- horovod/common/elastic.py, check_host_updates: which messages interrupt the training.
use horovod.Common.{
  ℕ, ◌≤◌, ◌≡◌, refl, Bool, false, not, ◌&&◌, ◌||◌, none, some, List, [], ◌∷◌, ltb, max,
  if◌then◌else◌, arith, Bool-cases, inl, inr,
}
use horovod.Worker.Update.{
  HostUpdateResult, no_update, removed, ◌∪◌, has_removed, has_added, has_removed-∪, has_added-∪,
  same_update,
}
use horovod.Elastic.{State, drain, proposal, check_host_updates}

-- A message is new when its time is later than that of all before it.
abbrev pub any_new : ℕ → List (ℕ × HostUpdateResult) → Bool
any_new last [] = false
any_new last ((timestamp, kind) ∷ messages) = ltb last timestamp || any_new last messages

-- A new message, in the order of the queue, with the bit that `bit` tests.
abbrev pub new_with : (HostUpdateResult → Bool) → ℕ → List (ℕ × HostUpdateResult) → Bool
new_with bit last [] = false
new_with bit last ((timestamp, kind) ∷ messages) =
    (ltb last timestamp && bit kind) || new_with bit (max last timestamp) messages

abbrev latest : ℕ → List (ℕ × HostUpdateResult) → ℕ
latest last [] = last
latest last ((timestamp, kind) ∷ messages) = latest (max last timestamp) messages

drain-latest :
    (messages : List (ℕ × HostUpdateResult)) (last : ℕ) (all : HostUpdateResult)
    → (drain messages last all).0 ≡ latest last messages
unfolding drain
drain-latest [] last all = refl
drain-latest ((timestamp, kind) ∷ messages) last all = elim (Bool-cases (ltb last timestamp)) [
  | inl fresh ↦
      let m : max last timestamp ≡ timestamp = ground (arith, fresh) in
      rw (fresh, m) (drain-latest messages timestamp (all ∪ kind))
  | inr old ↦
      let m : max last timestamp ≡ last = ground (arith, old) in
      rw (old, m) (drain-latest messages last all)
]

drain-bits :
    (messages : List (ℕ × HostUpdateResult)) (last : ℕ) (all : HostUpdateResult)
    → (has_removed (drain messages last all).1
        ≡ (has_removed all || new_with has_removed last messages))
      × (has_added (drain messages last all).1
          ≡ (has_added all || new_with has_added last messages))
unfolding drain
drain-bits [] last all = (ground arith, ground arith)
drain-bits ((timestamp, kind) ∷ messages) last all = elim (Bool-cases (ltb last timestamp)) [
  | inl fresh ↦
      let m : max last timestamp ≡ timestamp = ground (arith, fresh) in
      let (r, a) = drain-bits messages timestamp (all ∪ kind) in
      rw (fresh, m)
        (ground (arith, r, has_removed-∪ all kind), ground (arith, a, has_added-∪ all kind))
  | inr old ↦
      let m : max last timestamp ≡ last = ground (arith, old) in
      rw (old, m) (drain-bits messages last all)
]

latest-any_new :
    (messages : List (ℕ × HostUpdateResult)) (start last : ℕ)
    → start ≤ last
    → ltb start (latest last messages) ≡ (ltb start last || any_new start messages)
latest-any_new [] start last h = ground arith
latest-any_new ((timestamp, kind) ∷ messages) start last h =
    let ih = latest-any_new messages start (max last timestamp) (omega arith) in ground (arith, ih)

only_removed : (u : HostUpdateResult) → same_update u removed ≡ (has_removed u && not (has_added u))
only_removed u = ground arith

ltb_irrefl : (n : ℕ) → ltb n n ≡ false
ltb_irrefl n = ground arith

-- On the coordinator, and so on every worker to which it broadcasts: the training is interrupted
-- exactly when a message is later than the last update, and then the synchronisation is skipped
-- exactly when a message that is later than those before it tells of removed hosts and no such
-- message tells of added ones.
pub check_host_updates-interrupts :
    (coordinator s : State)
    → (check_host_updates (proposal coordinator) s).1 ≡ (
        if any_new coordinator.last_updated_timestamp coordinator.host_messages
        then some (
            new_with has_removed coordinator.last_updated_timestamp coordinator.host_messages
            && not
                (new_with has_added coordinator.last_updated_timestamp coordinator.host_messages))
        else none)
unfolding check_host_updates proposal
check_host_updates-interrupts coordinator s =
    let last = coordinator.last_updated_timestamp in
    let messages = coordinator.host_messages in
    let (r, a) = drain-bits messages last no_update in
    let n = latest-any_new messages last last (omega arith) in
    let d = drain-latest messages last no_update in
    rw (d, n, only_removed, r, a, ltb_irrefl last) refl

-- No update is reported twice: right after a check of the coordinator's own queue a second one
-- interrupts nobody.
check_host_updates_once :
    (coordinator s : State)
    → (check_host_updates (proposal (check_host_updates (proposal coordinator) coordinator).0) s).1
      ≡ none
unfolding check_host_updates proposal drain
check_host_updates_once coordinator s = ground arith
