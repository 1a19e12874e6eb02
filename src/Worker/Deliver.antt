-- ===== src/Worker/Deliver.antt =====
-- horovod/runner/elastic/worker.py: what a notification does to the states of the workers.
use horovod.Common.{
  ℕ, ◌<◌, ◌≡◌, ◌≢◌, refl, ◌∙◌, true, false, Option, none, some, List, [], ◌∷◌, ◌++◌, lt→ltb,
  if◌then◌else◌, ◌=?◌, rank_key, eqb_iff, arith,
}
use horovod.Common.Dict.{Dict, contains, lookup, lookup-insert, Nodup}
use horovod.Worker.Update.{HostUpdateResult}
use horovod.Worker.Manager.{
  WorkerNotificationManager, update_state, notify_all, handle_hosts_updated,
}
use horovod.Elastic.{State, on_hosts_updated, proposal, check_host_updates}
use horovod.Elastic.Updates.{any_new, check_host_updates-interrupts}

-- The state, with the message at the end of its queue.
abbrev pub told : ℕ → HostUpdateResult → Option State → Option State
told timestamp res none = none
told timestamp res (some s) = some (on_hosts_updated timestamp res s)

module _ (timestamp : ℕ) (res : HostUpdateResult) where
  lookup-update_state :
      (l j : ℕ) (o : Option State) (states : Dict ℕ State)
      → lookup l states ≡ o
      → lookup j (update_state timestamp res l o states)
        ≡ (if l =? j then told timestamp res (lookup j states) else lookup j states)
  lookup-update_state l j none states e = ground (arith, eqb_iff l j, e)
  lookup-update_state l j (some s) states e =
      ground (arith, eqb_iff l j, e, lookup-insert l j (on_hosts_updated timestamp res s) states)

  lookup-notify_all :
      (j : ℕ) (ls : List ℕ) (states : Dict ℕ State)
      → Nodup ls
      → lookup j (notify_all timestamp res ls states)
        ≡ (if contains j ls then told timestamp res (lookup j states) else lookup j states)
  unfolding notify_all contains
  lookup-notify_all j [] states nd = refl
  lookup-notify_all j (l ∷ ls) states (fresh, nd) = ground (
    arith,
    lookup-notify_all j ls (update_state timestamp res l (lookup l states) states) nd,
    lookup-update_state l j (lookup l states) states refl,
    eqb_iff l j,
    fresh,
  )

any_new-snoc :
    (last timestamp : ℕ) (kind : HostUpdateResult) (messages : List (ℕ × HostUpdateResult))
    → last < timestamp
    → any_new last (messages ++ (timestamp, kind) ∷ []) ≡ true
any_new-snoc last timestamp kind [] h = ground (arith, lt→ltb last timestamp h)
any_new-snoc last timestamp kind (m ∷ messages) h =
    ground (arith, any_new-snoc last timestamp kind messages h)

-- A notification later than the last update of a registered coordinator reaches its queue, and its
-- next check interrupts the training of every worker; a state that is not registered is not changed.
pub handle_hosts_updated-interrupts :
    (timestamp : ℕ) (res : HostUpdateResult) (m : WorkerNotificationManager) (states : Dict ℕ State)
    (l : ℕ) (s worker : State)
    → Nodup m.listeners
    → contains l m.listeners ≡ true
    → lookup l states ≡ some s
    → s.last_updated_timestamp < timestamp
    → (t : State) × (lookup l (handle_hosts_updated timestamp res m states) ≡ some t)
      × ((check_host_updates (proposal t) worker).1 ≢ none)
      × ((j : ℕ)
          → contains j m.listeners ≡ false
          → lookup j (handle_hosts_updated timestamp res m states) ≡ lookup j states)
unfolding handle_hosts_updated on_hosts_updated
handle_hosts_updated-interrupts timestamp res m states l s worker nd here found later =
    let t = on_hosts_updated timestamp res s in
    let fresh = any_new-snoc s.last_updated_timestamp timestamp res s.host_messages later in
    (
      t,
      lookup-notify_all timestamp res l m.listeners states nd ∙ rw (here, found) refl,
      λ e.
          (let raised = check_host_updates-interrupts t worker in ground (arith, raised, fresh, e)),
      λ j c. lookup-notify_all timestamp res j m.listeners states nd ∙ rw (c) refl,
    )
