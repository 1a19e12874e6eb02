-- ===== src/Worker/Tests.antt =====
-- The initialisation from the environment, and a notification to one of two states.
use horovod.Common.{
  ℕ, ◌≡◌, ◌≢◌, refl, String, false, true, Option, none, some, [], ◌∷◌, rank_key, host_key, arith,
}
use horovod.Common.Dict.{Dict, contains, lookup, Nodup}
use horovod.Common.Text.{int, digits_from, str}
use horovod.Worker.Update.{added}
use horovod.Worker.Manager.{
  WorkerNotificationManager, InitArgs, started, raised, init, create_id, remove_listener,
  handle_hosts_updated,
}
use horovod.Worker.Deliver.{handle_hosts_updated-interrupts}
use horovod.Elastic.{State, proposal, check_host_updates}

abbrev idle : WorkerNotificationManager
idle = record { service = none; listeners = [] }

abbrev no_args : InitArgs
no_args = record {
  rendezvous_addr = none;
  rendezvous_port = none;
  nic = none;
  hostname = some "";
  local_rank = none;
}

abbrev environ : Dict String String
environ =
    ("HOROVOD_GLOO_RENDEZVOUS_ADDR", "10.0.0.1")
    ∷ ("HOROVOD_GLOO_RENDEZVOUS_PORT", "8080")
    ∷ ("HOROVOD_HOSTNAME", "h1")
    ∷ ("HOROVOD_LOCAL_RANK", "12")
    ∷ []

abbrev listen : Option String → String
listen nic = "addresses"

from_environment :
    init listen environ no_args idle
    ≡ started
        (record idle { service = some "addresses" })
        (record {
          addr = "10.0.0.1";
          port = 8080;
          scope = "worker_addresses";
          key = "h1:12";
          value = "addresses";
        })
unfolding init lookup int digits_from create_id str
from_environment = refl

no_port : init listen (("HOROVOD_GLOO_RENDEZVOUS_ADDR", "10.0.0.1") ∷ []) no_args idle ≡ raised
unfolding init lookup
no_port = refl

removed_twice : remove_listener 3 (record idle { listeners = 4 ∷ [] }) ≡ none
unfolding remove_listener contains
removed_twice = refl

abbrev waiting : State
waiting = record {
  attrs = [];
  saved_state = [];
  host_messages = [];
  last_updated_timestamp = 5;
  reset_callbacks = [];
}

abbrev states : Dict ℕ State
states = (3, waiting) ∷ (4, waiting) ∷ []

abbrev listening : WorkerNotificationManager
listening = record { service = some "addresses"; listeners = 3 ∷ [] }

one_listener : Nodup listening.listeners
unfolding contains
one_listener = (refl, tt)

three_listens : contains 3 listening.listeners ≡ true
unfolding contains
three_listens = refl

three_waits : lookup 3 states ≡ some waiting
unfolding lookup
three_waits = refl

handle_hosts_updated-interrupts_example :
    (t : State) × (lookup 3 (handle_hosts_updated 6 added listening states) ≡ some t)
    × ((check_host_updates (proposal t) waiting).1 ≢ none)
    × ((j : ℕ)
        → contains j listening.listeners ≡ false
        → lookup j (handle_hosts_updated 6 added listening states) ≡ lookup j states)
handle_hosts_updated-interrupts_example =
    handle_hosts_updated-interrupts 6 added listening states 3 waiting waiting one_listener
      three_listens three_waits (omega arith)
