-- ===== src/Worker/Manager.antt =====
-- horovod/runner/elastic/worker.py: WorkerNotificationManager and the service that calls it. A
-- listener is a state of horovod/common/elastic.py, known by its number.
use horovod.Common.{
  ℕ, String, Option, none, some, List, [], ◌∷◌, ◌++◌, if◌then◌else◌, ◌=?◌, host_key, rank_key,
}
use horovod.Common.Dict.{Dict, contains, lookup, insert}
use horovod.Common.Text.{◌+++◌, str, int, is_empty}
use horovod.Worker.Update.{HostUpdateResult}
use horovod.Elastic.{State, on_hosts_updated}

pub record WorkerNotificationManager : Type 0 where
  pub service : Option String
  pub listeners : List ℕ

pub record InitArgs : Type 0 where
  pub rendezvous_addr : Option String
  pub rendezvous_port : Option ℕ
  pub nic : Option String
  pub hostname : Option String
  pub local_rank : Option ℕ

-- What is put into the store of the rendezvous server.
pub record Put : Type 0 where
  pub addr : String
  pub port : ℕ
  pub scope : String
  pub key : String
  pub value : String

pub data Initialised : Type 0 where
  unchanged : Initialised
  started : WorkerNotificationManager → Put → Initialised
  raised : Initialised

-- arg or os.environ.get(name)
abbrev pub or_environ : Option String → Option String → Option String
or_environ none e = e
or_environ (some s) e = if is_empty s then e else some s

-- arg if arg is not None else int(os.environ.get(name)); `none` is a TypeError or a ValueError.
abbrev pub or_int_environ : Option ℕ → Option String → Option ℕ
or_int_environ (some n) e = some n
or_int_environ none none = none
or_int_environ none (some s) = int s

abbrev pub name_or_none : Option String → String
name_or_none none = "None"
name_or_none (some s) = s

unfoldable pub create_id : String → ℕ → String
create_id hostname local_rank = hostname +++ (":" +++ str local_rank)

abbrev not_empty : Option String → Option String
not_empty none = none
not_empty (some s) = if is_empty s then none else some s

-- `listen` opens the service on a network interface and gives its addresses, with the key.
module _ (listen : Option String → String) (environ : Dict String String) where
  abbrev start_service :
      String → Option ℕ → Option ℕ → InitArgs → WorkerNotificationManager → Initialised
  start_service addr none rank args m = raised
  start_service addr (some port) none args m = raised
  start_service addr (some port) (some local_rank) args m =
      let value = listen (or_environ args.nic (lookup "HOROVOD_GLOO_IFACE" environ)) in
      let hostname = name_or_none (or_environ args.hostname (lookup "HOROVOD_HOSTNAME" environ)) in
      started (record m { service = some value })
        (record {
          addr = addr;
          port = port;
          scope = "worker_addresses";
          key = create_id hostname local_rank;
          value = value;
        })

  abbrev init_at : Option String → InitArgs → WorkerNotificationManager → Initialised
  init_at none args m = unchanged
  init_at (some addr) args m =
      start_service addr
        (or_int_environ args.rendezvous_port (lookup "HOROVOD_GLOO_RENDEZVOUS_PORT" environ))
        (or_int_environ args.local_rank (lookup "HOROVOD_LOCAL_RANK" environ)) args m

  unfoldable pub init : InitArgs → WorkerNotificationManager → Initialised
  init args m = elim m.service [
    | some s ↦ unchanged
    | none ↦
        init_at
          (not_empty
            (or_environ args.rendezvous_addr (lookup "HOROVOD_GLOO_RENDEZVOUS_ADDR" environ)))
          args m
  ]

unfoldable pub register_listener : ℕ → WorkerNotificationManager → WorkerNotificationManager
register_listener l m = record m {
  listeners = if contains l m.listeners then m.listeners else m.listeners ++ l ∷ [];
}

unfoldable pub discard : ℕ → List ℕ → List ℕ
discard l [] = []
discard l (k ∷ ks) = let rest = discard l ks in if k =? l then rest else k ∷ rest

-- `none` is the KeyError of set.remove.
unfoldable pub remove_listener : ℕ → WorkerNotificationManager → Option WorkerNotificationManager
remove_listener l m =
    if contains l m.listeners then some (record m { listeners = discard l m.listeners }) else none

abbrev pub update_state : ℕ → HostUpdateResult → ℕ → Option State → Dict ℕ State → Dict ℕ State
update_state timestamp res l none states = states
update_state timestamp res l (some s) states = insert l (on_hosts_updated timestamp res s) states

unfoldable pub notify_all : ℕ → HostUpdateResult → List ℕ → Dict ℕ State → Dict ℕ State
notify_all timestamp res [] states = states
notify_all timestamp res (l ∷ ls) states =
    notify_all timestamp res ls (update_state timestamp res l (lookup l states) states)

unfoldable pub handle_hosts_updated :
    ℕ → HostUpdateResult → WorkerNotificationManager → Dict ℕ State → Dict ℕ State
handle_hosts_updated timestamp res m states = notify_all timestamp res m.listeners states
