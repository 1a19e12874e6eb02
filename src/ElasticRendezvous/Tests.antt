-- ===== src/ElasticRendezvous/Tests.antt =====
-- A worker of an elastic job puts its addresses and asks for its rank.
use horovod.Common.{
  ℕ, ◌≡◌, refl, String, Bool, ◌=?◌, false, Option, none, some, [], ◌∷◌, host_key, rank_key,
  slot_key,
}
use horovod.Common.Dict.{lookup}
use horovod.Common.Text.{split, int, digits_from, str}
use horovod.Hosts.{SlotInfo}
use horovod.Hosts.Parse.{join}
use horovod.Discovery.{is_blacklisted}
use horovod.Registry.{new_registry}
use horovod.Rendezvous.{Bytes, new_server}
use horovod.DriverService.{Addresses}
use horovod.Worker.Client.{probe, answering}
use horovod.Driver.{ElasticDriver, has_rank_assignment, get_slot_info}
use horovod.ElasticRendezvous.{
  put_value, get_value, rank_and_size, encode, to_response_string, raised,
}

abbrev slot : SlotInfo
slot = record {
  hostname = "a";
  rank = 0;
  local_rank = 0;
  cross_rank = 0;
  size = 1;
  local_size = 1;
  cross_size = 1;
}

abbrev driver : ElasticDriver
driver = record {
  manager = record {
    found = record { host_slots = ("a", 1) ∷ []; host_assignment_order = "a" ∷ [] };
    states = [];
  };
  min_np = 1;
  max_np = none;
  host_assignments = ("a", slot ∷ []) ∷ [];
  rank_assignments = (0, slot) ∷ [];
  world_size = 1;
  registry = new_registry none;
  rendezvous = new_server;
  worker_clients = [];
  results = [];
  error_message = none;
  shutdown = false;
}

abbrev loads : Bytes → Option Addresses
loads [] = none
loads (b ∷ bs) = some (("lo", ("127.0.0.1", 4000) ∷ []) ∷ ("eth0", ("10.0.0.7", 4000) ∷ []) ∷ [])

-- Only the second address answers.
abbrev answers : String × ℕ → Bool
answers (ip, port) = ip =? "10.0.0.7"

abbrev reached : Addresses
reached = ("eth0", ("10.0.0.7", 4000) ∷ []) ∷ []

abbrev body : Bytes
body = 71 ∷ []

answered : rank_and_size "a" 0 driver ≡ some (encode "0,1,0,1,0,1")
unfolding rank_and_size encode to_response_string get_slot_info has_rank_assignment is_blacklisted
    lookup str join
answered = refl

not_a_slot : rank_and_size "a" 1 driver ≡ some (encode "-1,-1,-1,-1,-1,-1")
unfolding rank_and_size encode get_slot_info has_rank_assignment is_blacklisted lookup
not_a_slot = refl

no_rank_in_key : get_value "rank_and_size" "a" driver ≡ raised
unfolding get_value split
no_rank_in_key = refl

empty_body : put_value loads answers "worker_addresses" "a:0" [] driver ≡ none
unfolding put_value split int digits_from
empty_body = refl

probed : probe answers (("lo", ("127.0.0.1", 4000) ∷ []) ∷ reached) ≡ reached
unfolding probe answering
probed = refl
