-- ===== src/Hosts/StringTests.antt =====
-- Strings of hosts that are parsed, and the theorem on printing and parsing at two hosts.
use horovod.Common.{◌≡◌, refl, none, some, [], ◌∷◌, All, host_key}
use horovod.Common.Dict.{insert}
use horovod.Common.Text.{split, any_code, int, digits_from}
use horovod.Hosts.{HostInfo}
use horovod.Hosts.Parse.{
  from_string, from_strings, parse_hosts, parse_hosts_and_slots, hosts_and_slots, parse_host_files,
  host_entries, host_entry, until_space, lstrip, rstrip, join,
}
use horovod.Hosts.Print.{IsClean, hosts_string, parse_hosts-hosts_string}

abbrev first_host : HostInfo
first_host = record { hostname = "worker-0"; slots = 2 }

abbrev second_host : HostInfo
second_host = record { hostname = "10.0.0.2"; slots = 16 }

parsed : parse_hosts "worker-0:2, 10.0.0.2:16 " ≡ some (first_host ∷ second_host ∷ [])
unfolding parse_hosts from_strings from_string split lstrip rstrip int digits_from
parsed = refl

no_slots : parse_hosts "worker-0:2,10.0.0.2" ≡ none
unfolding parse_hosts from_strings from_string split lstrip rstrip int digits_from
no_slots = refl

parsed_twice :
    parse_hosts_and_slots "a:2,b:1,a:3" ≡ some ("a" ∷ "b" ∷ "a" ∷ [], ("a", 3) ∷ ("b", 1) ∷ [])
unfolding parse_hosts_and_slots hosts_and_slots split any_code lstrip rstrip int digits_from insert
parsed_twice = refl

not_a_name : parse_hosts_and_slots "a/b:2" ≡ none
unfolding parse_hosts_and_slots hosts_and_slots split any_code lstrip rstrip int digits_from insert
not_a_name = refl

from_file : parse_host_files ("10.0.0.2 slots=2" ∷ "b slots=1 " ∷ []) ≡ some "10.0.0.2:2,b:1"
unfolding parse_host_files host_entries host_entry until_space split lstrip rstrip join
from_file = refl

empty_line : parse_host_files ("a slots=2" ∷ "" ∷ []) ≡ none
unfolding parse_host_files host_entries host_entry until_space split lstrip rstrip join
empty_line = refl

names-IsClean : All (λ h. IsClean h.hostname) (first_host ∷ second_host ∷ [])
unfolding any_code
names-IsClean = ((refl, refl, refl), ((refl, refl, refl), tt))

parse_hosts-hosts_string_example :
    parse_hosts (hosts_string (first_host ∷ second_host ∷ []))
    ≡ some (first_host ∷ second_host ∷ [])
parse_hosts-hosts_string_example =
    parse_hosts-hosts_string first_host (second_host ∷ []) names-IsClean
