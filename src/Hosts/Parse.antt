-- ===== src/Hosts/Parse.antt =====
-- horovod/runner/common/util/hosts.py: the parsing of strings of hosts. `none` is a ValueError, or the
-- IndexError of a line of a host file. The word characters
-- are those below 128: the tables of the others are not modelled.
use horovod.Common.{
  ℕ, String, Bool, false, not, ◌&&◌, ◌||◌, Option, none, some, List, [], ◌∷◌, ◌++◌, get_elem?, leb,
  eqb, if◌then◌else◌, host_key,
}
use horovod.Common.Dict.{Dict, insert}
use horovod.Common.Text.{◌+++◌, split, any_code, is_empty, int}
use horovod.Hosts.{HostInfo}
use Prim.Native.Char.{code}

abbrev pub is_space : ℕ → Bool
is_space c =
    (leb 9 c && leb c 13)
    || (leb 28 c && leb c 32)
    || eqb c 133
    || eqb c 160
    || eqb c 5760
    || (leb 8192 c && leb c 8202)
    || eqb c 8232
    || eqb c 8233
    || eqb c 8239
    || eqb c 8287
    || eqb c 12288

unfoldable pub lstrip : String → String
lstrip String.[] = String.[]
lstrip (String.◌∷◌ c s) = let rest = lstrip s in if is_space (code c) then rest else String.◌∷◌ c s

unfoldable pub rstrip : String → String
rstrip String.[] = String.[]
rstrip (String.◌∷◌ c s) =
    let rest = rstrip s in
    if is_space (code c) && is_empty rest then String.[] else String.◌∷◌ c rest

abbrev pub strip : String → String
strip s = lstrip (rstrip s)

abbrev host_info : String → Option ℕ → Option HostInfo
host_info name none = none
host_info name (some n) = some (record { hostname = name; slots = n })

-- hostname, slots = parts
abbrev host_of : List String → Option HostInfo
host_of [] = none
host_of (name ∷ []) = none
host_of (name ∷ slots ∷ []) = host_info name (int slots)
host_of (name ∷ slots ∷ more ∷ rest) = none

unfoldable pub from_string : String → Option HostInfo
from_string s = host_of (split 58 (strip s))

abbrev both : Option HostInfo → Option (List HostInfo) → Option (List HostInfo)
both none hosts = none
both (some h) none = none
both (some h) (some hosts) = some (h ∷ hosts)

unfoldable pub from_strings : List String → Option (List HostInfo)
from_strings [] = some []
from_strings (s ∷ strings) = both (from_string s) (from_strings strings)

unfoldable pub parse_hosts : String → Option (List HostInfo)
parse_hosts hosts = from_strings (split 44 hosts)

-- [\w.-]
abbrev is_word : ℕ → Bool
is_word c =
    (leb 48 c && leb c 57)
    || (leb 65 c && leb c 90)
    || (leb 97 c && leb c 122)
    || eqb c 95
    || eqb c 45
    || eqb c 46

abbrev is_digit : ℕ → Bool
is_digit c = leb 48 c && leb c 57

-- pattern.match
abbrev matches : List String → Bool
matches [] = false
matches (name ∷ []) = false
matches (name ∷ slots ∷ []) =
    not (is_empty name)
    && not (any_code (λ c. not (is_word c)) name)
    && not (is_empty slots)
    && not (any_code (λ c. not (is_digit c)) slots)
matches (name ∷ slots ∷ more ∷ rest) = false

-- The loop, from what it has collected on.
unfoldable pub hosts_and_slots :
    List String → List String × Dict String ℕ → Option (List String × Dict String ℕ)
hosts_and_slots [] found = some found
hosts_and_slots (host ∷ hosts) (names, slots) =
    let parts = split 58 (strip host) in
    elim (if matches parts then host_of parts else none) [
      | none ↦ none
      | some h ↦ hosts_and_slots hosts (names ++ h.hostname ∷ [], insert h.hostname h.slots slots)
    ]

unfoldable pub parse_hosts_and_slots : String → Option (List String × Dict String ℕ)
parse_hosts_and_slots hosts = hosts_and_slots (split 44 hosts) ([], [])

-- sep.join(strings)
unfoldable pub join : String → List String → String
join sep [] = ""
join sep (s ∷ []) = s
join sep (s ∷ t ∷ strings) = s +++ (sep +++ join sep (t ∷ strings))

-- line.split()[0], of a line that begins with its first word
unfoldable pub until_space : String → String
until_space String.[] = String.[]
until_space (String.◌∷◌ c s) =
    let rest = until_space s in if is_space (code c) then String.[] else String.◌∷◌ c rest

abbrev entry : String → Option String → Option String
entry name none = none
entry name (some slots) = if is_empty name then none else some (name +++ (":" +++ slots))

unfoldable pub host_entry : String → Option String
host_entry line =
    let line = rstrip line in entry (until_space (lstrip line)) (get_elem? (split 61 line) 1)

abbrev add_entry : Option String → Option (List String) → Option (List String)
add_entry none entries = none
add_entry (some e) none = none
add_entry (some e) (some entries) = some (e ∷ entries)

unfoldable pub host_entries : List String → Option (List String)
host_entries [] = some []
host_entries (line ∷ lines) = add_entry (host_entry line) (host_entries lines)

-- `lines` are those of the file.
unfoldable pub parse_host_files : List String → Option String
parse_host_files lines = elim (host_entries lines) [
  | none ↦ none
  | some entries ↦ some (join "," entries)
]
