-- ===== src/Hosts/Print.antt =====
-- horovod/runner/common/util/hosts.py: the string of hosts that is printed is read back.
use horovod.Common.{
  ℕ, ◌≤◌, ◌≡◌, refl, ap, ◌∙◌, String, Bool, false, some, List, [], ◌∷◌, map, eqb, arith, All,
}
use text.Mathlib.TextLemmas.{cons-append, nil-append}
use horovod.Common.Text.{
  ◌+++◌, str, split, any_code, has_code, any_code-append, split_first, split_whole,
}
use horovod.Common.Text.Digits.{int-str, any_code-str, split_numbered}
use horovod.Hosts.{HostInfo}
use horovod.Hosts.Parse.{
  is_space, lstrip, rstrip, strip, from_string, from_strings, parse_hosts, join,
}

-- hostname:slots
abbrev pub host_string : HostInfo → String
host_string h = h.hostname +++ (":" +++ str h.slots)

abbrev pub hosts_string : List HostInfo → String
hosts_string hosts = join "," (map host_string hosts)

-- A name without white space, comma and colon.
abbrev pub IsClean : String → Type 0
IsClean name =
    (any_code is_space name ≡ false) × (has_code 58 name ≡ false) × (has_code 44 name ≡ false)

lstrip_same : (s : String) → any_code is_space s ≡ false → lstrip s ≡ s
unfolding lstrip any_code
lstrip_same String.[] h = refl
lstrip_same (String.◌∷◌ c s) h = ground arith

rstrip_same : (s : String) → any_code is_space s ≡ false → rstrip s ≡ s
unfolding rstrip any_code
rstrip_same String.[] h = refl
rstrip_same (String.◌∷◌ c s) h = ground (arith, rstrip_same s)

comma : (t : String) → "," +++ t ≡ String.◌∷◌ "," t
comma t = cons-append "," String.[] t ∙ ap (λ u. String.◌∷◌ "," u) (nil-append t)

any_code-host_string :
    (P : ℕ → Bool) (h : HostInfo)
    → any_code P h.hostname ≡ false
    → P 58 ≡ false
    → ((k : ℕ) → 48 ≤ k → k ≤ 57 → P k ≡ false)
    → any_code P (host_string h) ≡ false
unfolding any_code
any_code-host_string P h name sep digits = ground (
  arith,
  any_code-append P h.hostname (":" +++ str h.slots),
  any_code-append P ":" (str h.slots),
  any_code-str P h.slots digits,
)

from_string-host_string : (h : HostInfo) → IsClean h.hostname → from_string (host_string h) ≡ some h
unfolding from_string
from_string-host_string h (spaces, colons, _) =
    let no_space = any_code-host_string is_space h spaces refl (λ k a b. ground arith) in
    let stripped : strip (host_string h) ≡ host_string h =
      ap lstrip (rstrip_same (host_string h) no_space) ∙ lstrip_same (host_string h) no_space in
    rw (stripped, split_numbered h.hostname h.slots colons, int-str h.slots) refl

no_comma : (h : HostInfo) → IsClean h.hostname → has_code 44 (host_string h) ≡ false
no_comma h (_, _, commas) =
    any_code-host_string (λ c. eqb c 44) h commas refl (λ k a b. ground arith)

split-hosts_string :
    (h : HostInfo) (hosts : List HostInfo)
    → All (λ i. IsClean i.hostname) (h ∷ hosts)
    → split 44 (hosts_string (h ∷ hosts)) ≡ map host_string (h ∷ hosts)
unfolding join
split-hosts_string h [] (clean, _) = split_whole 44 (host_string h) (no_comma h clean)
split-hosts_string h (i ∷ hosts) (clean, all) =
    ap (λ t. split 44 (host_string h +++ t)) (comma (hosts_string (i ∷ hosts)))
    ∙ split_first "," (host_string h) (hosts_string (i ∷ hosts)) (no_comma h clean)
    ∙ ap (λ ps. host_string h ∷ ps) (split-hosts_string i hosts all)

from_strings-map :
    (hosts : List HostInfo)
    → All (λ i. IsClean i.hostname) hosts
    → from_strings (map host_string hosts) ≡ some hosts
unfolding from_strings
from_strings-map [] all = refl
from_strings-map (h ∷ hosts) (clean, all) =
    rw (from_string-host_string h clean, from_strings-map hosts all) refl

-- At least one host, with names without white space, commas and colons: the string of the hosts is
-- parsed to these hosts.
pub parse_hosts-hosts_string :
    (h : HostInfo) (hosts : List HostInfo)
    → All (λ i. IsClean i.hostname) (h ∷ hosts)
    → parse_hosts (hosts_string (h ∷ hosts)) ≡ some (h ∷ hosts)
unfolding parse_hosts
parse_hosts-hosts_string h hosts all =
    rw (split-hosts_string h hosts all) (from_strings-map (h ∷ hosts) all)
