-- ===== src/Discovery/Notice.antt =====
-- `update_available_hosts` reports a change exactly when the hosts or their slots changed.
use horovod.Common.{
  ℕ, ◌<◌, String, ◌≡◌, refl, ◌↔◌, true, some, List, [], ◌∷◌, arith, host_key, Bool-cases,
  Option-cases, inl, inr,
}
use horovod.Common.Dict.{Dict, keys, Nodup, lookup}
use horovod.Worker.Update.{no_update}
use horovod.Discovery.{HostManager, check_update, sub_dict, same_dict, update_available_hosts}
use horovod.Discovery.Changes.{
  Lost, lookup_behind, lookup_head, check_update_removed, check_update_added,
}

sub_dict_complete :
    (a b : Dict String ℕ)
    → Nodup (keys a)
    → ((h : String) (n : ℕ) → lookup h a ≡ some n → lookup h b ≡ some n)
    → sub_dict a b ≡ true
unfolding sub_dict
sub_dict_complete [] b nd f = refl
sub_dict_complete ((h, n) ∷ a) b (c, nd) f =
    let here = f h n (lookup_head h n a) in
    let rest = sub_dict_complete a b nd (λ k m e. f k m (lookup_behind h k n m a c e)) in
    rw (here, rest) (ground arith)

not-Lost :
    (cur prev : Dict String ℕ)
    → ¬ Lost cur prev
    → ¬ Lost prev cur
    → (h : String) (n : ℕ) → lookup h prev ≡ some n
    → lookup h cur ≡ some n
not-Lost cur prev nl ng h n had = elim (Option-cases (lookup h cur)) [
  | inl miss ↦ absurd (nl (record { host = h; slots = n; had = had; less = rw miss tt }))
  | inr (m, has) ↦
      let ge : ¬ (m < n) =
        λ less. nl (record { host = h; slots = n; had = had; less = rw has less }) in
      let le : ¬ (n < m) =
        λ less. ng (record { host = h; slots = m; had = has; less = rw had less }) in
      let same : m ≡ n = omega arith in rw has (rw same)
]

check_update_silent :
    (cur prev : Dict String ℕ)
    → Nodup (keys cur)
    → Nodup (keys prev)
    → check_update cur prev ≡ no_update
    → same_dict prev cur ≡ true
unfolding same_dict
check_update_silent cur prev nc np e =
    let nl : ¬ Lost cur prev = λ l. cc ((check_update_removed cur prev nc).1 l) in
    let ng : ¬ Lost prev cur = λ l. cc ((check_update_added cur prev nc).1 l) in
    rw (
      sub_dict_complete prev cur np (not-Lost cur prev nl ng),
      sub_dict_complete cur prev nc (not-Lost prev cur ng nl),
    )

-- The result is `no_update` exactly when the found hosts and slots are the ones known before.
update_available_hosts_silent :
    (iteration : List String → List String) (slots : Dict String ℕ) (m : HostManager)
    → Nodup (keys slots)
    → Nodup (keys m.found.host_slots)
    → ((update_available_hosts iteration slots m).1 ≡ no_update)
      ↔ (same_dict m.found.host_slots slots ≡ true)
unfolding update_available_hosts
update_available_hosts_silent iteration slots m ns nm =
    elim (Bool-cases (same_dict m.found.host_slots slots)) [
      | inl same ↦ (λ _. same, λ _. rw same)
      | inr changed ↦ (
        λ e. check_update_silent slots m.found.host_slots ns nm (rw changed at e),
        λ same. rw same,
      )
    ]
