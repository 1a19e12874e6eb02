-- ===== src/Discovery/Order.antt =====
-- `order_available_hosts`: the hosts that are still available come first, in their old order.
use horovod.Common.{
  String, ◌≡◌, refl, false, List, [], ◌∷◌, ◌++◌, not, ◌&&◌, arith, host_key, str_iff, All,
  IsSubsequence, Bool-cases, inl, inr,
}
use horovod.Common.Dict.{contains, contains-append, Nodup, Nodup-append, All-contains}
use horovod.Discovery.{keep_known, add_new, order_available_hosts}

contains-keep_known :
    (x : String) (av prev : List String)
    → contains x (keep_known av prev) ≡ (contains x prev && contains x av)
unfolding contains keep_known
contains-keep_known x av [] = refl
contains-keep_known x av (h ∷ prev) = ground (arith, str_iff h x, contains-keep_known x av prev)

contains-add_new :
    (x : String) (known hosts : List String)
    → contains x (add_new known hosts) ≡ (contains x hosts && not (contains x known))
unfolding contains add_new
contains-add_new x known [] = refl
contains-add_new x known (h ∷ hosts) = ground (arith, str_iff h x, contains-add_new x known hosts)

Nodup-keep_known : (av prev : List String) → Nodup prev → Nodup (keep_known av prev)
unfolding keep_known
Nodup-keep_known av [] nd = tt
Nodup-keep_known av (h ∷ prev) (c, nd) =
    ground (arith, contains-keep_known h av prev, Nodup-keep_known av prev nd)

Nodup-add_new : (known hosts : List String) → Nodup hosts → Nodup (add_new known hosts)
unfolding add_new
Nodup-add_new known [] nd = tt
Nodup-add_new known (h ∷ hosts) (c, nd) =
    ground (arith, contains-add_new h known hosts, Nodup-add_new known hosts nd)

add_new_apart :
    (known hosts : List String) → All (λ k. contains k (add_new known hosts) ≡ false) known
add_new_apart known hosts =
    All-contains (λ k. contains k (add_new known hosts) ≡ false) known
      (λ k c. ground (arith, contains-add_new k known hosts, c))

keep_known-IsSubsequence : (av prev : List String) → IsSubsequence (keep_known av prev) prev
unfolding keep_known
keep_known-IsSubsequence av [] = IsSubsequence.done
keep_known-IsSubsequence av (h ∷ prev) = elim (Bool-cases (contains h av)) [
  | inl in_av ↦ rw in_av (IsSubsequence.keep (keep_known-IsSubsequence av prev))
  | inr out ↦ rw out (IsSubsequence.skip (keep_known-IsSubsequence av prev))
]

-- The order holds exactly the available hosts.
pub contains-order_available_hosts :
    (x : String) (av prev : List String)
    → contains x (order_available_hosts av prev) ≡ contains x av
unfolding order_available_hosts
contains-order_available_hosts x av prev =
    rw (contains-append, contains-add_new, contains-keep_known) (ground arith)

-- No host stands twice in it.
pub Nodup-order_available_hosts :
    (av prev : List String) → Nodup av → Nodup prev → Nodup (order_available_hosts av prev)
unfolding order_available_hosts
Nodup-order_available_hosts av prev na np =
    let known = keep_known av prev in
    Nodup-append known (add_new known av) (Nodup-keep_known av prev np) (Nodup-add_new known av na)
      (add_new_apart known av)

-- The hosts that stay keep their relative order, at the front.
pub order_available_hosts_stable :
    (av prev : List String)
    → (old new : List String) × (order_available_hosts av prev ≡ old ++ new)
      × IsSubsequence old prev
      × ((x : String) → contains x old ≡ (contains x prev && contains x av))
      × ((x : String) → contains x new ≡ (contains x av && not (contains x prev)))
unfolding order_available_hosts
order_available_hosts_stable av prev =
    let known = keep_known av prev in
    (
      known,
      add_new known av,
      refl,
      keep_known-IsSubsequence av prev,
      (λ x. contains-keep_known x av prev),
      (λ x. rw (contains-add_new, contains-keep_known) (ground arith)),
    )
