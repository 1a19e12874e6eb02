-- ===== src/Discovery/Changes.antt =====
-- `check_update`: the bits of its result say whether something was taken away or added.
use horovod.Common.{
  ℕ, ◌<◌, String, ◌≡◌, refl, ◌↔◌, true, false, Option, none, some, [], ◌∷◌, ◌||◌, arith, ◌=?◌,
  host_key, str_iff, Bool-cases, Option-cases, inl, inr,
}
use horovod.Common.Dict.{Dict, keys, contains, Nodup, lookup, lookup-contains}
use horovod.Worker.Update.{has_removed, has_added, has_removed-∪, has_added-∪}
use horovod.Discovery.{removed_hosts, changed_hosts, check_update, key_update, slot_update}

abbrev pub Below : Option ℕ → ℕ → Type 0
Below none n = Unit
Below (some m) n = m < n

-- Some host of `before` is missing `after`, or has fewer slots.
pub record Lost (after before : Dict String ℕ) : Type 0 where
  pub host : String
  pub slots : ℕ
  pub had : lookup host before ≡ some slots
  pub less : Below (lookup host after) slots

removed_hosts_sound :
    (cur d : Dict String ℕ)
    → has_removed (removed_hosts cur d) ≡ true
    → (h : String) × (n : ℕ) × (lookup h d ≡ some n) × (lookup h cur ≡ none)
unfolding removed_hosts lookup
removed_hosts_sound cur [] e = cc
removed_hosts_sound cur ((h, n) ∷ d) e = elim (Option-cases (lookup h cur)) [
  | inl gone ↦ (h, n, ground (arith, str_iff h h), gone)
  | inr (m, there) ↦
      let (k, v, has, miss) =
        removed_hosts_sound cur d
          (ground (arith, has_removed-∪ (key_update (lookup h cur)) (removed_hosts cur d))) in
      (k, v, ground (arith, str_iff h k), miss)
]

removed_hosts_complete :
    (cur d : Dict String ℕ) (k : String) (v : ℕ)
    → lookup k d ≡ some v
    → lookup k cur ≡ none
    → has_removed (removed_hosts cur d) ≡ true
unfolding removed_hosts lookup
removed_hosts_complete cur [] k v has miss = cc
removed_hosts_complete cur ((h, n) ∷ d) k v has miss =
    let bits = has_removed-∪ (key_update (lookup h cur)) (removed_hosts cur d) in
    elim (Bool-cases (h =? k)) [
      | inl here ↦ let e : lookup h cur ≡ none = rw ((str_iff h k).0 here) miss in rw (bits, e)
      | inr there ↦
          let ih = removed_hosts_complete cur d k v (rw there at has) miss in
          rw (bits, ih) (ground arith)
    ]

removed_hosts_adds_none : (cur d : Dict String ℕ) → has_added (removed_hosts cur d) ≡ false
unfolding removed_hosts
removed_hosts_adds_none cur [] = refl
removed_hosts_adds_none cur ((h, n) ∷ d) = ground (
  arith,
  has_added-∪ (key_update (lookup h cur)) (removed_hosts cur d),
  removed_hosts_adds_none cur d,
)

-- The entry of a key behind the first one.
pub lookup_behind :
    (h k : String) (n v : ℕ) (d : Dict String ℕ)
    → contains h (keys d) ≡ false
    → lookup k d ≡ some v
    → lookup k ((h, n) ∷ d) ≡ some v
unfolding lookup
lookup_behind h k n v d c e = elim (Bool-cases (h =? k)) [
  | inl here ↦ cc (lookup-contains h d c, (str_iff h k).0 here, e)
  | inr there ↦ rw there e
]

pub lookup_head : (h : String) (n : ℕ) (d : Dict String ℕ) → lookup h ((h, n) ∷ d) ≡ some n
unfolding lookup
lookup_head h n d = rw ((str_iff h h).1 refl)

slot_update_removed :
    (n : ℕ) (o : Option ℕ) → has_removed (slot_update n o) ≡ true → (m : ℕ) × (o ≡ some m) × (n < m)
slot_update_removed n none e = cc
slot_update_removed n (some m) e = (m, refl, ground arith)

slot_update_added : (n : ℕ) (o : Option ℕ) → has_added (slot_update n o) ≡ true → Below o n
slot_update_added n none e = tt
slot_update_added n (some m) e = ground arith

added_slot_update : (n : ℕ) (o : Option ℕ) → Below o n → has_added (slot_update n o) ≡ true
added_slot_update n none e = refl
added_slot_update n (some m) e = ground arith

changed_hosts_removed :
    (prev d : Dict String ℕ)
    → Nodup (keys d)
    → has_removed (changed_hosts prev d) ≡ true
    → (h : String) × (n m : ℕ) × (lookup h d ≡ some n) × (lookup h prev ≡ some m) × (n < m)
unfolding changed_hosts
changed_hosts_removed prev [] nd e = cc
changed_hosts_removed prev ((h, n) ∷ d) (c, nd) e =
    elim (Bool-cases (has_removed (slot_update n (lookup h prev)))) [
      | inl here ↦
          let (m, had, less) = slot_update_removed n (lookup h prev) here in
          (h, n, m, lookup_head h n d, had, less)
      | inr later ↦
          let (k, v, w, has, had, less) = changed_hosts_removed prev d nd (
            ground (arith, has_removed-∪ (slot_update n (lookup h prev)) (changed_hosts prev d))) in
          (k, v, w, lookup_behind h k n v d c has, had, less)
    ]

changed_hosts_added :
    (prev d : Dict String ℕ)
    → Nodup (keys d)
    → has_added (changed_hosts prev d) ≡ true
    → Lost prev d
unfolding changed_hosts
changed_hosts_added prev [] nd e = cc
changed_hosts_added prev ((h, n) ∷ d) (c, nd) e =
    elim (Bool-cases (has_added (slot_update n (lookup h prev)))) [
      | inl here ↦ record {
        host = h;
        slots = n;
        had = lookup_head h n d;
        less = slot_update_added n (lookup h prev) here;
      }
      | inr later ↦
          let l =
            changed_hosts_added prev d nd (
              ground (arith, has_added-∪ (slot_update n (lookup h prev)) (changed_hosts prev d))) in
          record {
            host = l.host;
            slots = l.slots;
            had = lookup_behind h l.host n l.slots d c l.had;
            less = l.less;
          }
    ]

removed_changed_hosts :
    (prev d : Dict String ℕ) (k : String) (n m : ℕ)
    → lookup k d ≡ some n
    → lookup k prev ≡ some m
    → n < m
    → has_removed (changed_hosts prev d) ≡ true
unfolding changed_hosts lookup
removed_changed_hosts prev [] k n m has had less = cc
removed_changed_hosts prev ((h, i) ∷ d) k n m has had less =
    let bits = has_removed-∪ (slot_update i (lookup h prev)) (changed_hosts prev d) in
    elim (Bool-cases (h =? k)) [
      | inl here ↦
          let e : lookup h prev ≡ some m = rw ((str_iff h k).0 here) had in
          let same : some i ≡ some n = rw here at has in rw (bits, e) (ground arith)
      | inr there ↦
          rw (bits, removed_changed_hosts prev d k n m (rw there at has) had less) (ground arith)
    ]

added_changed_hosts :
    (prev d : Dict String ℕ) (k : String) (n : ℕ)
    → lookup k d ≡ some n
    → Below (lookup k prev) n
    → has_added (changed_hosts prev d) ≡ true
unfolding changed_hosts lookup
added_changed_hosts prev [] k n has less = cc
added_changed_hosts prev ((h, i) ∷ d) k n has less =
    let bits = has_added-∪ (slot_update i (lookup h prev)) (changed_hosts prev d) in
    elim (Bool-cases (h =? k)) [
      | inl here ↦
          let at_h : Below (lookup h prev) n = rw ((str_iff h k).0 here) less in
          let entry : some i ≡ some n = rw here at has in
          let same : i ≡ n = ground arith in
          rw (bits, same, added_slot_update n (lookup h prev) at_h) (ground arith)
      | inr there ↦ rw (bits, added_changed_hosts prev d k n (rw there at has) less) (ground arith)
    ]

-- The removed bit is set exactly when a known host is gone or has lost slots.
pub check_update_removed :
    (cur prev : Dict String ℕ)
    → Nodup (keys cur)
    → (has_removed (check_update cur prev) ≡ true) ↔ Lost cur prev
unfolding check_update
check_update_removed cur prev nd = (to, from)
  where
    bits :
        has_removed (check_update cur prev)
        ≡ (has_removed (removed_hosts cur prev) || has_removed (changed_hosts prev cur))
    bits = has_removed-∪ (removed_hosts cur prev) (changed_hosts prev cur)

    to : has_removed (check_update cur prev) ≡ true → Lost cur prev
    to e = elim (Bool-cases (has_removed (removed_hosts cur prev))) [
      | inl gone ↦
          let (h, n, had, miss) = removed_hosts_sound cur prev gone in
          record { host = h; slots = n; had = had; less = rw miss tt }
      | inr stay ↦
          let (h, n, m, has, had, less) =
            changed_hosts_removed prev cur nd (ground (arith, bits)) in
          record { host = h; slots = m; had = had; less = rw has less }
    ]

    from : Lost cur prev → has_removed (check_update cur prev) ≡ true
    from l = elim (Option-cases (lookup l.host cur)) [
      | inl miss ↦ rw (bits, removed_hosts_complete cur prev l.host l.slots l.had miss)
      | inr (n, has) ↦
          rw (bits, removed_changed_hosts prev cur l.host n l.slots has l.had (rw has at l.less))
            (ground arith)
    ]

-- The added bit is set exactly when a host is new or has gained slots.
pub check_update_added :
    (cur prev : Dict String ℕ)
    → Nodup (keys cur)
    → (has_added (check_update cur prev) ≡ true) ↔ Lost prev cur
unfolding check_update
check_update_added cur prev nd = (
  λ e. changed_hosts_added prev cur nd (
      ground (
        arith,
        has_added-∪ (removed_hosts cur prev) (changed_hosts prev cur),
        removed_hosts_adds_none cur prev,
      )),
  λ l.
      rw
        (
          has_added-∪ (removed_hosts cur prev) (changed_hosts prev cur),
          added_changed_hosts prev cur l.host l.slots l.had l.less,
        )
        (ground arith),
)
