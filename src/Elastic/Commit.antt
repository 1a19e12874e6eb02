-- ===== src/Elastic/Commit.antt =====
-- horovod/common/elastic.py, ObjectState: what a commit saves, a restore brings back, and a
-- synchronisation shares.
use horovod.Common.{
  ℕ, String, ◌≡◌, ◌≢◌, refl, ap, sym, ◌∙◌, Bool, true, false, Option, none, some, List, [], ◌∷◌,
  if◌then◌else◌, ◌=?◌, host_key, str_iff, Bool-cases, Option-cases, inl, inr, All,
}
use horovod.Common.Dict.{
  keys, contains, lookup, insert, lookup-insert, Nodup, lookup-contains, contains-All,
}
use horovod.Elastic.{Attrs, State, set_attrs, read_attrs, save, restore, sync, sync_with}

abbrev pub first_of : Option ℕ → Option ℕ → Option ℕ
first_of none o = o
first_of (some v) o = some v

-- The saved values win over the old ones.
lookup-set_attrs :
    (k : String) (saved attrs : Attrs)
    → Nodup (keys saved)
    → lookup k (set_attrs saved attrs) ≡ first_of (lookup k saved) (lookup k attrs)
unfolding set_attrs lookup
lookup-set_attrs k [] attrs nd = refl
lookup-set_attrs k ((j, v) ∷ saved) attrs (fresh, nd) =
    let ih = lookup-set_attrs k saved (insert j v attrs) nd in
    let look = lookup-insert j k v attrs in
    elim (Bool-cases (j =? k)) [
      | inl here ↦
          let gone : lookup k saved ≡ none =
            lookup-contains k saved (rw ((str_iff j k).0 here) at fresh) in
          ih ∙ rw (gone, look, here) refl
      | inr other ↦ ih ∙ rw (look, other) refl
    ]

-- Every attribute that is named is there.
abbrev pub AllPresent : List String → Attrs → Type 0
AllPresent ks attrs = All (λ k. lookup k attrs ≢ none) ks

-- What is read for the keys is what the attributes hold.
read_attrs_present :
    (ks : List String) (attrs : Attrs)
    → AllPresent ks attrs
    → (saved : Attrs) × (read_attrs ks attrs ≡ some saved)
      × (keys saved ≡ ks)
      × ((k : String) → lookup k saved ≡ (if contains k ks then lookup k attrs else none))
unfolding read_attrs lookup contains
read_attrs_present [] attrs p = ([], refl, refl, λ k. refl)
read_attrs_present (j ∷ ks) attrs (here, p) =
    let (saved, f, same, look) = read_attrs_present ks attrs p in
    elim (Option-cases (lookup j attrs)) [
      | inl missing ↦ absurd (here missing)
      | inr (v, there) ↦ (
        (j, v) ∷ saved,
        rw (read_attrs, there, f) refl,
        ap (λ t. j ∷ t) same,
        λ k. elim (Bool-cases (j =? k)) [
          | inl own ↦ rw (own, sym ((str_iff j k).0 own), there) refl
          | inr other ↦ rw other (look k)
        ],
      )
    ]

first_of-lookup :
    (k : String) (ks : List String) (saved attrs changed : Attrs)
    → AllPresent ks attrs
    → lookup k saved ≡ (if contains k ks then lookup k attrs else none)
    → first_of (lookup k saved) (lookup k changed)
      ≡ (if contains k ks then lookup k attrs else lookup k changed)
first_of-lookup k ks saved attrs changed p e = elim (Bool-cases (contains k ks)) [
  | inl inside ↦ elim (Option-cases (lookup k attrs)) [
    | inl missing ↦ absurd (contains-All (λ j. lookup j attrs ≢ none) ks k p inside missing)
    | inr (v, there) ↦ rw (e, inside, there) refl
  ]
  | inr outside ↦ rw (e, outside) refl
]

-- The saved keys are different and their attributes are there: a commit saves, and a restore, after the
-- attributes have been bound to any other objects, binds all saved keys to the very objects of the
-- commit again, and leaves the other attributes as they are. What is in an object is not part of it.
pub restore-save :
    (s : State) (changed : Attrs) (k : String)
    → Nodup (keys s.saved_state)
    → AllPresent (keys s.saved_state) s.attrs
    → (t : State) × (save s ≡ some t)
      × (lookup k (restore (record t { attrs = changed })).attrs
          ≡ (if contains k (keys s.saved_state) then lookup k s.attrs else lookup k changed))
unfolding save restore
restore-save s changed k nd p =
    let (saved, f, same, look) = read_attrs_present (keys s.saved_state) s.attrs p in
    (
      record s { saved_state = saved },
      rw (save, f) refl,
      lookup-set_attrs k saved changed (rw same nd)
          ∙ first_of-lookup k (keys s.saved_state) saved s.attrs changed p (look k),
    )

abbrev pub is_saving : Attrs → Bool
is_saving [] = false
is_saving (e ∷ saved) = true

-- After a synchronisation every worker that saves something has the coordinator's values, and goes
-- back to them at a restore, whatever it has changed in between.
pub restore-sync :
    (coordinator changed : Attrs) (s : State) (k : String)
    → Nodup (keys coordinator)
    → is_saving s.saved_state ≡ true
    → (lookup k (sync coordinator s).attrs ≡ first_of (lookup k coordinator) (lookup k s.attrs))
      × (lookup k (restore (record (sync coordinator s) { attrs = changed })).attrs
          ≡ first_of (lookup k coordinator) (lookup k changed))
unfolding sync restore
restore-sync coordinator changed s k nd saving = go s.saved_state saving
  where
    go :
        (saved : Attrs)
        → is_saving saved ≡ true
        → (lookup k (sync_with coordinator saved s).attrs
            ≡ first_of (lookup k coordinator) (lookup k s.attrs))
          × (lookup k (set_attrs (sync_with coordinator saved s).saved_state changed)
              ≡ first_of (lookup k coordinator) (lookup k changed))
    go [] h = cc
    go (e ∷ saved) h =
        (lookup-set_attrs k coordinator s.attrs nd, lookup-set_attrs k coordinator changed nd)
