-- ===== src/ProcessSets/Distinct.antt =====
-- horovod/common/process_sets.py, _init_process_sets: no number is given to two objects.
use horovod.Common.{
  ℕ, ◌≡◌, ◌≢◌, refl, sym, ap, ◌∙◌, true, false, Option, none, some, List, [], ◌∷◌, ◌||◌, eqb,
  eqb_iff, arith, if◌then◌else◌, rank_key, Bool-cases, Option-cases, inl, inr,
}
use horovod.Common.Dict.{Dict, lookup, insert, lookup-insert, contains}
use horovod.ProcessSets.{
  ProcessSet, Store, Loop, invalidate, resolve, settle, settle_at, visit, visit_all,
  init_process_sets,
}

abbrev pub id_of : Option ProcessSet → Option ℕ
id_of none = none
id_of (some ps) = ps.process_set_id

-- The number of an object.
abbrev pub id_at : ℕ → Store → Option ℕ
id_at r store = id_of (lookup r store)

-- What holds of the objects that the loop has visited.
record IsSettled (l : Loop) (visited : List ℕ) : Type 0 where
  global : contains 0 l.ids_seen ≡ true
  seen :
      (r i : ℕ)
      → contains r visited ≡ true
      → id_at r l.store ≡ some i
      → (contains i l.ids_seen ≡ true) × (i ≢ 0)
  apart :
      (r q i : ℕ)
      → contains r visited ≡ true
      → contains q visited ≡ true
      → id_at r l.store ≡ some i
      → id_at q l.store ≡ some i
      → r ≡ q

id_at-insert :
    (r q : ℕ) (ps : ProcessSet) (store : Store)
    → id_at q (insert r ps store) ≡ (if eqb r q then ps.process_set_id else id_at q store)
id_at-insert r q ps store = ground (arith, lookup-insert r q ps store)

-- An object that gets no number.
settle_none :
    (r : ℕ) (ps : ProcessSet) (l : Loop) (visited : List ℕ)
    → IsSettled l visited
    → IsSettled (record l { store = insert r (invalidate ps) l.store }) (r ∷ visited)
unfolding contains
settle_none r ps l visited s = record {
  global = s.global;
  seen = λ q i v e. ground (arith, id_at-insert r q (invalidate ps) l.store, v, e, s.seen q i);
  apart = λ p q i v w e f. ground (
    arith,
    id_at-insert r p (invalidate ps) l.store,
    id_at-insert r q (invalidate ps) l.store,
    v,
    w,
    e,
    f,
    s.apart p q i,
  );
}

-- An object that gets a number for the first time.
settle_new :
    (r i : ℕ) (ps : ProcessSet) (l : Loop) (visited : List ℕ)
    → ps.process_set_id ≡ some i
    → contains i l.ids_seen ≡ false
    → IsSettled l visited
    → IsSettled (record { store = insert r ps l.store; ids_seen = i ∷ l.ids_seen }) (r ∷ visited)
unfolding contains
settle_new r i ps l visited own fresh s = record {
  global = ground (arith, s.global);
  seen = λ q j v e. elim (Bool-cases (eqb r q)) [
    | inl here ↦ ground (arith, id_at-insert r q ps l.store, here, own, e, fresh, s.global)
    | inr other ↦
        let e' : id_at q l.store ≡ some j = ground (arith, id_at-insert r q ps l.store, other, e) in
        let (c, ne) = s.seen q j (rw other at v) e' in (ground (arith, c), ne)
  ];
  apart = λ p q j v w e f. elim (Bool-cases (eqb r p)) [
    | inl p_here ↦ elim (Bool-cases (eqb r q)) [
      | inl q_here ↦ sym ((eqb_iff r p).0 p_here) ∙ (eqb_iff r q).0 q_here
      | inr q_there ↦
          let f' : id_at q l.store ≡ some j =
            ground (arith, id_at-insert r q ps l.store, q_there, f) in
          let (c, _) = s.seen q j (rw q_there at w) f' in
          ground (arith, id_at-insert r p ps l.store, p_here, own, e, fresh, c)
    ]
    | inr p_there ↦
        let e' : id_at p l.store ≡ some j =
          ground (arith, id_at-insert r p ps l.store, p_there, e) in
        let (c, _) = s.seen p j (rw p_there at v) e' in
        elim (Bool-cases (eqb r q)) [
          | inl q_here ↦ ground (arith, id_at-insert r q ps l.store, q_here, own, f, fresh, c)
          | inr q_there ↦
              let f' : id_at q l.store ≡ some j =
                ground (arith, id_at-insert r q ps l.store, q_there, f) in
              s.apart p q j (rw p_there at v) (rw q_there at w) e' f'
        ]
  ];
}

settle_absent :
    (r : ℕ) (l : Loop) (visited : List ℕ)
    → lookup r l.store ≡ none
    → IsSettled l visited
    → IsSettled l (r ∷ visited)
unfolding contains
settle_absent r l visited gone s = record {
  global = s.global;
  seen = λ q i v e. ground (arith, gone, eqb_iff r q, v, e, s.seen q i);
  apart =
      λ p q i v w e f. ground (arith, gone, eqb_iff r p, eqb_iff r q, v, w, e, f, s.apart p q i);
}

-- The visited objects, the last one first.
abbrev rev_onto : List ℕ → List ℕ → List ℕ
rev_onto [] visited = visited
rev_onto (r ∷ rs) visited = rev_onto rs (r ∷ visited)

rev_onto_keeps :
    (q : ℕ) (rs visited : List ℕ)
    → (contains q rs || contains q visited) ≡ true
    → contains q (rev_onto rs visited) ≡ true
unfolding contains
rev_onto_keeps q [] visited c = c
rev_onto_keeps q (r ∷ rs) visited c = rev_onto_keeps q rs (r ∷ visited) (ground (arith, c))

some_loop : Loop → Option Loop → Loop
some_loop l none = l
some_loop l (some m) = m

module _ (table : Dict ℕ (List ℕ)) (comm_process_set_id : ℕ → ℕ) where
  settle_at-IsSettled :
      (r : ℕ) (ps : ProcessSet) (o : Option ℕ) (l : Loop) (visited : List ℕ)
      → ps.process_set_id ≡ o
      → IsSettled l visited
      → IsSettled (settle_at table comm_process_set_id r ps o l) (r ∷ visited)
  settle_at-IsSettled r ps none l visited e s = settle_none r ps l visited s
  settle_at-IsSettled r ps (some i) l visited e s = elim (Bool-cases (contains i l.ids_seen)) [
    | inl known ↦ rw known (settle_none r ps l visited s)
    | inr new ↦ rw new (settle_new r i ps l visited e new s)
  ]

  visit-IsSettled :
      (r : ℕ) (l m : Loop) (visited : List ℕ)
      → visit table comm_process_set_id r l ≡ some m
      → IsSettled l visited
      → IsSettled m (r ∷ visited)
  unfolding visit settle some_loop
  visit-IsSettled r l m visited e s = elim (Option-cases (lookup r l.store)) [
    | inl gone ↦
        let same : l ≡ m = ap (some_loop l) (rw gone at e) in
        rw (sym same) (settle_absent r l visited gone s)
    | inr (ps, there) ↦ elim (Option-cases (resolve table comm_process_set_id ps)) [
      | inl fails ↦ cc (rw (there, fails) at e)
      | inr (qs, found) ↦
          let same : settle_at table comm_process_set_id r qs qs.process_set_id l ≡ m =
            ap (some_loop l) (rw (there, found) at e) in
          rw (sym same) (settle_at-IsSettled r qs qs.process_set_id l visited refl s)
    ]
  ]

  visit_all-IsSettled :
      (rs : List ℕ) (l m : Loop) (visited : List ℕ)
      → visit_all table comm_process_set_id rs l ≡ some m
      → IsSettled l visited
      → IsSettled m (rev_onto rs visited)
  unfolding visit_all some_loop
  visit_all-IsSettled [] l m visited e s = rw (sym (ap (some_loop l) e)) s
  visit_all-IsSettled (r ∷ rs) l m visited e s =
      elim (Option-cases (visit table comm_process_set_id r l)) [
        | inl fails ↦ cc (rw fails at e)
        | inr (k, f) ↦
            visit_all-IsSettled rs k m (r ∷ visited) (rw f at e) (visit-IsSettled r l k visited f s)
      ]

  -- After a successful initialisation no two of the objects have the same number, and none has the
  -- number 0 of the global process set, even when an object is passed twice.
  pub init_process_sets-apart :
      (rs : List ℕ) (store : Store) (l : Loop) (r q i : ℕ)
      → init_process_sets table comm_process_set_id rs store ≡ some l
      → contains r rs ≡ true
      → contains q rs ≡ true
      → id_at r l.store ≡ some i
      → id_at q l.store ≡ some i
      → (r ≡ q) × (i ≢ 0)
  unfolding init_process_sets contains
  init_process_sets-apart rs store l r q i e cr cq er eq =
      let start : IsSettled (record { store = store; ids_seen = 0 ∷ [] }) [] = record {
        global = refl;
        seen = λ p j v f. cc;
        apart = λ p p' j v w f g. cc;
      } in
      let s = visit_all-IsSettled rs (record { store = store; ids_seen = 0 ∷ [] }) l [] e start in
      let vr = rev_onto_keeps r rs [] (ground (arith, cr)) in
      let vq = rev_onto_keeps q rs [] (ground (arith, cq)) in
      let (_, ne) = s.seen r i vr er in (s.apart r q i vr vq er eq, ne)
