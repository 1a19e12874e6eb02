-- ===== src/Optimizer/Rounds.antt =====
-- `synchronize` of the ungrouped optimizer hands over what the hooks have not.
use horovod.Common.{
  ℕ, suc, ◌+◌, ◌≡◌, refl, inl, inr, Bool, true, false, not, ◌&&◌, ◌||◌, Option, none, some, List,
  [], ◌∷◌, length, eqb_iff, rank_key, arith, Bool-cases,
}
use horovod.Common.Dict.{Dict, contains, keys, lookup, lookup-contains, Nodup, Nodup-insert}
use horovod.Optimizer.Keys.{param, group, handle_key}
use horovod.Optimizer.{
  Optimizer, Handles, ok, handed, submit, set_handle, completed, submit_missing, unsent,
  synchronize,
}
use horovod.Optimizer.Hooks.{
  count, one, count-snoc, count-append, lookup-insert_param, OnlyParams, OnlyParams-insert, Sent,
  hooks, hooks-Sent,
}

-- Whether the dictionary of handles has one, and whether it waits for more passes.
abbrev pub present : Option (Option ℕ) → Bool
present none = false
present (some h) = true

abbrev waiting : Option (Option ℕ) → Bool
waiting none = false
waiting (some none) = true
waiting (some (some h)) = false

pub contains-completed :
    (members : Dict ℕ (List ℕ)) (p : ℕ) (d : Handles)
    → OnlyParams d
    → contains p (completed members d) ≡ present (lookup (param p) d)
unfolding contains completed lookup
contains-completed members p [] only = refl
contains-completed members p ((param q, h) ∷ d) only =
    ground (arith, contains-completed members p d only)
contains-completed members p ((group g, h) ∷ d) only = absurd only

count-unsent :
    (p : ℕ) (d : Handles)
    → OnlyParams d
    → Nodup (keys d)
    → count p (unsent d) ≡ one (waiting (lookup (param p) d))
unfolding count unsent lookup
count-unsent p [] only nd = refl
count-unsent p ((param q, none) ∷ d) only (c, nd) =
    ground (arith, count-unsent p d only nd, lookup-contains (param q) d c, eqb_iff q p)
count-unsent p ((param q, some h) ∷ d) only (c, nd) =
    ground (arith, count-unsent p d only nd, lookup-contains (param q) d c, eqb_iff q p)
count-unsent p ((group g, h) ∷ d) only nd = absurd only

-- What the loop over the missing parameters does to each of them.
pub record Filled (done ps : List ℕ) (s u : Optimizer) : Type 0 where
  pub sent_once :
      (p : ℕ)
      → count p u.submitted ≡ count p s.submitted + one (contains p ps && not (contains p done))
  pub now_handed :
      (p : ℕ)
      → waiting (lookup (param p) u.handles)
        ≡ (waiting (lookup (param p) s.handles) && not (contains p ps && not (contains p done)))
  pub now_present :
      (p : ℕ)
      → present (lookup (param p) u.handles)
        ≡ (present (lookup (param p) s.handles) || (contains p ps && not (contains p done)))
  pub only_params : OnlyParams u.handles
  pub one_each : Nodup (keys u.handles)

pub submit_missing-Filled :
    (done ps : List ℕ) (s : Optimizer)
    → Nodup ps
    → OnlyParams s.handles
    → Nodup (keys s.handles)
    → Filled done ps s (submit_missing done ps s)
unfolding submit_missing contains
submit_missing-Filled done [] s nps only nd = record {
  sent_once = λ p. omega arith;
  now_handed = λ p. ground arith;
  now_present = λ p. ground arith;
  only_params = only;
  one_each = nd;
}
submit_missing-Filled done (q ∷ ps) s (c, nps) only nd = elim (Bool-cases (contains q done)) [
  | inl e ↦ rw (e) (
      let rest = submit_missing-Filled done ps s nps only nd in
      record {
        sent_once = λ p. ground (arith, rest.sent_once p, eqb_iff q p);
        now_handed = λ p. ground (arith, rest.now_handed p, eqb_iff q p);
        now_present = λ p. ground (arith, rest.now_present p, eqb_iff q p);
        only_params = rest.only_params;
        one_each = rest.one_each;
      })
  | inr e ↦ rw (e) (
      let h = some (length s.submitted) in
      let rest =
        submit_missing-Filled done ps (set_handle q h (submit q s)) nps
          (OnlyParams-insert q h s.handles only) (Nodup-insert (param q) h s.handles nd) in
      record {
        sent_once = λ p. ground (arith, rest.sent_once p, eqb_iff q p, count-snoc p q s.submitted);
        now_handed = λ p.
            ground (arith, rest.now_handed p, eqb_iff q p, lookup-insert_param q p h s.handles);
        now_present = λ p.
            ground (arith, rest.now_present p, eqb_iff q p, lookup-insert_param q p h s.handles);
        only_params = rest.only_params;
        one_each = rest.one_each;
      })
]

exactly_one :
    (o : Option (Option ℕ))
    → one (handed o) + one (not (present o)) + one (waiting o && not (not (present o))) ≡ 1
exactly_one none = refl
exactly_one (some none) = refl
exactly_one (some (some h)) = refl

count-synchronize :
    (base : ℕ → ℕ) (u : Optimizer) (p : ℕ)
    → Sent base u
    → Nodup u.requires_update
    → contains p u.requires_update ≡ true
    → count p (synchronize u).submitted ≡ suc (base p)
unfolding synchronize
count-synchronize base u p sent nd c =
    let done = completed u.group_members u.handles in
    let f = submit_missing-Filled done u.requires_update u nd sent.only_params sent.one_each in
    let t = submit_missing done u.requires_update u in
    ground (
      arith,
      count-append p t.submitted (unsent t.handles),
      count-unsent p t.handles f.only_params f.one_each,
      f.sent_once p,
      f.now_handed p,
      sent.counted p,
      contains-completed u.group_members p u.handles sent.only_params,
      exactly_one (lookup (param p) u.handles),
    )

handed_clean : (q : ℕ) (d : Handles) → d ≡ [] → handed (lookup (param q) d) ≡ false
unfolding lookup
handed_clean q [] e = refl
handed_clean q (h ∷ d) e = cc

pub clean-Sent : (s : Optimizer) → s.handles ≡ [] → Sent (λ q. count q s.submitted) s
clean-Sent s clean = record {
  counted = λ q. ground (arith, handed_clean q s.handles clean);
  no_delay = λ q e. ground (arith, handed_clean q s.handles clean);
  only_params = rw (clean) tt;
  one_each = rw (clean) tt;
}

-- From a state with no handle, after any hooks that raise nothing, `synchronize` leaves each
-- parameter that is to be updated handed over exactly once more, when there are no groups and the
-- parameters to be updated are different.
pub synchronize_once :
    (ps : List ℕ) (s u : Optimizer) (p : ℕ)
    → s.groups ≡ false
    → s.handles ≡ []
    → Nodup s.requires_update
    → contains p s.requires_update ≡ true
    → hooks ps s ≡ ok u
    → count p (synchronize u).submitted ≡ suc (count p s.submitted)
synchronize_once ps s u p g clean nd c h =
    let (sent, same) = hooks-Sent (λ q. count q s.submitted) ps s u g (clean-Sent s clean) h in
    count-synchronize (λ q. count q s.submitted) u p sent (rw (same.same_requires) nd)
      (rw (same.same_requires) c)
