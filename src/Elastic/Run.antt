-- ===== src/Elastic/Run.antt =====
-- horovod/common/elastic.py, run_fn: in which state the training function is called.
use horovod.Common.{
  String, ◌≡◌, refl, Bool, true, false, Option, none, some, List, [], ◌∷◌, ◌++◌, host_key, All,
}
use horovod.Common.Dict.{lookup, Nodup, keys}
use horovod.Elastic.{
  State, on_reset, restore, sync, Raised, internal_error, hosts_updated, other_error, Turn,
  returned, again, handle, after_call, entered, after_sync, turn, run,
}
use horovod.Elastic.Commit.{first_of, is_saving, restore-sync}

-- An exception that the loop handles.
abbrev pub is_handled : Raised → Bool
is_handled internal_error = true
is_handled (hosts_updated skip_sync) = true
is_handled other_error = false

abbrev pub Handled : Option Raised → Type 0
Handled none = Unit
Handled (some e) = is_handled e ≡ true

abbrev pub Fails : Option Raised → Type 0
Fails none = false ≡ true
Fails (some e) = is_handled e ≡ true

-- A turn that the function does not finish, because of failures or new hosts.
pub record IsInterrupted (t : Turn) : Type 0 where
  pub at_sync : Handled t.sync_raises
  pub at_call : Fails t.raises

handle-again :
    (e : Raised) (s : State)
    → is_handled e ≡ true
    → (skip : Bool) × (u : State) × (handle e s ≡ again skip u)
unfolding handle
handle-again internal_error s h = (false, on_reset (restore s), refl)
handle-again (hosts_updated skip) s h = (skip, on_reset s, refl)
handle-again other_error s h = cc

after_call-again :
    (o : Option Raised) (s : State)
    → Fails o
    → (skip : Bool) × (u : State) × (after_call o s ≡ again skip u)
after_call-again none s h = cc
after_call-again (some e) s h = handle-again e s h

after_sync-again :
    (o : Option Raised) (t : Turn) (s u : State)
    → Handled o
    → Fails t.raises
    → (skip : Bool) × (v : State) × (after_sync o t s u ≡ again skip v)
after_sync-again none t s u h f = after_call-again t.raises (t.work u) f
after_sync-again (some e) t s u h f = handle-again e s h

turn-again :
    (skip : Bool) (t : Turn) (s : State)
    → IsInterrupted t
    → (skip' : Bool) × (u : State) × (turn skip t s ≡ again skip' u)
unfolding turn entered
turn-again true t s i = after_sync-again none t s s tt i.at_call
turn-again false t s i = after_sync-again t.sync_raises t s (entered false t s) i.at_sync i.at_call

-- However often workers fail and hosts come and go, the loop goes on, and it returns as soon as the
-- function and the synchronisation before it succeed.
run-returned :
    (skip : Bool) (s : State) (turns : List Turn) (last : Turn)
    → All IsInterrupted turns
    → last.sync_raises ≡ none
    → last.raises ≡ none
    → (u : State) × (run skip s (turns ++ last ∷ []) ≡ some (returned (last.work u)))
unfolding run turn entered
run-returned true s [] last i e f = (s, rw f refl)
run-returned false s [] last i e f = (entered false last s, rw (e, f) refl)
run-returned skip s (t ∷ turns) last (i, is) e f =
    let (skip', u, g) = turn-again skip t s i in
    let (v, h) = run-returned skip' u turns last is e f in (v, rw (run, g) h)

-- After an internal error of the function the next turn synchronises, even when the last one had
-- skipped it: the function is called with the coordinator's values, and nothing that the failed
-- turn has done to them is left.
pub internal_error-entered :
    (skip : Bool) (t next : Turn) (s : State) (k : String)
    → t.sync_raises ≡ none
    → t.raises ≡ some internal_error
    → is_saving (t.work (entered skip t s)).saved_state ≡ true
    → Nodup (keys next.coordinator)
    → (u : State) × (turn skip t s ≡ again false u)
      × (lookup k (entered false next u).attrs
          ≡ first_of (lookup k next.coordinator) (lookup k u.attrs))
unfolding turn entered handle on_reset restore
internal_error-entered true t next s k ok e saving nd =
    let u = on_reset (restore (t.work s)) in
    (u, rw e refl, (restore-sync next.coordinator [] u k nd saving).0)
internal_error-entered false t next s k ok e saving nd =
    let u = on_reset (restore (t.work (sync t.coordinator s))) in
    (u, rw (ok, e) refl, (restore-sync next.coordinator [] u k nd saving).0)
