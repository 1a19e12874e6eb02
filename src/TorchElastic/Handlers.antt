-- ===== src/TorchElastic/Handlers.antt =====
-- horovod/torch/elastic/state.py: the saving and the restoring of all handlers.
use horovod.Common.{
  ℕ, ◌≤◌, ◌<◌, ◌≡◌, ◌≢◌, refl, sym, ap, ◌∙◌, subst, true, false, Option, none, some, List, [], ◌∷◌,
  String, eqb_iff, host_key, rank_key, arith,
}
use horovod.Common.Dict.{Dict, contains, Nodup}
use horovod.TorchElastic.{
  Object, module_object, optimizer_object, sampler_object, plain_object, set_object, Memory, write,
  StateDict, StateHandler, state_dict, deepcopy, save_handler, save_handlers, restore_handlers,
  ◌>>=◌,
}
use horovod.TorchElastic.Frames.{
  Contents, tensor_state, sampler_state, Holds, Holds-Grows, Holds-KeepsCopies, Fits, Has,
  Has-KeepsCopies, KeepsCopies, KeepsCopies-write, write_other, write_self, load_state_dict-Has,
  Source, Grows, Grows-refl, save_at,
}
use horovod.TorchElastic.Each.{values, Each, Each-map}

bind_assoc :
    {A B C : Type 0} (o : Option A) (f : A → Option B) (g : B → Option C)
    → (o >>= (λ a. f a >>= g)) ≡ ((o >>= f) >>= g)
bind_assoc none f g = refl
bind_assoc (some a) f g = refl

apart : (a b : ℕ) (xs : List ℕ) → contains a xs ≡ false → contains b xs ≡ true → a ≢ b
apart a b xs out inside z = (let c = subst (λ k. contains k xs ≡ false) z out in cc)

not_first : (a b : ℕ) (xs : List ℕ) → contains b (a ∷ xs) ≡ false → a ≢ b
unfolding contains
not_first a b xs out z = ground (arith, out, eqb_iff a b, z)

abbrev put_saved : StateHandler → Memory × StateDict → Option (Memory × StateHandler)
put_saved h (n, d) = some (n, record h { saved = d })

abbrev put_front :
    String
    → StateHandler
    → Memory × Dict String StateHandler
    → Option (Memory × Dict String StateHandler)
put_front k h (last, rest) = some (last, (k, h) ∷ rest)

abbrev go_on :
    String
    → Dict String StateHandler
    → Memory × StateHandler
    → Option (Memory × Dict String StateHandler)
go_on k hs (n, h) = save_handlers hs n >>= put_front k h

save_handlers-cons :
    (k : String) (h : StateHandler) (hs : Dict String StateHandler) (m n last : Memory)
    (d : StateDict) (rest : Dict String StateHandler)
    → (state_dict m h.value >>= (λ x. deepcopy x m)) ≡ some (n, d)
    → save_handlers hs n ≡ some (last, rest)
    → save_handlers ((k, h) ∷ hs) m ≡ some (last, (k, record h { saved = d }) ∷ rest)
unfolding save_handlers
save_handlers-cons k h hs m n last d rest made run =
    let own : save_handler h m ≡ some (n, record h { saved = d }) =
      bind_assoc (state_dict m h.value) (λ x. deepcopy x m) (put_saved h)
      ∙ ap (λ x. x >>= put_saved h) made in
    ap (λ x. x >>= go_on k hs) own ∙ ap (λ x. x >>= put_front k (record h { saved = d })) run

module _ (load : ℕ → ℕ → Option ℕ) (bound : ℕ) where
  abbrev pub IsSource : Memory → StateHandler → Contents → Type 0
  IsSource m h c = (h.value < bound) × Source load bound m (m.objects h.value) c

  Source-Grows :
      (m n : Memory) (o : Object) (c : Contents)
      → bound ≤ m.next
      → Grows load bound m n
      → Source load bound m o c
      → Source load bound n o c
  Source-Grows m n (module_object k) (tensor_state l) le g h = h
  Source-Grows m n (optimizer_object k) (tensor_state l) le g h = h
  Source-Grows m n (sampler_object s set) (sampler_state e xs) le g (same, below, at) =
      (same, below, g.1 set (omega (arith, below, le)) ∙ at)
  Source-Grows m n (module_object k) (sampler_state e xs) le g h = absurd h
  Source-Grows m n (optimizer_object k) (sampler_state e xs) le g h = absurd h
  Source-Grows m n (sampler_object s set) (tensor_state l) le g h = absurd h
  Source-Grows m n (plain_object k) c le g h = absurd h
  Source-Grows m n (set_object xs) c le g h = absurd h

  IsSource-Grows :
      (m n : Memory) (h : StateHandler) (c : Contents)
      → bound ≤ m.next
      → Grows load bound m n
      → IsSource m h c
      → IsSource n h c
  IsSource-Grows m n h c le g (below, src) = (
    below,
    subst (λ o. Source load bound n o c) (sym (g.1 h.value (omega (arith, below, le))))
        (Source-Grows m n (m.objects h.value) c le g src),
  )

  pub save_handlers-Holds :
      (m : Memory) (hs : Dict String StateHandler) (cs : List Contents)
      → bound ≤ m.next
      → Each (IsSource m) hs cs
      → (n : Memory) × (saved : Dict String StateHandler) × (save_handlers hs m ≡ some (n, saved))
        × Grows load bound m n
        × Each (λ h c. Holds load bound n h.saved c) saved cs
        × (values saved ≡ values hs)
  unfolding save_handlers
  save_handlers-Holds m [] [] le e = (m, [], refl, Grows-refl load bound m, tt, refl)
  save_handlers-Holds m [] (c ∷ cs) le e = absurd e
  save_handlers-Holds m ((k, h) ∷ hs) [] le e = absurd e
  save_handlers-Holds m ((k, h) ∷ hs) (c ∷ cs) le ((below, src), e) =
      let (n, d, made, g, holds) = save_at load bound m h.value (m.objects h.value) c refl src le in
      let (last, rest, run, g2, held, same) =
        save_handlers-Holds n hs cs (omega (arith, le, g.0))
          (Each-map hs cs (λ i b _ q. IsSource-Grows m n i b le g q) e) in
      (
        last,
        (k, record h { saved = d }) ∷ rest,
        save_handlers-cons k h hs m n last d rest made run,
        (omega (arith, g.0, g2.0), λ i lt. g2.1 i (omega (arith, lt, g.0)) ∙ g.1 i lt),
        (Holds-Grows load bound n last d c g2 holds, held),
        ap (λ vs. h.value ∷ vs) same,
      )

  abbrev pub IsReady : Memory → StateHandler → Contents → Type 0
  IsReady m h c =
      (h.value < bound) × Holds load bound m h.saved c × Fits load bound (m.objects h.value) c

  abbrev pub HasState : Memory → StateHandler → Contents → Type 0
  HasState m h c = Has load bound m (m.objects h.value) c

  pub restore_handlers-Has :
      (size rank : ℕ) (m : Memory) (hs : Dict String StateHandler) (cs : List Contents)
      → Nodup (values hs)
      → Each (IsReady m) hs cs
      → (n : Memory) × (restore_handlers load size rank hs m ≡ some n)
        × Each (HasState n) hs cs
        × KeepsCopies load bound m n
        × ((k : ℕ) → contains k (values hs) ≡ false → n.objects k ≡ m.objects k)
  unfolding restore_handlers contains
  restore_handlers-Has size rank m [] [] nd e = (m, refl, tt, λ k le. refl, λ k c. refl)
  restore_handlers-Has size rank m [] (c ∷ cs) nd e = absurd e
  restore_handlers-Has size rank m ((k, h) ∷ hs) [] nd e = absurd e
  restore_handlers-Has size rank m ((k, h) ∷ hs) (c ∷ cs) (fresh, nd) ((below, holds, fits), e) =
      let (new, loaded, has) =
        load_state_dict-Has load bound size rank m h.value h.saved c holds fits below in
      let n = write h.value new m in
      let kept = KeepsCopies-write load bound h.value new m below in
      let (last, run, done, kept2, same) = restore_handlers-Has size rank n hs cs nd (
        Each-map hs cs
          (λ i d inside (b, hold, fit). (
            b,
            Holds-KeepsCopies load bound m n i.saved d kept (omega arith) hold,
            subst (λ o. Fits load bound o d)
                (sym (
                  write_other load bound h.value i.value new m
                    (apart h.value i.value (values hs) fresh inside)))
                fit,
          ))
          e) in
      (
        last,
        ap (λ x. x >>= (λ q. restore_handlers load size rank hs q)) loaded ∙ run,
        (
          subst (λ o. Has load bound last o c)
              (sym (same h.value fresh ∙ write_self load bound h.value new m))
              (Has-KeepsCopies load bound n last new c kept2 has),
          done,
        ),
        λ i le. kept2 i le ∙ kept i le,
        λ i out.
            same i (ground (arith, out))
            ∙ write_other load bound h.value i new m (not_first h.value i (values hs) out),
      )
