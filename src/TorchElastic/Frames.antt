-- ===== src/TorchElastic/Frames.antt =====
-- horovod/torch/elastic/state.py: what a handler saves and restores, in a memory in which the copies
-- stand behind all objects that the training knows.
use horovod.Common.{ℕ, ◌≤◌, ◌<◌, ◌≡◌, ◌≢◌, refl, ap, ◌∙◌, Option, none, some, List, eqb_iff, arith}
use horovod.Sampler as Sampler
use horovod.Sampler.{ElasticSampler}
use horovod.TorchElastic.{
  Object, module_object, optimizer_object, plain_object, set_object, sampler_object, Memory, write,
  alloc, StateDict, tensors_of, frozen, progress, set_at, tensors_at, state_dict_of, deepcopy,
  load_object, load_state_dict, ◌>>=◌,
}

-- The state of an object, with the contents of the set that a sampler refers to.
pub data Contents : Type 0 where
  tensor_state : ℕ → Contents
  sampler_state : ℕ → List ℕ → Contents

abbrev pub contents_of : Object → Memory → Option Contents
contents_of (module_object n) mem = some (tensor_state n)
contents_of (optimizer_object n) mem = some (tensor_state n)
contents_of (sampler_object s set) mem = elim (set_at (mem.objects set)) [
  | none ↦ none
  | some xs ↦ some (sampler_state s.epoch xs)
]
contents_of (plain_object n) mem = none
contents_of (set_object xs) mem = none

abbrev pub contents : Memory → ℕ → Option Contents
contents mem r = contents_of (mem.objects r) mem

module _ (load : ℕ → ℕ → Option ℕ) (bound : ℕ) where
  -- An object before and after the training has changed it in place: it is of the same kind, PyTorch
  -- loads the old tensors into the new ones, and what a sampler refers to is older than the copies.
  pub data IsChanged (mem : Memory) : Object → Object → Type 0 where
    modules : {n m : ℕ} → load m n ≡ some n → IsChanged mem (module_object n) (module_object m)
    optimizers :
        {n m : ℕ} → load m n ≡ some n → IsChanged mem (optimizer_object n) (optimizer_object m)
    samplers :
        {s t : ElasticSampler} {set set' : ℕ} {xs : List ℕ}
        → set < bound
        → mem.objects set ≡ set_object xs
        → IsChanged mem (sampler_object s set) (sampler_object t set')

  -- A saved dictionary that has this state, out of reach of the training.
  abbrev pub Holds : Memory → StateDict → Contents → Type 0
  Holds mem (frozen n) (tensor_state m) = n ≡ m
  Holds mem (progress epoch set) (sampler_state e xs) =
      (epoch ≡ e) × (bound ≤ set) × (set < mem.next) × (mem.objects set ≡ set_object xs)
  Holds mem d c = ⊥

  -- An object into which the state can be loaded.
  abbrev pub Fits : Object → Contents → Type 0
  Fits (module_object m) (tensor_state n) = load m n ≡ some n
  Fits (optimizer_object m) (tensor_state n) = load m n ≡ some n
  Fits (sampler_object s set) (sampler_state e xs) = Unit {0}
  Fits o c = ⊥

  -- An object that has the state, in a set behind the bound.
  abbrev pub Has : Memory → Object → Contents → Type 0
  Has mem (module_object n) (tensor_state m) = n ≡ m
  Has mem (optimizer_object n) (tensor_state m) = n ≡ m
  Has mem (sampler_object s set) (sampler_state e xs) =
      (s.epoch ≡ e) × (bound ≤ set) × (mem.objects set ≡ set_object xs)
  Has mem o c = ⊥

  pub Has-contents :
      (mem : Memory) (o : Object) (c : Contents) → Has mem o c → contents_of o mem ≡ some c
  Has-contents mem (module_object n) (tensor_state m) h = rw (h) refl
  Has-contents mem (optimizer_object n) (tensor_state m) h = rw (h) refl
  Has-contents mem (sampler_object s set) (sampler_state e xs) (epoch, _, at) =
      ap (λ o. elim (set_at o) [ none ↦ none | some ys ↦ some (sampler_state s.epoch ys) ]) at
      ∙ ap (λ k. some (sampler_state k xs)) epoch
  Has-contents mem (module_object n) (sampler_state e xs) h = absurd h
  Has-contents mem (optimizer_object n) (sampler_state e xs) h = absurd h
  Has-contents mem (sampler_object s set) (tensor_state m) h = absurd h
  Has-contents mem (plain_object n) c h = absurd h
  Has-contents mem (set_object xs) c h = absurd h

  -- Sets behind the bound are not changed from the first memory to the second.
  abbrev pub KeepsCopies : Memory → Memory → Type 0
  KeepsCopies m n = (set : ℕ) → bound ≤ set → n.objects set ≡ m.objects set

  pub Has-KeepsCopies :
      (m n : Memory) (o : Object) (c : Contents) → KeepsCopies m n → Has m o c → Has n o c
  Has-KeepsCopies m n (module_object k) (tensor_state l) keep h = h
  Has-KeepsCopies m n (optimizer_object k) (tensor_state l) keep h = h
  Has-KeepsCopies m n (sampler_object s set) (sampler_state e xs) keep (epoch, above, at) =
      (epoch, above, keep set above ∙ at)
  Has-KeepsCopies m n (module_object k) (sampler_state e xs) keep h = absurd h
  Has-KeepsCopies m n (optimizer_object k) (sampler_state e xs) keep h = absurd h
  Has-KeepsCopies m n (sampler_object s set) (tensor_state l) keep h = absurd h
  Has-KeepsCopies m n (plain_object k) c keep h = absurd h
  Has-KeepsCopies m n (set_object xs) c keep h = absurd h

  pub Holds-KeepsCopies :
      (m n : Memory) (d : StateDict) (c : Contents)
      → KeepsCopies m n
      → m.next ≤ n.next
      → Holds m d c
      → Holds n d c
  Holds-KeepsCopies m n (frozen k) (tensor_state l) keep le h = h
  Holds-KeepsCopies m n (progress epoch set) (sampler_state e xs) keep le (same, above, below, at) =
      (same, above, omega (arith, le, below), keep set above ∙ at)
  Holds-KeepsCopies m n (frozen k) (sampler_state e xs) keep le h = absurd h
  Holds-KeepsCopies m n (progress epoch set) (tensor_state l) keep le h = absurd h
  Holds-KeepsCopies m n (tensors_of r) c keep le h = absurd h

  pub write_other :
      (r k : ℕ) (o : Object) (mem : Memory) → r ≢ k → (write r o mem).objects k ≡ mem.objects k
  write_other r k o mem ne = ground (arith, eqb_iff k r, ne)

  pub write_self : (r : ℕ) (o : Object) (mem : Memory) → (write r o mem).objects r ≡ o
  write_self r o mem = ground (arith, eqb_iff r r)

  pub KeepsCopies-write :
      (r : ℕ) (o : Object) (mem : Memory) → r < bound → KeepsCopies mem (write r o mem)
  KeepsCopies-write r o mem below set above =
      write_other r set o mem (λ e. omega (arith, below, above, e))

  module _ (size rank : ℕ) where
    load_object-Has :
        (mem : Memory) (d : StateDict) (o : Object) (c : Contents)
        → Holds mem d c
        → Fits o c
        → (new : Object) × (load_object load size rank d o mem ≡ some new) × Has mem new c
    unfolding Sampler.load_state_dict Sampler.reset
    load_object-Has mem (frozen n) (module_object m) (tensor_state k) holds fits =
        (module_object k, rw (holds, fits) refl, refl)
    load_object-Has mem (frozen n) (optimizer_object m) (tensor_state k) holds fits =
        (optimizer_object k, rw (holds, fits) refl, refl)
    load_object-Has mem (progress epoch set) (sampler_object s old) (sampler_state e xs)
          (same, above, below, at) fits =
        (
          sampler_object (Sampler.load_state_dict size rank (epoch, xs) s) set,
          ap
              (λ o. set_at o >>= (λ ys.
                some (sampler_object (Sampler.load_state_dict size rank (epoch, ys) s) set)))
              at,
          (same, above, at),
        )
    load_object-Has mem (tensors_of r) o c holds fits = absurd holds
    load_object-Has mem (frozen n) o (sampler_state e xs) holds fits = absurd holds
    load_object-Has mem (progress epoch set) o (tensor_state k) holds fits = absurd holds
    load_object-Has mem (frozen n) (plain_object k) (tensor_state l) holds fits = absurd fits
    load_object-Has mem (frozen n) (set_object xs) (tensor_state l) holds fits = absurd fits
    load_object-Has mem (frozen n) (sampler_object s set) (tensor_state l) holds fits = absurd fits
    load_object-Has mem (progress epoch set) (module_object k) (sampler_state e xs) holds fits =
        absurd fits
    load_object-Has mem (progress epoch set) (optimizer_object k) (sampler_state e xs) holds fits =
        absurd fits
    load_object-Has mem (progress epoch set) (plain_object k) (sampler_state e xs) holds fits =
        absurd fits
    load_object-Has mem (progress epoch set) (set_object ys) (sampler_state e xs) holds fits =
        absurd fits

    -- A load gives the object the state, and changes no other.
    pub load_state_dict-Has :
        (mem : Memory) (r : ℕ) (d : StateDict) (c : Contents)
        → Holds mem d c
        → Fits (mem.objects r) c
        → r < bound
        → (new : Object) × (load_state_dict load size rank d r mem ≡ some (write r new mem))
          × Has (write r new mem) new c
    load_state_dict-Has mem r d c holds fits below =
        let (new, e, has) = load_object-Has mem d (mem.objects r) c holds fits in
        (
          new,
          ap (λ x. x >>= (λ o. some (write r o mem))) e,
          Has-KeepsCopies mem (write r new mem) new c (KeepsCopies-write r new mem below) has,
        )

  -- The state that an object has when it is saved, in a set that is older than the copies.
  abbrev pub Source : Memory → Object → Contents → Type 0
  Source mem (module_object n) (tensor_state m) = n ≡ m
  Source mem (optimizer_object n) (tensor_state m) = n ≡ m
  Source mem (sampler_object s set) (sampler_state e xs) =
      (s.epoch ≡ e) × (set < bound) × (mem.objects set ≡ set_object xs)
  Source mem o c = ⊥

  -- A save gives a dictionary that holds the state, and changes nothing that was there.
  abbrev pub Grows : Memory → Memory → Type 0
  Grows m n = (m.next ≤ n.next) × ((k : ℕ) → k < m.next → n.objects k ≡ m.objects k)

  pub Grows-refl : (m : Memory) → Grows m m
  Grows-refl m = (omega arith, λ k lt. refl)

  pub Holds-Grows :
      (m n : Memory) (d : StateDict) (c : Contents) → Grows m n → Holds m d c → Holds n d c
  Holds-Grows m n (frozen k) (tensor_state l) g h = h
  Holds-Grows m n (progress epoch set) (sampler_state e xs) g (same, above, below, at) =
      (same, above, omega (arith, g.0, below), g.1 set below ∙ at)
  Holds-Grows m n (frozen k) (sampler_state e xs) g h = absurd h
  Holds-Grows m n (progress epoch set) (tensor_state l) g h = absurd h
  Holds-Grows m n (tensors_of r) c g h = absurd h

  pub save_at :
      (mem : Memory) (r : ℕ) (o : Object) (c : Contents)
      → mem.objects r ≡ o
      → Source mem o c
      → bound ≤ mem.next
      → (n : Memory) × (d : StateDict) × ((state_dict_of r o >>= (λ x. deepcopy x mem))
          ≡ some (n, d))
        × Grows mem n
        × Holds n d c
  save_at mem r (module_object n) (tensor_state m) at h le =
      (mem, frozen n, ap (λ o. tensors_at o >>= (λ k. some (mem, frozen k))) at, Grows-refl mem, h)
  save_at mem r (optimizer_object n) (tensor_state m) at h le =
      (mem, frozen n, ap (λ o. tensors_at o >>= (λ k. some (mem, frozen k))) at, Grows-refl mem, h)
  save_at mem r (sampler_object s set) (sampler_state e xs) at (same, below, there) le =
      let copied = alloc (set_object xs) mem in
      (
        copied,
        progress s.epoch mem.next,
        ap (λ o. set_at o >>= (λ ys. some (alloc (set_object ys) mem, progress s.epoch mem.next)))
            there,
        (
          omega arith,
          λ k lt. write_other mem.next k (set_object xs) mem (λ z. omega (arith, z, lt)),
        ),
        (same, le, omega arith, write_self mem.next (set_object xs) mem),
      )
  save_at mem r (module_object n) (sampler_state e xs) at h le = absurd h
  save_at mem r (optimizer_object n) (sampler_state e xs) at h le = absurd h
  save_at mem r (sampler_object s set) (tensor_state m) at h le = absurd h
  save_at mem r (plain_object n) c at h le = absurd h
  save_at mem r (set_object xs) c at h le = absurd h
