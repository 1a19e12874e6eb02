-- ===== src/TorchElastic/Saved.antt =====
-- horovod/torch/elastic/state.py, TorchState: what a restore brings back.
use horovod.Common.{ℕ, ◌<◌, Option, List, [], ◌∷◌, ltb, if◌then◌else◌, All, host_key, rank_key}
use horovod.Common.Dict.{Dict}
use horovod.Elastic as Elastic
use horovod.Elastic.{State}
use horovod.TorchElastic.{Object, Memory}
use horovod.TorchElastic.Frames.{Contents, contents, IsChanged, Fits, Source}
use horovod.TorchElastic.Each.{Each}

-- The states of objects.
unfoldable pub snapshot : Memory → List ℕ → List (Option Contents)
snapshot mem [] = []
snapshot mem (r ∷ rs) = contents mem r ∷ snapshot mem rs

-- The training changes every object that was there before the commit, each in place.
unfoldable pub train : ℕ → (ℕ → Object → Object) → Memory → Memory
train bound f mem = record mem {
  objects = λ k. if ltb k bound then f k (mem.objects k) else mem.objects k;
}

-- The object has the state before the training, and takes it after the training.
abbrev Turns : (ℕ → ℕ → Option ℕ) → ℕ → Memory → (ℕ → Object → Object) → ℕ → Contents → Type 0
Turns load bound mem f r c =
    (r < bound) × Source load bound mem (mem.objects r) c × Fits load bound (f r (mem.objects r)) c

module _ (load : ℕ → ℕ → Option ℕ) (bound : ℕ) where
  -- Every handled object is older than the copies, and is changed within its kind.
  abbrev pub AreChanged : Memory → (ℕ → Object → Object) → List ℕ → Type 0
  AreChanged mem f rs =
      All (λ r. (r < bound) × IsChanged load bound mem (mem.objects r) (f r (mem.objects r))) rs
