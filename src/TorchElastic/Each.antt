-- ===== src/TorchElastic/Each.antt =====
-- horovod/torch/elastic/state.py: statements of the handlers of a TorchState, one by one.
use horovod.Common.{ℕ, ◌≡◌, true, List, [], ◌∷◌, String, eqb_iff, host_key, rank_key, arith}
use horovod.Common.Dict.{Dict, contains}
use horovod.TorchElastic.{StateHandler}
use horovod.TorchElastic.Frames.{Contents}

abbrev pub values : Dict String StateHandler → List ℕ
values [] = []
values ((k, h) ∷ hs) = h.value ∷ values hs

-- The handlers with the states that they are to have.
abbrev pub Each :
    (StateHandler → Contents → Type 0) → Dict String StateHandler → List Contents → Type 0
Each P [] [] = Unit {0}
Each P [] (c ∷ cs) = ⊥
Each P ((k, h) ∷ hs) [] = ⊥
Each P ((k, h) ∷ hs) (c ∷ cs) = P h c × Each P hs cs

pub Each-map :
    {P Q : StateHandler → Contents → Type 0} (hs : Dict String StateHandler) (cs : List Contents)
    → ((h : StateHandler) (c : Contents) → contains h.value (values hs) ≡ true → P h c → Q h c)
    → Each P hs cs
    → Each Q hs cs
unfolding contains
Each-map [] [] f e = tt
Each-map [] (c ∷ cs) f e = absurd e
Each-map ((k, h) ∷ hs) [] f e = absurd e
Each-map ((k, h) ∷ hs) (c ∷ cs) f (p, e) = (
  f h c (ground (arith, eqb_iff h.value h.value)) p,
  Each-map hs cs (λ i d in_rest q. f i d (ground (arith, in_rest)) q) e,
)

-- A statement of the references of the handlers and their states.
abbrev pub EachValue : (ℕ → Contents → Type 0) → List ℕ → List Contents → Type 0
EachValue Q [] [] = Unit {0}
EachValue Q [] (c ∷ cs) = ⊥
EachValue Q (r ∷ rs) [] = ⊥
EachValue Q (r ∷ rs) (c ∷ cs) = Q r c × EachValue Q rs cs

pub Each-EachValue :
    (Q : ℕ → Contents → Type 0) (hs : Dict String StateHandler) (cs : List Contents)
    → EachValue Q (values hs) cs
    → Each (λ h c. Q h.value c) hs cs
Each-EachValue Q [] [] e = tt
Each-EachValue Q [] (c ∷ cs) e = absurd e
Each-EachValue Q ((k, h) ∷ hs) [] e = absurd e
Each-EachValue Q ((k, h) ∷ hs) (c ∷ cs) (q, e) = (q, Each-EachValue Q hs cs e)

pub Each-pair :
    (P Q : StateHandler → Contents → Type 0) (hs : Dict String StateHandler) (cs : List Contents)
    → Each P hs cs
    → Each Q hs cs
    → Each (λ h c. P h c × Q h c) hs cs
Each-pair P Q [] [] a b = tt
Each-pair P Q [] (c ∷ cs) a b = absurd a
Each-pair P Q ((k, h) ∷ hs) [] a b = absurd a
Each-pair P Q ((k, h) ∷ hs) (c ∷ cs) (p, a) (q, b) = ((p, q), Each-pair P Q hs cs a b)
