-- ===== src/Common/Text/Digits.antt =====
-- The digits of `str` are read back by `int`.
use Prim.Native.Nat.{ℕ, zero, suc, ◌+◌, ◌-◌, ◌*◌, ◌/◌, ◌%◌, ◌≤◌, ◌<◌}
use Prim.Native.Char.{code}
use Prim.Native.String.{String}
use mathlib.Core.Path.{◌≡◌, refl, ap, ◌∙◌}
use mathlib.Core.Bool.{Bool, true, false}
use mathlib.Core.Option.{some}
use mathlib.Core.List.{[], ◌∷◌}
use native.Mathlib.Omega.{arith}
use text.Mathlib.TextLemmas.{nil-append, cons-append}
use mathlib.Core.Logic.{inl, inr}
use native.Mathlib.Nat.{mod-lt, div-add-mod'}
use horovod.Common.Tests.{ltb, eqb, if◌then◌else◌, Bool-cases, ltb→lt, ltb→ge}
use horovod.Common.Text.{
  ◌+++◌, digit, decimal, str, digits_from, is_empty, int, any_code, any_code-append, has_code,
  split, split_first, split_whole,
}

digits_digit : (m d : ℕ) → d < 10 → digits_from m (digit d) ≡ some (m * 10 + d)
unfolding digits_from
digits_digit m zero h = refl
digits_digit m (suc zero) h = refl
digits_digit m (suc (suc zero)) h = refl
digits_digit m (suc (suc (suc zero))) h = refl
digits_digit m (suc (suc (suc (suc zero)))) h = refl
digits_digit m (suc (suc (suc (suc (suc zero))))) h = refl
digits_digit m (suc (suc (suc (suc (suc (suc zero)))))) h = refl
digits_digit m (suc (suc (suc (suc (suc (suc (suc zero))))))) h = refl
digits_digit m (suc (suc (suc (suc (suc (suc (suc (suc zero)))))))) h = refl
digits_digit m (suc (suc (suc (suc (suc (suc (suc (suc (suc zero))))))))) h = refl
digits_digit m (suc (suc (suc (suc (suc (suc (suc (suc (suc (suc d)))))))))) h =
    absurd (omega arith)

digits_from-append :
    (acc m d : ℕ) (s : String)
    → digits_from acc s ≡ some m
    → d < 10
    → digits_from acc (s +++ digit d) ≡ some (m * 10 + d)
unfolding digits_from
digits_from-append acc m d String.[] e h =
    let same : acc ≡ m = cc in rw (nil-append (digit d), same) (digits_digit m d h)
digits_from-append acc m d (String.◌∷◌ c s) e h =
    rw (cons-append c s (digit d))
      (ground (arith, digits_from-append (acc * 10 + (code c - 48)) m d s))

digits_from-decimal : (fuel n : ℕ) → n < fuel → digits_from 0 (decimal fuel n) ≡ some n
unfolding decimal
digits_from-decimal zero n h = absurd (omega arith)
digits_from-decimal (suc fuel) n h = elim (Bool-cases (ltb n 10)) [
  | inl small ↦
      let e : 0 * 10 + n ≡ n = omega arith in
      rw (small) (digits_digit 0 n (ltb→lt n 10 small) ∙ ap some e)
  | inr large ↦
      let big : 10 ≤ n = ltb→ge n 10 large in
      let q = div-add-mod' n 10 in
      let r : n % 10 < 10 = mod-lt n (omega arith) in
      rw (large) (
        digits_from-append 0 (n / 10) (n % 10) (decimal fuel (n / 10))
          (digits_from-decimal fuel (n / 10) (omega (arith, big, q, r))) r
        ∙ ap some q)
]

if_false :
    (P : String → Bool) (b : Bool) {s t : String}
    → P s ≡ false
    → P t ≡ false
    → P (if b then s else t) ≡ false
if_false P true h k = h
if_false P false h k = k

-- What fails for the ten digits fails for `digit`.
digit_all :
    (P : String → Bool) (d : ℕ)
    → (P "0" ≡ false)
      × (P "1" ≡ false)
      × (P "2" ≡ false)
      × (P "3" ≡ false)
      × (P "4" ≡ false)
      × (P "5" ≡ false)
      × (P "6" ≡ false)
      × (P "7" ≡ false)
      × (P "8" ≡ false)
      × (P "9" ≡ false)
    → P (digit d) ≡ false
digit_all P d (h0, h1, h2, h3, h4, h5, h6, h7, h8, h9) = if_false P (eqb d 0) h0 (
    if_false P (eqb d 1) h1 (
      if_false P (eqb d 2) h2 (
        if_false P (eqb d 3) h3 (
          if_false P (eqb d 4) h4 (
            if_false P (eqb d 5) h5
              (if_false P (eqb d 6) h6 (if_false P (eqb d 7) h7 (if_false P (eqb d 8) h8 h9))))))))

is_empty-digit : (d : ℕ) → is_empty (digit d) ≡ false
is_empty-digit d = digit_all is_empty d (refl, refl, refl, refl, refl, refl, refl, refl, refl, refl)

is_empty-append : (s : String) (d : ℕ) → is_empty (s +++ digit d) ≡ false
is_empty-append String.[] d = rw (nil-append (digit d)) (is_empty-digit d)
is_empty-append (String.◌∷◌ c s) d = rw (cons-append c s (digit d)) refl

is_empty-decimal : (fuel n : ℕ) → is_empty (decimal (suc fuel) n) ≡ false
unfolding decimal
is_empty-decimal fuel n = elim (Bool-cases (ltb n 10)) [
  | inl small ↦ rw (small) (is_empty-digit n)
  | inr large ↦ rw (large) (is_empty-append (decimal fuel (n / 10)) (n % 10))
]

-- The digits of a number are read back.
pub int-str : (n : ℕ) → int (str n) ≡ some n
unfolding int str
int-str n = rw (is_empty-decimal n n) (digits_from-decimal (suc n) n (omega arith))

any_code-digit :
    (P : ℕ → Bool) (d : ℕ)
    → ((k : ℕ) → 48 ≤ k → k ≤ 57 → P k ≡ false)
    → any_code P (digit d) ≡ false
unfolding any_code
any_code-digit P d h =
    digit_all (λ s. any_code P s) d
      (
        ground (arith, h 48 (omega arith) (omega arith)),
        ground (arith, h 49 (omega arith) (omega arith)),
        ground (arith, h 50 (omega arith) (omega arith)),
        ground (arith, h 51 (omega arith) (omega arith)),
        ground (arith, h 52 (omega arith) (omega arith)),
        ground (arith, h 53 (omega arith) (omega arith)),
        ground (arith, h 54 (omega arith) (omega arith)),
        ground (arith, h 55 (omega arith) (omega arith)),
        ground (arith, h 56 (omega arith) (omega arith)),
        ground (arith, h 57 (omega arith) (omega arith)),
      )

any_code-decimal :
    (P : ℕ → Bool) (fuel n : ℕ)
    → ((k : ℕ) → 48 ≤ k → k ≤ 57 → P k ≡ false)
    → any_code P (decimal fuel n) ≡ false
unfolding decimal any_code
any_code-decimal P zero n h = refl
any_code-decimal P (suc fuel) n h = ground (
  arith,
  any_code-digit P n h,
  any_code-digit P (n % 10) h,
  any_code-decimal P fuel (n / 10) h,
  any_code-append P (decimal fuel (n / 10)) (digit (n % 10)),
)

-- What no digit passes, no character of a number does.
pub any_code-str :
    (P : ℕ → Bool) (n : ℕ) → ((k : ℕ) → 48 ≤ k → k ≤ 57 → P k ≡ false) → any_code P (str n) ≡ false
unfolding str
any_code-str P n h = any_code-decimal P (suc n) n h

colon : (t : String) → ":" +++ t ≡ String.◌∷◌ ":" t
colon t = cons-append ":" String.[] t ∙ ap (λ u. String.◌∷◌ ":" u) (nil-append t)

-- A name without a colon and a number, with a colon between them, are split apart.
pub split_numbered :
    (name : String) (n : ℕ)
    → has_code 58 name ≡ false
    → split 58 (name +++ (":" +++ str n)) ≡ name ∷ str n ∷ []
split_numbered name n h =
    let numbers : split 58 (str n) ≡ str n ∷ [] =
      split_whole 58 (str n) (any_code-str (λ c. eqb c 58) n (λ k a b. ground arith)) in
    ap (λ t. split 58 (name +++ t)) (colon (str n))
    ∙ split_first ":" name (str n) h
    ∙ ap (λ ps. name ∷ ps) numbers
