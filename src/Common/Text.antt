-- ===== src/Common/Text.antt =====
-- Python's texts: `+`, `split`, and `str` and `int` of a count.
pub mod Digits
use Prim.Native.String.{◌++◌ as append}
use Prim.Native.Nat.{ℕ, zero, suc, ◌+◌, ◌-◌, ◌*◌, ◌/◌, ◌%◌, ◌≤◌, ◌<◌}
use Prim.Native.Char.{Char, code}
use Prim.Native.String.{String}
use mathlib.Core.Path.{◌≡◌, refl, ap, ◌∙◌}
use mathlib.Core.Bool.{Bool, true, false, ◌&&◌, ◌||◌}
use mathlib.Core.Option.{Option, none, some}
use mathlib.Core.List.{List, [], ◌∷◌}
use native.Mathlib.Omega.{arith}
use text.Mathlib.TextLemmas.{nil-append, cons-append}
use mathlib.Core.Logic.{inl, inr}
use native.Mathlib.Nat.{mod-lt, div-add-mod'}
use horovod.Common.Tests.{ltb, leb, eqb, if◌then◌else◌, Bool-cases, ltb→lt, ltb→ge}

infixr 65 ◌+++◌
abbrev pub ◌+++◌ : String → String → String
s +++ t = append s t

abbrev pub digit : ℕ → String
digit d =
    if eqb d 0
    then "0"
    else if eqb d 1
    then "1"
    else if eqb d 2
    then "2"
    else if eqb d 3
    then "3"
    else if eqb d 4
    then "4"
    else if eqb d 5
    then "5"
    else if eqb d 6
    then "6"
    else if eqb d 7
    then "7"
    else if eqb d 8
    then "8"
    else "9"

-- A number has fewer digits than it counts, or is zero.
unfoldable decimal : ℕ → ℕ → String
decimal zero n = ""
decimal (suc fuel) n =
    let before = decimal fuel (n / 10) in if ltb n 10 then digit n else before +++ digit (n % 10)

unfoldable pub str : ℕ → String
unfolding decimal
str n = decimal (suc n) n

-- s.split(sep), for a separator of one character with the number sep
abbrev add_front : Char → List String → List String
add_front c [] = []
add_front c (s ∷ parts) = String.◌∷◌ c s ∷ parts

unfoldable pub split : ℕ → String → List String
split sep String.[] = "" ∷ []
split sep (String.◌∷◌ c s) =
    let rest = split sep s in if eqb (code c) sep then "" ∷ rest else add_front c rest

-- Whether the number of a character passes the test.
unfoldable pub any_code : (ℕ → Bool) → String → Bool
any_code P String.[] = false
any_code P (String.◌∷◌ c s) = P (code c) || any_code P s

abbrev pub has_code : ℕ → String → Bool
has_code sep s = any_code (λ c. eqb c sep) s

-- int(s), of plain decimal digits; `none` is the ValueError.
unfoldable pub digits_from : ℕ → String → Option ℕ
digits_from acc String.[] = some acc
digits_from acc (String.◌∷◌ c s) =
    let rest = digits_from (acc * 10 + (code c - 48)) s in
    if leb 48 (code c) && leb (code c) 57 then rest else none

abbrev pub is_empty : String → Bool
is_empty String.[] = true
is_empty (String.◌∷◌ c s) = false

unfoldable pub int : String → Option ℕ
unfolding digits_from
int s = if is_empty s then none else digits_from 0 s

cons-+++ : (c : Char) (s t : String) → String.◌∷◌ c s +++ t ≡ String.◌∷◌ c (s +++ t)
cons-+++ c s t = cons-append c s t

pub split_whole : (sep : ℕ) (s : String) → has_code sep s ≡ false → split sep s ≡ s ∷ []
unfolding split any_code
split_whole sep String.[] h = refl
split_whole sep (String.◌∷◌ c s) h = ground (arith, split_whole sep s)

-- A text without the separator in front of it is the first part.
pub split_first :
    (c : Char) (s t : String)
    → has_code (code c) s ≡ false
    → split (code c) (s +++ String.◌∷◌ c t) ≡ s ∷ split (code c) t
unfolding split any_code
split_first c String.[] t h = rw (nil-append (String.◌∷◌ c t)) (ground arith)
split_first c (String.◌∷◌ d s) t h =
    rw (cons-append d s (String.◌∷◌ c t)) (ground (arith, split_first c s t))

pub any_code-append :
    (P : ℕ → Bool) (s t : String) → any_code P (s +++ t) ≡ (any_code P s || any_code P t)
unfolding any_code
any_code-append P String.[] t = rw (nil-append t) refl
any_code-append P (String.◌∷◌ c s) t =
    rw (cons-append c s t) (ground (arith, any_code-append P s t))
