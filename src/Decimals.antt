-- ===== src/Decimals.antt =====
-- Go's strconv.Itoa and Atoi, on strings as lists of bytes.
use gmux.Prelude.{
  ap, ◌∙◌, ◌-◌, ℕ, zero, suc, ◌+◌, ◌*◌, ◌/◌, ◌%◌, ◌<◌, ◌≡◌, refl, Bool, true, ◌&&◌, [], ◌∷◌, Option,
  none, some, if◌then◌else◌, ltb, leb, arith, Bool-cases, inl, inr,
}
use gmux.Fence.Bytes.{Bytes}

-- The digits of n in front of others; each round divides n by ten, so n rounds are enough.
unfoldable pub digits_from : ℕ → ℕ → Bytes → Bytes
digits_from zero n acc = acc
digits_from (suc fuel) n acc =
    let rest = digits_from fuel (n / 10) ((48 + n % 10) ∷ acc) in
    if ltb n 10 then (48 + n % 10) ∷ acc else rest

-- `Itoa` of a number that is not negative.
unfoldable pub itoa : ℕ → Bytes
unfolding digits_from
itoa n = digits_from (suc n) n []

abbrev pub is_digit : ℕ → Bool
is_digit c = leb 48 c && leb c 57

-- The number that the digits give, behind those that were read.
unfoldable pub value_from : ℕ → Bytes → Option ℕ
value_from v [] = some v
value_from v (c ∷ s) =
    let rest = value_from (v * 10 + (c - 48)) s in if is_digit c then rest else none

-- Digits, at least one.
unfoldable pub atou : Bytes → Option ℕ
unfolding value_from
atou [] = none
atou (c ∷ s) = value_from 0 (c ∷ s)

value_from-digit :
    (v d : ℕ) (s : Bytes) → d < 10 → value_from v ((48 + d) ∷ s) ≡ value_from (v * 10 + d) s
unfolding value_from
value_from-digit v d s h =
    let yes' : is_digit (48 + d) ≡ true = ground arith in
    let same : v * 10 + (48 + d - 48) ≡ v * 10 + d = omega arith in rw (yes', same) refl

value_from-digits :
    (fuel n : ℕ) (acc : Bytes) → n < fuel → value_from 0 (digits_from fuel n acc) ≡ value_from n acc
unfolding digits_from
value_from-digits zero n acc h = elim h [ ]
value_from-digits (suc fuel) n acc h = elim (Bool-cases (ltb n 10)) [
  | inl short ↦
      let same : 0 * 10 + n % 10 ≡ n = ground arith in
      rw short (value_from-digit 0 (n % 10) acc (omega arith) ∙ ap (λ t. value_from t acc) same)
  | inr long ↦
      let same : n / 10 * 10 + n % 10 ≡ n = omega arith in
      rw long (
        value_from-digits fuel (n / 10) ((48 + n % 10) ∷ acc) (ground arith)
        ∙ value_from-digit (n / 10) (n % 10) acc (omega arith)
        ∙ ap (λ t. value_from t acc) same)
]

digits_from-nonempty :
    (fuel n c : ℕ) (acc : Bytes) → (d : ℕ) × (s : Bytes) × (digits_from fuel n (c ∷ acc) ≡ d ∷ s)
unfolding digits_from
digits_from-nonempty zero n c acc = (c, acc, refl)
digits_from-nonempty (suc fuel) n c acc = elim (Bool-cases (ltb n 10)) [
  | inl short ↦ (48 + n % 10, c ∷ acc, rw short refl)
  | inr long ↦
      let (d, s, e) = digits_from-nonempty fuel (n / 10) (48 + n % 10) (c ∷ acc) in
      (d, s, rw long e)
]

pub itoa-nonempty : (n : ℕ) → (d : ℕ) × (s : Bytes) × (itoa n ≡ d ∷ s)
unfolding itoa digits_from
itoa-nonempty n = elim (Bool-cases (ltb n 10)) [
  | inl short ↦ (48 + n % 10, [], rw short refl)
  | inr long ↦ let (d, s, e) = digits_from-nonempty n (n / 10) (48 + n % 10) [] in (d, s, rw long e)
]

atou-cons : (s t : Bytes) (d : ℕ) → s ≡ d ∷ t → atou s ≡ value_from 0 s
unfolding atou
atou-cons s t d e = rw e refl

-- What Itoa writes, is read back.
pub atou-itoa : (n : ℕ) → atou (itoa n) ≡ some n
atou-itoa n =
    let (d, s, e) = itoa-nonempty n in
    atou-cons (itoa n) s d e
    ∙ (unfold itoa value_from in value_from-digits (suc n) n [] (omega arith))
