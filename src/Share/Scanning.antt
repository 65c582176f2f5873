-- ===== src/Share/Scanning.antt =====
-- share.go: what ParseFloat reads of the decimals that FormatMem writes.
use gmux.Prelude.{
  ℕ, zero, suc, ◌+◌, ◌-◌, ◌*◌, ◌/◌, ◌%◌, ◌==◌, ◌<◌, ◌≡◌, refl, sym, ◌∙◌, ap, Bool, true, false,
  ◌||◌, some, [], ◌∷◌, ◌++◌, All, arith, Bool-cases, inl, inr, ltb,
}
use gmux.Fence.Bytes.{Bytes, eq_bytes}
use gmux.Decimals.{digits_from, is_digit}
use gmux.Share.{ratio}
use gmux.Share.Memory.{Scan, scan, scaled, signed, finite, parse_float, parse_signed}
use gmux.Share.Units.{IsMark}

pub digits_from-append :
    (fuel n : ℕ) (s t : Bytes) → digits_from fuel n s ++ t ≡ digits_from fuel n (s ++ t)
unfolding digits_from
digits_from-append zero n s t = refl
digits_from-append (suc fuel) n s t = elim (Bool-cases (ltb n 10)) [
  | inl short ↦ rw short refl
  | inr long ↦ rw long (digits_from-append fuel (n / 10) ((48 + n % 10) ∷ s) t)
]

pub digits_from-IsMark : (fuel n : ℕ) (s : Bytes) → All IsMark s → All IsMark (digits_from fuel n s)
unfolding digits_from
digits_from-IsMark zero n s h = h
digits_from-IsMark (suc fuel) n s h =
    let digit : IsMark (48 + n % 10) = (omega arith, ground arith) in
    elim (Bool-cases (ltb n 10)) [
      | inl short ↦ rw short (digit, h)
      | inr long ↦ rw long (digits_from-IsMark fuel (n / 10) ((48 + n % 10) ∷ s) (digit, h))
    ]

-- A text that starts with a digit.
unfoldable pub StartsWithDigit : Bytes → Type 0
StartsWithDigit t = (d : ℕ) × (s : Bytes) × (t ≡ (48 + d) ∷ s) × (d < 10)

digits_from-starts :
    (fuel n : ℕ) (s : Bytes) → StartsWithDigit s → StartsWithDigit (digits_from fuel n s)
unfolding digits_from StartsWithDigit
digits_from-starts zero n s h = h
digits_from-starts (suc fuel) n s h =
    let digit : n % 10 < 10 = ground arith in
    elim (Bool-cases (ltb n 10)) [
      | inl short ↦ rw short (n % 10, s, refl, digit)
      | inr long ↦
          rw long (digits_from-starts fuel (n / 10) ((48 + n % 10) ∷ s) (n % 10, s, refl, digit))
    ]

pub digits_from-starts_digit :
    (fuel n : ℕ) (s : Bytes) → StartsWithDigit (digits_from (suc fuel) n s)
unfolding digits_from StartsWithDigit
digits_from-starts_digit fuel n s =
    let digit : n % 10 < 10 = ground arith in
    elim (Bool-cases (ltb n 10)) [
      | inl short ↦ rw short (n % 10, s, refl, digit)
      | inr long ↦
          rw long (digits_from-starts fuel (n / 10) ((48 + n % 10) ∷ s) (n % 10, s, refl, digit))
    ]

scan-digit :
    (v d : ℕ) (some_digit : Bool) (s : Bytes)
    → d < 10
    → scan v 0 false some_digit ((48 + d) ∷ s) ≡ scan (v * 10 + d) 0 false true s
unfolding scan
scan-digit v d some_digit s h =
    let yes' : is_digit (48 + d) ≡ true = ground arith in
    let same : v * 10 + (48 + d - 48) ≡ v * 10 + d = omega arith in
    let some' : (some_digit || true) ≡ true = elim some_digit as (λ b. (b || true) ≡ true) [
      | true ↦ refl
      | false ↦ refl
    ] in
    rw (yes', same, some') refl

scan-digits :
    (fuel n : ℕ) (b : Bool) (s : Bytes)
    → n < fuel
    → scan 0 0 false b (digits_from fuel n s) ≡ scan n 0 false true s
unfolding digits_from
scan-digits zero n b s h = elim h [ ]
scan-digits (suc fuel) n b s h = elim (Bool-cases (ltb n 10)) [
  | inl short ↦
      let same : 0 * 10 + n % 10 ≡ n = ground arith in
      rw short (scan-digit 0 (n % 10) b s (omega arith) ∙ ap (λ t. scan t 0 false true s) same)
  | inr long ↦
      let same : n / 10 * 10 + n % 10 ≡ n = omega arith in
      rw long (
        scan-digits fuel (n / 10) b ((48 + n % 10) ∷ s) (ground arith)
        ∙ scan-digit (n / 10) (n % 10) true s (omega arith)
        ∙ ap (λ t. scan t 0 false true s) same)
]

parse_signed-starts :
    (d : ℕ) (s : Bytes) (n : Scan)
    → d < 10
    → scan 0 0 false false ((48 + d) ∷ s) ≡ n
    → n.some_digit ≡ true
    → parse_signed ((48 + d) ∷ s) (false, (48 + d) ∷ s) ≡ scaled false n
unfolding parse_signed eq_bytes
parse_signed-starts d s n h e some' =
    let inf : (48 + d == 73) ≡ false = ground arith in
    let nan' : (48 + d == 78) ≡ false = ground arith in rw (inf, nan', e, some') refl

parse_float-starts :
    (d : ℕ) (s : Bytes) (n : Scan)
    → d < 10
    → scan 0 0 false false ((48 + d) ∷ s) ≡ n
    → n.some_digit ≡ true
    → parse_float ((48 + d) ∷ s) ≡ scaled false n
unfolding parse_float
parse_float-starts d s n h e some' =
    let plus : (48 + d == 43) ≡ false = ground arith in
    let minus : (48 + d == 45) ≡ false = ground arith in
    let unsigned : signed ((48 + d) ∷ s) ≡ (false, (48 + d) ∷ s) = rw (plus, minus) refl in
    ap (parse_signed ((48 + d) ∷ s)) unsigned ∙ parse_signed-starts d s n h e some'

-- A whole number, and one with one digit behind its dot, in front of which FormatMem writes no more.
parse_float-scan :
    (n : ℕ) (t : Bytes) (m : Scan)
    → scan n 0 false true t ≡ m
    → m.some_digit ≡ true
    → parse_float (digits_from (suc n) n t) ≡ scaled false m
unfolding StartsWithDigit
parse_float-scan n t m e some' =
    let (d, s, same, digit) = digits_from-starts_digit n n t in
    ap parse_float same
    ∙ parse_float-starts d s m digit
        (ap (scan 0 0 false false) (sym same) ∙ scan-digits (suc n) n false t (omega arith) ∙ e)
        some'

pub parse_float-whole :
    (n : ℕ) → parse_float (digits_from (suc n) n []) ≡ some (finite false (ratio n 1))
unfolding scan scaled
parse_float-whole n =
    parse_float-scan n [] (record { value = n; scale = 0; some_digit = true; rest = [] }) refl refl

pub parse_float-tenths :
    (n d : ℕ)
    → d < 10
    → parse_float (digits_from (suc n) n (46 ∷ (48 + d) ∷ []))
      ≡ some (finite false (ratio (n * 10 + d) 10))
unfolding scan scaled
parse_float-tenths n d h =
    let digit : is_digit (48 + d) ≡ true = ground arith in
    let same : n * 10 + (48 + d - 48) ≡ n * 10 + d = omega arith in
    parse_float-scan n (46 ∷ (48 + d) ∷ [])
      (record { value = n * 10 + d; scale = 1; some_digit = true; rest = [] })
      (rw (digit, same) refl) refl
