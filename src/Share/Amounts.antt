-- ===== src/Share/Amounts.antt =====
-- share.go: ParseMem reads what FormatMem writes.
use gmux.Prelude.{
  some, ℕ, suc, ◌+◌, ◌*◌, ◌/◌, ◌%◌, ◌==◌, ◌≤◌, ◌<◌, ◌≡◌, ◌⊎◌, refl, sym, ◌∙◌, ap, false, ok, [],
  ◌∷◌, ◌++◌, All, arith, codes, Bool-cases, inl, inr, leb,
}
use gmux.Fence.Bytes.{Bytes}
use gmux.Decimals.{itoa, digits_from}
use gmux.Share.{ratio}
use gmux.Share.Memory.{
  finite, parse_float, rounded, mib, amount_of, tenths, format_mem, parse_mem, parse_amount,
  trim_right_of, member,
}
use gmux.Share.Units.{
  IsMark, IsLoud, parse_mem-loud, trim_right_of-unit, has_unit-same, has_unit-other,
}
use gmux.Share.Scanning.{
  StartsWithDigit, digits_from-append, digits_from-IsMark, digits_from-starts_digit,
  parse_float-whole, parse_float-tenths,
}

All-IsLoud : (s : Bytes) (unit : ℕ) → IsLoud unit → All IsMark s → All IsLoud (s ++ unit ∷ [])
All-IsLoud [] unit u h = (u, tt)
All-IsLoud (c ∷ s) unit u h = ((omega (arith, h.0), omega (arith, h.0)), All-IsLoud s unit u h.1)

marks-member :
    (unit : ℕ) (s : Bytes)
    → 65 < unit
    → All IsMark s
    → All (λ c. member c (unit ∷ codes "IB") ≡ false) s
unfolding member
marks-member unit [] u h = tt
marks-member unit (c ∷ s) u h =
    let no_unit : (c == unit) ≡ false = ground (arith, h.0) in
    let no_i : (c == 73) ≡ false = ground (arith, h.0) in
    let no_b : (c == 66) ≡ false = ground (arith, h.0) in
    (rw (no_unit, no_i, no_b) refl, marks-member unit s u h.1)

trim_right_of-marks :
    (unit : ℕ) (s : Bytes)
    → 65 < unit
    → All IsMark s
    → trim_right_of (unit ∷ codes "IB") (s ++ unit ∷ []) ≡ s
trim_right_of-marks unit s u h =
    trim_right_of-unit (unit ∷ codes "IB") s unit (unfold member in ground arith)
      (marks-member unit s u h)

parse_mem-trimmed :
    (s : Bytes) (unit : ℕ)
    → IsLoud unit
    → StartsWithDigit s
    → All IsMark s
    → parse_mem (s ++ unit ∷ []) ≡ parse_amount (s ++ unit ∷ [])
unfolding StartsWithDigit
parse_mem-trimmed [] unit u (d, s, e, digit) h = absurd (cc e)
parse_mem-trimmed (c ∷ s) unit u first h =
    parse_mem-loud c (s ++ unit ∷ []) (All-IsLoud (c ∷ s) unit u h)

parse_mem-gib :
    (s : Bytes)
    → StartsWithDigit s
    → All IsMark s
    → parse_mem (s ++ 71 ∷ []) ≡ amount_of 1024 (parse_float s)
parse_mem-gib s first h =
    parse_mem-trimmed s 71 (ground arith) first h
    ∙ rw (has_unit-same s 71, trim_right_of-marks 71 s (ground arith) h) refl

parse_mem-mib :
    (s : Bytes)
    → StartsWithDigit s
    → All IsMark s
    → parse_mem (s ++ 77 ∷ []) ≡ amount_of 1 (parse_float s)
parse_mem-mib s first h =
    parse_mem-trimmed s 77 (ground arith) first h
    ∙ rw (has_unit-other s, has_unit-same s 77, trim_right_of-marks 77 s (ground arith) h) refl

amount_of-finite :
    (mult n d : ℕ)
    → 0 < n
    → amount_of mult (some (finite false (ratio n d))) ≡ ok (mib (rounded (ratio n d) mult))
amount_of-finite mult n d h = let positive : (n == 0) ≡ false = ground arith in rw positive refl

parse_mem-whole_gib : (q : ℕ) → 0 < q → parse_mem (itoa q ++ codes "G") ≡ ok (mib (1024 * q))
unfolding itoa rounded
parse_mem-whole_gib q h =
    let same : (2 * q * 1024 + 1) / (2 * 1) ≡ 1024 * q = omega arith in
    parse_mem-gib (itoa q) (digits_from-starts_digit q q []) (digits_from-IsMark (suc q) q [] tt)
    ∙ ap (amount_of 1024) (parse_float-whole q)
    ∙ amount_of-finite 1024 q 1 h
    ∙ ap (λ m. ok (mib m)) same

parse_mem-whole_mib : (q : ℕ) → 0 < q → parse_mem (itoa q ++ codes "M") ≡ ok (mib q)
unfolding itoa rounded
parse_mem-whole_mib q h =
    let same : (2 * q * 1 + 1) / (2 * 1) ≡ q = omega arith in
    parse_mem-mib (itoa q) (digits_from-starts_digit q q []) (digits_from-IsMark (suc q) q [] tt)
    ∙ ap (amount_of 1) (parse_float-whole q)
    ∙ amount_of-finite 1 q 1 h
    ∙ ap (λ m. ok (mib m)) same

parse_mem-tenths :
    (t : ℕ)
    → 0 < t
    → parse_mem (itoa (t / 10) ++ 46 ∷ (48 + t % 10) ∷ codes "G")
      ≡ ok (mib (rounded (ratio t 10) 1024))
unfolding itoa
parse_mem-tenths t h =
    let digit : t % 10 < 10 = ground arith in
    let end = 46 ∷ (48 + t % 10) ∷ [] in
    let mark : IsMark (48 + t % 10) = (omega arith, ground arith) in
    let same : t / 10 * 10 + t % 10 ≡ t = omega arith in
    ap parse_mem (
      digits_from-append (suc (t / 10)) (t / 10) [] (end ++ codes "G")
      ∙ sym (digits_from-append (suc (t / 10)) (t / 10) end (codes "G")))
    ∙ parse_mem-gib (digits_from (suc (t / 10)) (t / 10) end)
        (digits_from-starts_digit (t / 10) (t / 10) end)
        (digits_from-IsMark (suc (t / 10)) (t / 10) end (ground arith, (mark, tt)))
    ∙ ap (amount_of 1024) (
        parse_float-tenths (t / 10) (t % 10) digit
        ∙ ap (λ v. some (finite false (ratio v 10))) same)
    ∙ amount_of-finite 1024 t 10 h

-- The amount `m` that is read for `n`: the same where FormatMem rounds nothing.
abbrev pub Nearly : ℕ → ℕ → Type 0
Nearly n m = (n ≤ m + 51) × (m ≤ n + 51) × ((n < 1024) ⊎ (n % 1024 ≡ 0) → m ≡ n)

tenths-near : (n : ℕ) → (1024 * tenths n ≤ 10 * n + 512) × (10 * n ≤ 1024 * tenths n + 512)
unfolding tenths
tenths-near n = (ground arith, ground arith)

Nearly-refl : (n : ℕ) → Nearly n n
Nearly-refl n = (omega arith, omega arith, λ whole. refl)

tenths-positive : (n : ℕ) → 1024 ≤ n → 0 < tenths n
tenths-positive n h = omega (arith, h, (tenths-near n).1)

rounded-near :
    (n t : ℕ)
    → 1024 * t ≤ 10 * n + 512
    → 10 * n ≤ 1024 * t + 512
    → (n ≤ rounded (ratio t 10) 1024 + 51) × (rounded (ratio t 10) 1024 ≤ n + 51)
unfolding rounded
rounded-near n t below above = (omega arith, omega arith)

Nearly-tenths :
    (n : ℕ) → 1024 ≤ n → (n % 1024 == 0) ≡ false → Nearly n (rounded (ratio (tenths n) 10) 1024)
Nearly-tenths n big parts =
    let (below, above) = tenths-near n in
    let (low, high) = rounded-near n (tenths n) below above in
    (low, high, λ whole. absurd (ground (arith, big, parts, whole)))

-- What ParseMem reads of the text that FormatMem writes for n MiB, which are not none, is at most
-- 51 MiB off, and is n if n is below 1024 or whole GiB.
pub parse_mem-format_mem :
    (n : ℕ) → 0 < n → (m : ℕ) × (parse_mem (format_mem n) ≡ ok (mib m)) × Nearly n m
unfolding format_mem
parse_mem-format_mem n h = elim (Bool-cases (leb 1024 n)) [
  | inl big ↦ elim (Bool-cases (n % 1024 == 0)) [
    | inl whole ↦
        let same : 1024 * (n / 1024) ≡ n = ground arith in
        (
          n,
          rw (big, whole)
              (parse_mem-whole_gib (n / 1024) (ground arith) ∙ ap (λ m. ok (mib m)) same),
          Nearly-refl n,
        )
    | inr parts ↦ (
      rounded (ratio (tenths n) 10) 1024,
      rw (big, parts) (parse_mem-tenths (tenths n) (tenths-positive n (ground arith))),
      Nearly-tenths n (ground arith) parts,
    )
  ]
  | inr small ↦ (n, rw small (parse_mem-whole_mib n h), Nearly-refl n)
]
