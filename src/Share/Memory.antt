-- ===== src/Share/Memory.antt =====
-- internal/share/share.go: ParseMem and FormatMem. A text is ASCII; `ParseFloat` reads a decimal as
-- the fraction that it writes, without a limit, and hexadecimal floats are left out.
use gmux.Prelude.{
  ℕ, suc, ◌+◌, ◌-◌, ◌*◌, ◌/◌, ◌%◌, ◌^◌, ◌==◌, Bool, true, false, not, ◌&&◌, ◌||◌, [], ◌∷◌, ◌++◌,
  map, Option, none, some, Result, ok, err, if◌then◌else◌, ltb, leb, codes,
}
use gmux.Fence.Bytes.{Bytes, eq_bytes, has_suffix, trim_space}
use gmux.Decimals.{itoa, atou, is_digit}
use gmux.Share.{Ratio, ratio}

abbrev upper : ℕ → ℕ
upper c = if leb 97 c && leb c 122 then c - 32 else c

-- `strings.ToUpper`.
unfoldable pub to_upper : Bytes → Bytes
to_upper = map upper

unfoldable pub member : ℕ → Bytes → Bool
member c [] = false
member c (d ∷ s) = c == d || member c s

-- `strings.TrimRight`: what is left without the characters of the set at the end.
unfoldable pub trim_right_of : Bytes → Bytes → Bytes
unfolding member
trim_right_of set [] = []
trim_right_of set (c ∷ s) = elim (trim_right_of set s) [
  | [] ↦ if member c set then [] else c ∷ []
  | d ∷ rest ↦ c ∷ d ∷ rest
]

-- Digits with at most one dot, and what stands behind them.
pub record Scan : Type 0 where
  pub value : ℕ
  pub scale : ℕ
  pub some_digit : Bool
  pub rest : Bytes

unfoldable pub scan : ℕ → ℕ → Bool → Bool → Bytes → Scan
scan v k dotted some_digit [] = record { value = v; scale = k; some_digit = some_digit; rest = [] }
scan v k dotted some_digit (c ∷ s) =
    let further =
      scan (if is_digit c then v * 10 + (c - 48) else v) (if is_digit c && dotted then suc k else k)
        (dotted || not (is_digit c)) (some_digit || is_digit c) s in
    if is_digit c || c == 46 && not dotted
    then further
    else record { value = v; scale = k; some_digit = some_digit; rest = c ∷ s }

-- A number, or what is none, as `ParseFloat` gives them.
pub data Float : Type 0 where
  finite : Bool → Ratio → Float
  infinite : Bool → Float
  nan : Float

abbrev pub signed : Bytes → Bool × Bytes
signed [] = (false, [])
signed (c ∷ s) = if c == 43 then (false, s) else if c == 45 then (true, s) else (false, c ∷ s)

-- The value with the exponent that follows it.
unfoldable pub scaled : Bool → Scan → Option Float
unfolding atou
scaled neg n = elim n.rest [
  | [] ↦ some (finite neg (ratio n.value (10 ^ n.scale)))
  | c ∷ s ↦
      if c == 69
      then elim (atou (signed s).1) [
        | none ↦ none
        | some e ↦ some (
            finite neg (
              if (signed s).0
              then ratio n.value (10 ^ (n.scale + e))
              else ratio (n.value * 10 ^ e) (10 ^ n.scale)))
      ]
      else none
]

-- A text whose sign stands in front of `s`; "NAN" has none.
unfoldable pub parse_signed : Bytes → Bool × Bytes → Option Float
unfolding eq_bytes scan scaled
parse_signed t (neg, s) =
    let n = scan 0 0 false false s in
    if eq_bytes s (codes "INF") || eq_bytes s (codes "INFINITY")
    then some (infinite neg)
    else if eq_bytes t (codes "NAN")
    then some nan
    else if n.some_digit
    then scaled neg n
    else none

-- `strconv.ParseFloat` of a text in capitals.
unfoldable pub parse_float : Bytes → Option Float
unfolding parse_signed
parse_float t = parse_signed t (signed t)

pub data MemError : Type 0 where
  no_amount bad_amount : MemError

-- The int that a float is turned into, which Go leaves open for one that is none.
pub data Amount : Type 0 where
  mib : ℕ → Amount
  unspecified : Amount

-- `int(math.Round(v * mult))` of a positive fraction.
unfoldable pub rounded : Ratio → ℕ → ℕ
rounded v mult = (2 * v.num * mult + v.den) / (2 * v.den)

-- `err != nil || v <= 0`, which is false of NaN.
abbrev pub amount_of : ℕ → Option Float → Result MemError Amount
amount_of mult none = err bad_amount
amount_of mult (some (finite neg v)) =
    if neg || v.num == 0 then err bad_amount else ok (mib (rounded v mult))
amount_of mult (some (infinite neg)) = if neg then err bad_amount else ok unspecified
amount_of mult (some nan) = ok unspecified

abbrev pub has_unit : Bytes → ℕ → Bool
has_unit t c =
    has_suffix t (c ∷ codes "IB") || (has_suffix t (c ∷ codes "B") || has_suffix t (c ∷ []))

abbrev pub parse_amount : Bytes → Result MemError Amount
parse_amount t =
    if has_unit t 71
    then amount_of 1024 (parse_float (trim_right_of (codes "GIB") t))
    else if has_unit t 77
    then amount_of 1 (parse_float (trim_right_of (codes "MIB") t))
    else amount_of 1 (parse_float t)

abbrev pub parse_trimmed : Bytes → Result MemError Amount
parse_trimmed [] = err no_amount
parse_trimmed (c ∷ t) = parse_amount (c ∷ t)

unfoldable pub parse_mem : Bytes → Result MemError Amount
unfolding to_upper trim_space has_suffix trim_right_of parse_float rounded
parse_mem s = parse_trimmed (trim_space (to_upper s))

-- The tenths of `n / 1024` that "%.1f" writes: the nearest, of two the even one.
unfoldable pub tenths : ℕ → ℕ
tenths n =
    let q = n * 10 / 1024 in
    let r = n * 10 % 1024 in if ltb 512 r || r == 512 && q % 2 == 1 then q + 1 else q

unfoldable pub format_mem : ℕ → Bytes
unfolding itoa tenths
format_mem n =
    if leb 1024 n && n % 1024 == 0
    then itoa (n / 1024) ++ codes "G"
    else if leb 1024 n
    then itoa (tenths n / 10) ++ 46 ∷ (48 + tenths n % 10) ∷ codes "G"
    else itoa n ++ codes "M"
