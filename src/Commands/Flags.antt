-- ===== src/Commands/Flags.antt =====
-- cmd/gmux/flags.go: the parser of flags, on arguments as lists of bytes.
use gmux.Prelude.{
  ◌==◌, ◌≡◌, refl, inl, inr, Bool, true, false, not, ◌&&◌, List, [], ◌∷◌, ◌++◌, Option, none, some,
  if◌then◌else◌, ltb, length, drop, arith, Bool-cases, Option-cases, All,
}
use gmux.Fence.Bytes.{Bytes, eq_bytes, eq_bytes_refl, has_prefix}

abbrev pub dashes : Bytes
dashes = 45 ∷ 45 ∷ []

-- The maps are functions.
pub record FlagSet : Type 0 where
  pub kv : Bytes → Option Bytes
  pub set : Bytes → Bool
  pub multi : Bytes → List Bytes
  pub rest : List Bytes

abbrev with_flag : Bytes → FlagSet → FlagSet
with_flag key f = record f { set = λ k. if eq_bytes k key then true else f.set k }

abbrev with_value : Bytes → Bytes → FlagSet → FlagSet
with_value key v f = record {
  kv = λ k. if eq_bytes k key then some v else f.kv k;
  set = λ k. if eq_bytes k key then true else f.set k;
  multi = λ k. if eq_bytes k key then f.multi key ++ v ∷ [] else f.multi k;
  rest = f.rest;
}

abbrev pub is_end : Bytes → Bool
is_end a = eq_bytes a dashes

abbrev is_flag : Bytes → Bool
is_flag a = ltb 2 (length a) && has_prefix a dashes

-- What stands before and behind the first '='.
unfoldable cut_equals : Bytes → Option (Bytes × Bytes)
cut_equals [] = none
cut_equals (c ∷ key) =
    if c == 61
    then some ([], key)
    else elim (cut_equals key) [ none ↦ none | some (k, v) ↦ some (c ∷ k, v) ]

-- What the loop does when a flag without '=' finds no value behind it, and when it finds one.
abbrev settled : Option Bytes → FlagSet → FlagSet
settled none f = f
settled (some key) f = with_flag key f

abbrev is_value : Option Bytes → Bytes → Bool
is_value none a = false
is_value (some key) a = not (is_end a) && not (is_flag a)

abbrev with_next : Option Bytes → Bytes → FlagSet → FlagSet
with_next none a f = f
with_next (some key) a f = with_value key a f

-- The loop of `flags`; `pending` is a flag without '=' that stands before the arguments, whose value
-- the next of them is, unless that is a flag itself or "--".
unfoldable pub flags_from : (pending : Option Bytes) → List Bytes → FlagSet → FlagSet
unfolding cut_equals
flags_from pending [] f = settled pending f
flags_from pending (a ∷ args) f =
    if is_value pending a
    then flags_from none args (with_next pending a f)
    else if is_end a
    then record (settled pending f) { rest = args }
    else if is_flag a
    then elim (cut_equals (drop 2 a)) [
      | some (k, v) ↦ flags_from none args (with_value k v (settled pending f))
      | none ↦ flags_from (some (drop 2 a)) args (settled pending f)
    ]
    else flags_from none args (settled pending f)

abbrev no_flags : FlagSet
no_flags = record { kv = λ k. none; set = λ k. false; multi = λ k. []; rest = [] }

-- `flags`.
unfoldable pub flags : List Bytes → FlagSet
unfolding flags_from
flags args = flags_from none args no_flags

-- `str`.
unfoldable pub str : Bytes → Bytes → FlagSet → Bytes
str key def f = elim (f.kv key) [ some v ↦ v | none ↦ def ]

no_value : (pending : Option Bytes) → is_value pending dashes ≡ false
no_value none = refl
no_value (some key) = ground (arith, eq_bytes_refl dashes)

rest-flags_from :
    (pre command : List Bytes) (pending : Option Bytes) (f : FlagSet)
    → All (λ a. is_end a ≡ false) pre
    → (flags_from pending (pre ++ dashes ∷ command) f).rest ≡ command
unfolding flags_from
rest-flags_from [] command pending f h = rw (no_value pending, eq_bytes_refl dashes) refl
rest-flags_from (a ∷ pre) command pending f h = elim (Bool-cases (is_value pending a)) [
  | inl value ↦ rw value (rest-flags_from pre command none (with_next pending a f) h.1)
  | inr other ↦ elim (Bool-cases (is_flag a)) [
    | inr plain ↦ rw (other, h.0, plain) (rest-flags_from pre command none (settled pending f) h.1)
    | inl flag ↦ elim (Option-cases (cut_equals (drop 2 a))) [
      | inl x ↦
          rw (other, h.0, flag, x)
            (rest-flags_from pre command (some (drop 2 a)) (settled pending f) h.1)
      | inr (kv, x) ↦
          rw (other, h.0, flag, x)
            (rest-flags_from pre command none (with_value kv.0 kv.1 (settled pending f)) h.1)
    ]
  ]
]

-- Everything behind the first "--" is the command, as it stands, whatever flags and values are
-- before it.
pub rest-flags :
    (pre command : List Bytes)
    → All (λ a. is_end a ≡ false) pre
    → (flags (pre ++ dashes ∷ command)).rest ≡ command
unfolding flags
rest-flags pre command h = rest-flags_from pre command none no_flags h
