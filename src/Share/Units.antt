-- ===== src/Share/Units.antt =====
-- share.go: the unit at the end of an amount, and what is left of the text in front of it.
use gmux.Prelude.{
  ◌==◌, ◌&&◌, leb, ℕ, ◌≤◌, ◌<◌, ◌≡◌, ◌≢◌, refl, sym, ◌∙◌, ap, Bool, true, false, ◌||◌, [], ◌∷◌,
  ◌++◌, All, arith, codes, Bool-cases, inl, inr,
}
use gmux.Fence.Bytes.{Bytes, has_suffix, trim_left, trim_right, trim_space}
use gmux.Fence.Allowlist.{has_suffix-append, has_suffix_iff}
use gmux.Share.Memory.{
  to_upper, member, trim_right_of, has_unit, parse_mem, parse_amount, parse_trimmed,
}

-- A digit, a dot, or the slash between them.
abbrev pub IsMark : ℕ → Type 0
IsMark c = (46 ≤ c) × (c < 58)

-- No space and no small letter.
abbrev pub IsLoud : ℕ → Type 0
IsLoud c = (32 < c) × (c < 97)

to_upper-fixed : (s : Bytes) → All IsLoud s → to_upper s ≡ s
unfolding to_upper
to_upper-fixed [] h = refl
to_upper-fixed (c ∷ s) h =
    let small : (leb 97 c && leb c 122) ≡ false = ground arith in
    rw small (ap (λ t. c ∷ t) (to_upper-fixed s h.1))

trim_right-cons : (c : ℕ) (s : Bytes) → IsLoud c → trim_right s ≡ s → trim_right (c ∷ s) ≡ c ∷ s
unfolding trim_right
trim_right-cons c [] h e =
    let dark : ((leb 9 c && leb c 13) || c == 32) ≡ false = ground arith in rw dark refl
trim_right-cons c (d ∷ s) h e = rw e refl

trim_right-fixed : (s : Bytes) → All IsLoud s → trim_right s ≡ s
trim_right-fixed [] h = unfold trim_right in refl
trim_right-fixed (c ∷ s) h = trim_right-cons c s h.0 (trim_right-fixed s h.1)

trim_space-fixed : (c : ℕ) (s : Bytes) → All IsLoud (c ∷ s) → trim_space (c ∷ s) ≡ c ∷ s
unfolding trim_space trim_left
trim_space-fixed c s h =
    let dark : ((leb 9 c && leb c 13) || c == 32) ≡ false = ground (arith, h.0) in
    rw dark (trim_right-fixed (c ∷ s) h)

pub parse_mem-loud :
    (c : ℕ) (s : Bytes) → All IsLoud (c ∷ s) → parse_mem (c ∷ s) ≡ parse_amount (c ∷ s)
unfolding parse_mem
parse_mem-loud c s h =
    ap parse_trimmed (ap trim_space (to_upper-fixed (c ∷ s) h) ∙ trim_space-fixed c s h)

trim_right_of-cons :
    (set s t : Bytes) (c : ℕ)
    → member c set ≡ false
    → trim_right_of set t ≡ s
    → trim_right_of set (c ∷ t) ≡ c ∷ s
unfolding trim_right_of
trim_right_of-cons set [] t c no' e = rw (e, no') refl
trim_right_of-cons set (d ∷ s) t c no' e = rw e refl

pub trim_right_of-unit :
    (set s : Bytes) (unit : ℕ)
    → member unit set ≡ true
    → All (λ c. member c set ≡ false) s
    → trim_right_of set (s ++ unit ∷ []) ≡ s
trim_right_of-unit set [] unit yes' h = unfold trim_right_of in rw yes' refl
trim_right_of-unit set (c ∷ s) unit yes' h =
    trim_right_of-cons set s (s ++ unit ∷ []) c h.0 (trim_right_of-unit set s unit yes' h.1)

abbrev last_from : ℕ → Bytes → ℕ
last_from c [] = c
last_from c (d ∷ s) = last_from d s

last_from-append : (c d : ℕ) (s t : Bytes) → last_from c (s ++ d ∷ t) ≡ last_from d t
last_from-append c d [] t = refl
last_from-append c d (x ∷ s) t = last_from-append x d s t

-- A text does not end in a unit with another last letter.
has_suffix-other :
    (s t : Bytes) (c d : ℕ) → c ≢ last_from d t → has_suffix (s ++ c ∷ []) (d ∷ t) ≡ false
has_suffix-other s t c d h = elim (Bool-cases (has_suffix (s ++ c ∷ []) (d ∷ t))) [
  | inl yes' ↦
      let (sub, e) = (has_suffix_iff (s ++ c ∷ []) (d ∷ t)).0 yes' in
      absurd (h (sym (last_from-append 0 c s []) ∙ ap (last_from 0) e ∙ last_from-append 0 d sub t))
  | inr no' ↦ no'
]

or-true : (a b : Bool) → (a || (b || true)) ≡ true
or-true true b = refl
or-true false true = refl
or-true false false = refl

pub has_unit-same : (s : Bytes) (c : ℕ) → has_unit (s ++ c ∷ []) c ≡ true
has_unit-same s c =
    rw (has_suffix-append s (c ∷ [])) (
      or-true (has_suffix (s ++ c ∷ []) (c ∷ codes "IB"))
        (has_suffix (s ++ c ∷ []) (c ∷ codes "B")))

pub has_unit-other : (s : Bytes) → has_unit (s ++ 77 ∷ []) 71 ≡ false
has_unit-other s =
    rw
      (
        has_suffix-other s (codes "IB") 77 71 (ground arith),
        has_suffix-other s (codes "B") 77 71 (ground arith),
        has_suffix-other s [] 77 71 (ground arith),
      )
      refl
