-- ===== src/Fence/Bytes.antt =====
-- Go's strings and bytes functions that proxy.go calls, on strings as lists of bytes; a string is
-- ASCII where a function depends on the letter.
use gmux.Prelude.{
  ℕ, ◌+◌, ◌-◌, ◌*◌, ◌==◌, ◌&&◌, ◌||◌, ◌≡◌, refl, ap, Bool, true, false, List, [], ◌∷◌, ◌++◌, map,
  if◌then◌else◌, leb, length, take, drop, get_or, arith,
}

abbrev pub Bytes : Type 0
Bytes = List ℕ

unfoldable pub eq_bytes : Bytes → Bytes → Bool
eq_bytes [] [] = true
eq_bytes [] (y ∷ ys) = false
eq_bytes (x ∷ xs) [] = false
eq_bytes (x ∷ xs) (y ∷ ys) = x == y && eq_bytes xs ys

pub eq_bytes_refl : (xs : Bytes) → eq_bytes xs xs ≡ true
unfolding eq_bytes
eq_bytes_refl [] = refl
eq_bytes_refl (x ∷ xs) = ground (arith, eq_bytes_refl xs)

pub eq_bytes→eq : (xs ys : Bytes) → eq_bytes xs ys ≡ true → xs ≡ ys
unfolding eq_bytes
eq_bytes→eq [] [] e = refl
eq_bytes→eq [] (y ∷ ys) e = absurd (cc (e))
eq_bytes→eq (x ∷ xs) [] e = absurd (cc (e))
eq_bytes→eq (x ∷ xs) (y ∷ ys) e =
    let same : x ≡ y = ground (arith, e) in
    let rest = eq_bytes→eq xs ys (ground (arith, e)) in cc (same, rest)

unfoldable pub has_suffix : Bytes → Bytes → Bool
unfolding eq_bytes
has_suffix s end = leb (length end) (length s) && eq_bytes (drop (length s - length end) s) end

unfoldable pub has_prefix : Bytes → Bytes → Bool
has_prefix s [] = true
has_prefix [] (y ∷ ys) = false
has_prefix (x ∷ xs) (y ∷ ys) = x == y && has_prefix xs ys

unfoldable pub trim_suffix : Bytes → Bytes → Bytes
unfolding has_suffix
trim_suffix s end = if has_suffix s end then take (length s - length end) s else s

unfoldable pub trim_prefix : Bytes → Bytes → Bytes
unfolding has_prefix
trim_prefix s start = if has_prefix s start then drop (length start) s else s

abbrev lower : ℕ → ℕ
lower c = if leb 65 c && leb c 90 then c + 32 else c

unfoldable pub to_lower : Bytes → Bytes
to_lower = map lower

-- "\t\n\v\f\r" and the space.
abbrev is_space : ℕ → Bool
is_space c = (leb 9 c && leb c 13) || c == 32

unfoldable pub trim_left : Bytes → Bytes
trim_left [] = []
trim_left (c ∷ s) = if is_space c then trim_left s else c ∷ s

-- What is left of a string without the spaces at its end.
unfoldable pub trim_right : Bytes → Bytes
trim_right [] = []
trim_right (c ∷ s) = elim (trim_right s) [
  | [] ↦ if is_space c then [] else c ∷ []
  | d ∷ rest ↦ c ∷ d ∷ rest
]

unfoldable pub trim_space : Bytes → Bytes
unfolding trim_left trim_right
trim_space s = trim_right (trim_left s)

-- binary.BigEndian.Uint16 of the first two bytes.
abbrev pub uint16 : Bytes → ℕ
uint16 b = get_or b 0 0 * 256 + get_or b 1 0

pub drop-length_append : (xs ys : Bytes) → drop (length xs) (xs ++ ys) ≡ ys
drop-length_append [] ys = refl
drop-length_append (x ∷ xs) ys = drop-length_append xs ys

pub take-length_append : (xs ys : Bytes) → take (length xs) (xs ++ ys) ≡ xs
take-length_append [] ys = refl
take-length_append (x ∷ xs) ys = ap (λ zs. x ∷ zs) (take-length_append xs ys)
