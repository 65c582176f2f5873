-- ===== src/Api/Text.antt =====
-- internal/api/remote.go and internal/remote/client.go: what bufio.ScanLines, encoding/json and
-- unicode/utf8 make of the bytes of a line.
use gmux.Prelude.{
  ℕ, zero, suc, ◌+◌, ◌-◌, ◌==◌, ◌&&◌, ◌||◌, Bool, true, false, [], ◌∷◌, if◌then◌else◌, leb, ltb,
  get_or, drop,
}
use gmux.Fence.Bytes.{Bytes}

-- A line without its newline as ScanLines gives it: one carriage return at its end is dropped.
unfoldable pub drop_cr : Bytes → Bytes
drop_cr [] = []
drop_cr (c ∷ []) = if c == 13 then [] else c ∷ []
drop_cr (c ∷ d ∷ s) = c ∷ drop_cr (d ∷ s)

-- The bytes of a rune by its first one, 0 if no rune begins with it.
abbrev width : ℕ → ℕ
width c =
    if ltb c 0x80
    then 1
    else if ltb c 0xc2
    then 0
    else if ltb c 0xe0
    then 2
    else if ltb c 0xf0
    then 3
    else if ltb c 0xf5
    then 4
    else 0

-- The second byte excludes overlong forms, surrogates and what lies above U+10FFFF.
abbrev is_second : ℕ → ℕ → Bool
is_second c b =
    leb (if c == 0xe0 then 0xa0 else if c == 0xf0 then 0x90 else 0x80) b
    && leb b (if c == 0xed then 0x9f else if c == 0xf4 then 0x8f else 0xbf)

unfoldable pub are_conts : ℕ → Bytes → Bool
are_conts zero s = true
are_conts (suc n) [] = false
are_conts (suc n) (b ∷ s) = (leb 0x80 b && leb b 0xbf) && are_conts n s

-- `utf8.DecodeRune`: the size of the rune that a byte begins, 0 if it begins none.
unfoldable pub rune_size : ℕ → Bytes → ℕ
unfolding are_conts
rune_size c s =
    if leb (width c) 1
    then width c
    else if is_second c (get_or s 0 0) && are_conts (width c - 2) (drop 1 s)
    then width c
    else 0

-- What comes out of a JSON string that a string was put into: a byte that begins no rune has become
-- U+FFFD. The number counts the bytes of a rune that are left.
unfoldable pub coerced : ℕ → Bytes → Bytes
unfolding rune_size
coerced n [] = []
coerced (suc n) (c ∷ s) = c ∷ coerced n s
coerced zero (c ∷ s) = elim (rune_size c s) [
  | zero ↦ 0xef ∷ 0xbf ∷ 0xbd ∷ coerced 0 s
  | suc n ↦ c ∷ coerced n s
]

unfoldable pub coerce : Bytes → Bytes
unfolding coerced
coerce s = coerced 0 s

-- The bytes that a rune takes by its first one, with as many more as the rune has bytes: "\u2028" and
-- "\u2029" take six of their three.
abbrev escape_size : ℕ → Bytes → ℕ
escape_size c s =
    if c == 34 || c == 92 || (leb 8 c && leb c 10) || c == 12 || c == 13
    then 2
    else if ltb c 32 || c == 60 || c == 62 || c == 38
    then 6
    else if c == 0xe2 && get_or s 0 0 == 0x80 && leb 0xa8 (get_or s 1 0) && leb (get_or s 1 0) 0xa9
    then 4
    else 1

unfoldable pub escaped_size : ℕ → Bytes → ℕ
unfolding rune_size
escaped_size n [] = 0
escaped_size (suc n) (c ∷ s) = suc (escaped_size n s)
escaped_size zero (c ∷ s) = elim (rune_size c s) [
  | zero ↦ 6 + escaped_size 0 s
  | suc n ↦ escape_size c s + escaped_size n s
]

-- The bytes of {"d":"...","type":"o"}.
unfoldable pub line_size : Bytes → ℕ
unfolding escaped_size
line_size s = 19 + escaped_size 0 s

-- The bytes of {"msg":"...","type":"error"}.
unfoldable pub failure_size : Bytes → ℕ
unfolding escaped_size
failure_size s = 25 + escaped_size 0 s
