-- ===== src/Examples/Amounts.antt =====
-- internal/share/share.go: amounts of memory as texts.
use gmux.Share.Amounts.{Nearly, parse_mem-format_mem}
use gmux.Prelude.{ℕ, arith, refl, ◌≡◌, codes, ok, err}
use gmux.Share.Memory.{parse_mem, format_mem, mib, unspecified, bad_amount}

gib : parse_mem (codes " 1.5gib ") ≡ ok (mib 1536)
unfolding parse_mem
gib = refl

exponent : parse_mem (codes "2e-1G") ≡ ok (mib 205)
unfolding parse_mem
exponent = refl

-- A text of many units.
repeated : parse_mem (codes "20BIGG") ≡ ok (mib 20_480)
unfolding parse_mem
repeated = refl

-- What is not a number has no error.
not_a_number : parse_mem (codes "nan") ≡ ok unspecified
unfolding parse_mem
not_a_number = refl

-- A small positive amount is none.
too_small : parse_mem (codes "0.4M") ≡ ok (mib 0)
unfolding parse_mem
too_small = refl

zero_amount : parse_mem (codes "0M") ≡ err bad_amount
unfolding parse_mem
zero_amount = refl

written : format_mem 1_229 ≡ codes "1.2G"
unfolding format_mem
written = refl

card : format_mem 81_920 ≡ codes "80G"
unfolding format_mem
card = refl

parse_mem-format_mem_example :
    (m : ℕ) × (parse_mem (format_mem 1_229) ≡ ok (mib m)) × Nearly 1_229 m
parse_mem-format_mem_example = parse_mem-format_mem 1_229 (ground arith)
