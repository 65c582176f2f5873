-- ===== src/Accounting/Totals.antt =====
-- accounting.go: a report counts every interval once, clipped to the window.
use native.Mathlib.Nat.{zero-add}
use gmux.Prelude.{
  none, some, Option, is_ok, ◌∙◌, ℕ, ◌+◌, ◌-◌, ◌≡◌, refl, inl, inr, Bool, false, String, List, [],
  ◌∷◌, ◌++◌, if◌then◌else◌, ltb, str_eq, Result, ok, err, sort_stable, arith, Bool-cases,
  Result-cases, min, max, insert_sorted, str_eq→eq,
}
use gmux.Accounting.{
  Option, some, clipped_start, clipped_end, Interval, Row, key_of, count, count_in, tally,
  tally_all, still_open, summed, usage, UsageError, not_read, more_share, no_interval,
}

-- The nanoseconds that the rows of a key count.
unfoldable pub counted : String → List Row → ℕ
counted key [] = 0
counted key (r ∷ rows) = if str_eq r.key key then r.seconds + counted key rows else counted key rows

-- The part of an interval that lies in a window.
abbrev pub overlap : ℕ → ℕ → Interval → ℕ
overlap since until iv = min until iv.end - max since iv.start

abbrev has_key : String → Result String String → Bool
has_key key (ok k) = str_eq k key
has_key key (err e) = false

-- What the intervals of a key have in a window.
unfoldable pub held : ℕ → ℕ → String → String → List Interval → ℕ
held since until by key [] = 0
held since until by key (iv ∷ ivs) =
    if has_key key (key_of iv by)
    then overlap since until iv + held since until by key ivs
    else held since until by key ivs

counted-count_in :
    (key k : String) (sec : ℕ) (iv : Interval) (rows : List Row)
    → counted key (count_in k sec iv rows)
      ≡ (if str_eq k key then sec + counted key rows else counted key rows)
unfolding counted count_in count
counted-count_in key k sec iv [] = ground (arith)
counted-count_in key k sec iv (r ∷ rows) = elim (Bool-cases (str_eq r.key k)) [
  | inl same ↦ rw (same, str_eq→eq r.key k same) (ground (arith))
  | inr apart ↦ rw apart (ground (arith, counted-count_in key k sec iv rows))
]

is_ok-key_of : (by : String) (a b : Interval) → is_ok (key_of b by) ≡ is_ok (key_of a by)
unfolding key_of
is_ok-key_of by a b = ground (arith)

key_of_valid :
    (by : String) (a b : Interval) (k : String)
    → key_of a by ≡ ok k
    → (key : String) × (key_of b by ≡ ok key)
key_of_valid by a b k e = elim (Result-cases (key_of b by)) [
  | inl (key, named) ↦ (key, named)
  | inr (x, bad) ↦ absurd (cc (is_ok-key_of by a b, e, bad))
]

-- What `tally_all` adds to the rows.
abbrev pub Adds : ℕ → ℕ → String → List Interval → List Row → Result String (List Row) → Type 0
Adds since until by ivs rows r =
    (out : List Row) × (r ≡ ok out)
    × ((key : String) → counted key out ≡ counted key rows + held since until by key ivs)

counted-tally_all :
    (since until : ℕ) (by k : String) (ivs : List Interval) (rows : List Row)
    → key_of no_interval by ≡ ok k
    → Adds since until by ivs rows (tally_all since until by ivs rows)
unfolding tally_all tally held
counted-tally_all since until by k [] rows valid = (rows, refl, λ key. omega arith)
counted-tally_all since until by k (iv ∷ ivs) rows valid =
    let (own, named) = key_of_valid by no_interval iv k valid in
    elim (Bool-cases (ltb (clipped_start since iv) (clipped_end until iv))) [
      | inl inside ↦
          let sec = clipped_end until iv - clipped_start since iv in
          let (out, done, sums) =
            counted-tally_all since until by k ivs (count_in own sec iv rows) valid in
          (
            out,
            rw (inside, named, tally_all, tally) done,
            λ key.
                rw named (ground (arith, sums key, counted-count_in key own sec iv rows, inside)),
          )
      | inr outside ↦
          let (out, done, sums) = counted-tally_all since until by k ivs rows valid in
          (
            out,
            rw (outside, tally_all, tally) done,
            λ key. rw named (ground (arith, sums key, outside)),
          )
    ]

counted-insert_sorted :
    (key : String) (r : Row) (rows : List Row)
    → counted key (insert_sorted more_share r rows) ≡ counted key (r ∷ rows)
unfolding insert_sorted counted
counted-insert_sorted key r [] = refl
counted-insert_sorted key r (q ∷ rows) = ground (arith, counted-insert_sorted key r rows)

counted-sort_stable :
    (key : String) (rows : List Row) → counted key (sort_stable more_share rows) ≡ counted key rows
unfolding sort_stable counted
counted-sort_stable key [] = refl
counted-sort_stable key (r ∷ rows) =
    ground (
      arith,
      counted-insert_sorted key r (sort_stable more_share rows),
      counted-sort_stable key rows,
    )

-- What a report promises of the file's intervals and those that are open after the file was read.
abbrev pub Reports :
    ℕ
    → ℕ
    → String
    → Option (List Interval)
    → List (String × List Interval)
    → Result UsageError (List Row)
    → Type 0
Reports since until by none open_now r = r ≡ err not_read
Reports since until by (some ivs) open_now r =
    (out : List Row) × (r ≡ ok out)
    × ((key : String)
        → counted key out ≡ held since until by key (ivs ++ still_open until open_now))

summed-Reports :
    (since until : ℕ) (by k : String) (ivs : List Interval)
    (open_now : List (String × List Interval))
    → key_of no_interval by ≡ ok k
    → Reports since until by (some ivs) open_now (summed since until by ivs open_now)
unfolding summed counted
summed-Reports since until by k ivs open_now valid =
    let (rows, done, sums) =
      counted-tally_all since until by k (ivs ++ still_open until open_now) [] valid in
    (
      sort_stable more_share rows,
      rw (done, summed) refl,
      λ key.
          counted-sort_stable key rows
          ∙ sums key
          ∙ zero-add (held since until by key (ivs ++ still_open until open_now)),
    )

-- With a grouping that exists, Usage gives a report if the file can be read, and an error if not. In
-- a report the seconds of every key are those that the intervals of that key have within the window,
-- the ones read from the file and the ones open when the mutex is held after that.
pub usage_lem :
    (since until : ℕ) (by k : String) (written : Option (List Interval))
    (open_now : List (String × List Interval))
    → key_of no_interval by ≡ ok k
    → Reports since until by written open_now (usage since until by written open_now)
unfolding usage
usage_lem since until by k none open_now valid = rw (valid, usage) refl
usage_lem since until by k (some ivs) open_now valid =
    rw (valid, usage) (summed-Reports since until by k ivs open_now valid)
