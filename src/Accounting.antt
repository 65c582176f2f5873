-- ===== src/Accounting.antt =====
-- internal/accounting/accounting.go: the ledger of who used which share of which card, and when.
-- Times are in ℕ, in nanoseconds. The file is the list of its lines' intervals; the float64 sums of
-- a row are exact: nanoseconds, and fractions of them.
use gmux.Prelude.{
  ℕ, zero, suc, ◌+◌, ◌-◌, ◌*◌, ◌/◌, ◌%◌, ◌==◌, ◌&&◌, ◌||◌, Bool, true, false, not, String, List, [],
  ◌∷◌, ◌++◌, map, Option, none, some, if◌then◌else◌, ltb, str_eq, Result, ok, err, lookup, delete,
  insert, sort_stable, append_text,
}
use gmux.Prelude.Int.{ℤ, pos, negsuc, ◌+ℤ◌}
use gmux.Share.{Ratio, ratio}
pub mod Totals

pub record Interval : Type 0 where
  pub job : String
  pub name : String
  pub owner : String
  pub vendor : String
  pub card : ℕ
  pub card_name : String
  pub share : Ratio
  pub mem_mib : ℤ
  pub start : ℕ
  pub end : ℕ

pub record Ledger : Type 0 where
  pub file : List Interval
  pub open_intervals : List (String × List Interval)

abbrev pub or_empty : Option (List Interval) → List Interval
or_empty none = []
or_empty (some ivs) = ivs

-- `Begin`.
unfoldable pub begin : List Interval → Ledger → Ledger
begin [] l = l
begin (iv ∷ ivs) l = begin ivs (record l {
  open_intervals =
      insert iv.job (or_empty (lookup iv.job l.open_intervals) ++ iv ∷ []) l.open_intervals;
})

-- The end of an interval, never before its start.
unfoldable pub closed : ℕ → Interval → Interval
closed t iv = record iv { end = if ltb t iv.start then iv.start else t }

-- `End`; `writable` says whether the file can be written, and the Boolean whether it was.
unfoldable pub end_job : String → ℕ → Bool → Ledger → Bool × Ledger
end_job job t writable l = elim (or_empty (lookup job l.open_intervals)) [
  | [] ↦ (true, record l { open_intervals = delete job l.open_intervals })
  | iv ∷ ivs ↦
      if writable
      then (
        true,
        record {
          file = l.file ++ map (closed t) (iv ∷ ivs);
          open_intervals = delete job l.open_intervals;
        },
      )
      else (false, record l { open_intervals = delete job l.open_intervals })
]

-- %d.
abbrev digit : ℕ → String
digit n =
    if n == 0
    then "0"
    else if n == 1
    then "1"
    else if n == 2
    then "2"
    else if n == 3
    then "3"
    else if n == 4
    then "4"
    else if n == 5
    then "5"
    else if n == 6
    then "6"
    else if n == 7
    then "7"
    else if n == 8
    then "8"
    else "9"

unfoldable pub decimal : (fuel : ℕ) → ℕ → String
decimal zero n = digit (n % 10)
decimal (suc fuel) n =
    let rest = decimal fuel (n / 10) in
    if ltb n 10 then digit n else append_text rest (digit (n % 10))

-- `keyOf`.
unfoldable pub key_of : Interval → String → Result String String
key_of iv by =
    if str_eq by "" || str_eq by "job"
    then (if not (str_eq iv.name "") then ok iv.name else ok iv.job)
    else if str_eq by "owner"
    then (if str_eq iv.owner "" then ok "(none)" else ok iv.owner)
    else if str_eq by "card"
    then ok (
        append_text iv.vendor
          (append_text " " (append_text (decimal iv.card iv.card) (append_text " " iv.card_name))))
    else if str_eq by "vendor"
    then ok iv.vendor
    else err by

-- One line of a report; seconds in nanoseconds, share_seconds in fractions of them, mem_gib_hours
-- in MiB nanoseconds.
pub record Row : Type 0 where
  pub key : String
  pub seconds : ℕ
  pub share_seconds : Ratio
  pub gpu_hours : Ratio
  pub mem_gib_hours : ℤ

abbrev pub add_ratio : Ratio → Ratio → Ratio
add_ratio a b = ratio (a.num * b.den + b.num * a.den) (a.den * b.den)

abbrev pub times_ratio : ℕ → Ratio → Ratio
times_ratio n a = ratio (n * a.num) a.den

abbrev pub over_hour : Ratio → Ratio
over_hour a = ratio a.num (a.den * 3600)

abbrev pub times : ℕ → ℤ → ℤ
times n (pos m) = pos (n * m)
times zero (negsuc m) = pos 0
times (suc n) (negsuc m) = negsuc (suc n * suc m - 1)

abbrev pub new_row : String → Row
new_row key = record {
  key = key;
  seconds = 0;
  share_seconds = ratio 0 1;
  gpu_hours = ratio 0 1;
  mem_gib_hours = pos 0;
}

-- The sums of the loop of `Usage`.
unfoldable pub count : ℕ → Interval → Row → Row
count sec iv r = record {
  key = r.key;
  seconds = r.seconds + sec;
  share_seconds = add_ratio r.share_seconds (times_ratio sec iv.share);
  gpu_hours = add_ratio r.gpu_hours (over_hour (times_ratio sec iv.share));
  mem_gib_hours = r.mem_gib_hours +ℤ times sec iv.mem_mib;
}

-- The row of a key, a new one if there is none.
unfoldable pub count_in : String → ℕ → Interval → List Row → List Row
count_in key sec iv [] = count sec iv (new_row key) ∷ []
count_in key sec iv (r ∷ rows) =
    if str_eq r.key key then count sec iv r ∷ rows else r ∷ count_in key sec iv rows

abbrev pub clipped_start : ℕ → Interval → ℕ
clipped_start since iv = if ltb iv.start since then since else iv.start

abbrev pub clipped_end : ℕ → Interval → ℕ
clipped_end until iv = if ltb until iv.end then until else iv.end

-- The body of the loop of `Usage`.
unfoldable pub tally : ℕ → ℕ → String → Interval → List Row → Result String (List Row)
tally since until by iv rows =
    if not (ltb (clipped_start since iv) (clipped_end until iv))
    then ok rows
    else elim (key_of iv by) [
      | err e ↦ err e
      | ok key ↦ ok (count_in key (clipped_end until iv - clipped_start since iv) iv rows)
    ]

unfoldable pub tally_all : ℕ → ℕ → String → List Interval → List Row → Result String (List Row)
tally_all since until by [] rows = ok rows
tally_all since until by (iv ∷ ivs) rows = elim (tally since until by iv rows) [
  | err e ↦ err e
  | ok next ↦ tally_all since until by ivs next
]

-- The open intervals, which count up to `until`.
unfoldable pub still_open : ℕ → List (String × List Interval) → List Interval
still_open until [] = []
still_open until ((job, ivs) ∷ rest) =
    map (λ (iv : Interval). record iv { end = until }) ivs ++ still_open until rest

abbrev pub more_share : Row → Row → Bool
more_share a b =
    ltb (b.share_seconds.num * a.share_seconds.den) (a.share_seconds.num * b.share_seconds.den)

abbrev pub no_interval : Interval
no_interval = record {
  job = "";
  name = "";
  owner = "";
  vendor = "";
  card = 0;
  card_name = "";
  share = ratio 0 1;
  mem_mib = pos 0;
  start = 0;
  end = 0;
}

pub data UsageError : Type 0 where
  no_grouping : String → UsageError
  not_read : UsageError

-- The end of `Usage`, with what was read and the intervals that are open after that.
unfoldable pub summed :
    ℕ → ℕ → String → List Interval → List (String × List Interval) → Result UsageError (List Row)
summed since until by ivs open_now =
    elim (tally_all since until by (ivs ++ still_open until open_now) []) [
      | err e ↦ err (no_grouping e)
      | ok rows ↦ ok (sort_stable more_share rows)
    ]

-- `Usage`. `written` is what `read` gives of the file, `none` where the file cannot be opened or has
-- a line of 1 MiB; the mutex is only held afterwards, so `open_now` may belong to a later state of
-- the ledger.
unfoldable pub usage :
    ℕ
    → ℕ
    → String
    → Option (List Interval)
    → List (String × List Interval)
    → Result UsageError (List Row)
unfolding summed
usage since until by written open_now = elim (key_of no_interval by) [
  | err e ↦ err (no_grouping e)
  | ok key ↦ elim written [ none ↦ err not_read | some ivs ↦ summed since until by ivs open_now ]
]
