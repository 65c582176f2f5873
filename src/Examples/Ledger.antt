-- ===== src/Examples/Ledger.antt =====
-- internal/accounting/accounting.go on small inputs.
use gmux.Prelude.{
  some, ℕ, ◌≡◌, refl, true, String, [], ◌∷◌, map, ok, err, lookup, delete, insert, insert_sorted,
  sort_stable,
}
use gmux.Prelude.Int.{pos, ◌+ℤ◌}
use gmux.Share.{ratio}
use gmux.Accounting.{
  Interval, Ledger, Row, begin, closed, end_job, decimal, key_of, count, count_in, tally, tally_all,
  still_open, summed, usage,
}
use gmux.Accounting.Totals.{usage_lem, Reports}

program : Unit {0}
unfolding begin closed end_job decimal key_of count count_in tally tally_all still_open summed usage
    lookup delete insert insert_sorted sort_stable ◌+ℤ◌
program = tt

abbrev interval : String → String → ℕ → Interval
interval job owner start = record {
  job = job;
  name = "";
  owner = owner;
  vendor = "nvidia";
  card = 12;
  card_name = "H100";
  share = ratio 1 2;
  mem_mib = pos 1000;
  start = start;
  end = 0;
}

-- "a" runs from 10 to 50, "b" from 20 on.
abbrev ledger : Ledger
ledger =
    (end_job "a" 50 true (
      begin (interval "a" "ann" 10 ∷ interval "b" "ann" 20 ∷ [])
        (record { file = []; open_intervals = [] }))).1

report :
    elim (usage 30 70 "owner" (some ledger.file) ledger.open_intervals) [
      | ok rows ↦ map (λ (r : Row). r.seconds) rows
      | err e ↦ []
    ]
    ≡ 60 ∷ []
unfolding program
report = refl

card_key : key_of (interval "a" "ann" 10) "card" ≡ ok "nvidia 12 H100"
unfolding program
card_key = refl

usage_lem_example :
    Reports 30 70 "owner"
      (some ledger.file)
      ledger.open_intervals
      (usage 30 70 "owner" (some ledger.file) ledger.open_intervals)
unfolding program
usage_lem_example = usage_lem 30 70 "owner" "(none)" (some ledger.file) ledger.open_intervals refl

-- A report that reads the file before "a" ends and looks at the open intervals after that misses "a".
abbrev earlier : Ledger
earlier =
    begin (interval "a" "ann" 10 ∷ interval "b" "ann" 20 ∷ [])
      (record { file = []; open_intervals = [] })

missed :
    elim (usage 30 70 "owner" (some earlier.file) ledger.open_intervals) [
      | ok rows ↦ map (λ (r : Row). r.seconds) rows
      | err e ↦ []
    ]
    ≡ 40 ∷ []
unfolding program
missed = refl
