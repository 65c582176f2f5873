-- ===== src/Examples/Commands.antt =====
-- cmd/gmux on small inputs.
use gmux.Prelude.{
  ℕ, ◌≡◌, refl, Bool, List, [], ◌∷◌, ◌++◌, none, some, sort_stable, insert_sorted, lookup,
}
use gmux.Prelude.Int.{pos, ◌-ℤ◌}
use gmux.Share.{ratio, ceil_div, seats_raw, default_mem_mib}
use gmux.Commands.Hosts.{
  CardView, Candidate, plus, seats_within, need_of, left_on, best_card, best_from, best_host,
  others, names,
}
use gmux.Commands.Flags.{dashes, flags_from, flags, rest-flags}
use gmux.Fence.Bytes.{Bytes, eq_bytes, has_prefix}

program : Unit {0}
unfolding ceil_div seats_raw default_mem_mib seats_within need_of ◌-ℤ◌ left_on best_card best_from
    best_host others names sort_stable insert_sorted lookup flags_from flags eq_bytes has_prefix
program = tt

abbrev card : ℕ → CardView
card free = record { mem_mib = 8000; seats = 8; free_seats = pos free; free_mem_mib = pos 8000 }

-- One host has 3 seats free, the next does not answer, and the last has cards with 6 and 7.
abbrev hosts : List Candidate
hosts =
    record { name = "a"; cards = some (card 3 ∷ []) }
    ∷ record { name = "b"; cards = none }
    ∷ record { name = "c"; cards = some (card 6 ∷ card 7 ∷ []) }
    ∷ []

half : best_host (pos 0) hosts (plus (ratio 1 2)) (pos 0) ≡ some (2, 3)
unfolding program
half = refl

-- No card has the memory.
no_memory : best_host (pos 0) hosts (plus (ratio 1 2)) (pos 8001) ≡ none
unfolding program
no_memory = refl

ordered :
    names (λ a b. Bool.false) (record { default = "b"; remotes = ("a", "1") ∷ ("b", "2") ∷ [] })
    ≡ "b" ∷ "a" ∷ []
unfolding program
ordered = refl

-- "--n" with the value "2", then the command "l" "--" "--n".
abbrev flag : Bytes
flag = 45 ∷ 45 ∷ 110 ∷ []

abbrev before : List Bytes
before = flag ∷ (50 ∷ []) ∷ []

abbrev command : List Bytes
command = (108 ∷ []) ∷ dashes ∷ flag ∷ []

value : (flags (before ++ dashes ∷ command)).kv (110 ∷ []) ≡ some (50 ∷ [])
unfolding program
value = refl

rest-flags_example : (flags (before ++ dashes ∷ command)).rest ≡ command
unfolding eq_bytes
rest-flags_example = rest-flags before command (refl, (refl, tt))
