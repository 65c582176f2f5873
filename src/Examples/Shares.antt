-- ===== src/Examples/Shares.antt =====
-- internal/share/share.go on small inputs.
use gmux.Prelude.{ℕ, ◌*◌, ◌+◌, ◌≤◌, ◌≡◌, ◌↔◌, refl, ok, err}
use gmux.Share.{
  ratio, seats, tolerance, is_share, ceil_div, seats_raw, clamp_seats, compute_percent,
  default_mem_mib, bad_share,
}
use gmux.Share.Seats.{seats_lem}

-- A quarter of a card of 8 seats is 2 of them; 0.3 of it is 3; 0.375 + 1e-10 is 3 still.
quarter : seats (ratio 1 4) 8 ≡ ok 2
unfolding seats is_share ceil_div seats_raw clamp_seats
quarter = refl

three_tenths : seats (ratio 3 10) 8 ≡ ok 3
unfolding seats is_share ceil_div seats_raw clamp_seats
three_tenths = refl

tolerated : seats (ratio 3_750_000_001 10_000_000_000) 8 ≡ ok 3
unfolding seats is_share ceil_div seats_raw clamp_seats
tolerated = refl

refused : seats (ratio 5 4) 8 ≡ err (bad_share (ratio 5 4))
unfolding seats is_share
refused = refl

percent : compute_percent 3 8 ≡ 38
unfolding compute_percent
percent = refl

memory : default_mem_mib 2 8 81_559 ≡ 20_389
unfolding default_mem_mib
memory = refl

seats_lem_example :
    (1 ≤ 3)
    × (3 ≤ 8)
    × ((t : ℕ) → 1 ≤ t → t ≤ 8 → (3 ≤ t) ↔ (3 * 8 * tolerance ≤ 10 * tolerance * t + 10))
seats_lem_example = seats_lem (ratio 3 10) 8 3 three_tenths
