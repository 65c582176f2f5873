-- ===== src/Scheduler/State.antt =====
-- scheduler.go: cards, requests, placements, and what is in use on a card. An `int` that may be
-- negative is in ℤ; a card's seats are in ℕ, where 0 stands for every number below 1.
use gmux.Prelude.{
  ℕ, ◌+◌, ◌==◌, Bool, String, List, [], ◌∷◌, Option, none, some, if◌then◌else◌, ltb, Result, ok,
  err, contains, ltb,
}
use gmux.Prelude.Int.{ℤ, pos, pos_part, neg_part, ltb_ℤ, ◌+ℤ◌}
use gmux.Share.{Ratio, ShareError, seats, default_mem_mib, default_seats}

pub record Card : Type 0 where
  pub index : ℕ
  pub name : String
  pub mem_mib : ℕ
  pub seats : ℕ
  pub down : Bool

pub record Request : Type 0 where
  pub id : String
  pub share : Ratio
  pub mem_mib : ℤ
  pub gpus : ℤ
  pub priority : ℤ
  pub preemptible : Bool
  pub burst : Bool
  pub wait : Bool

pub record Slot : Type 0 where
  pub card : ℕ
  pub seats : ℕ
  pub granted_share : Ratio
  pub mem_mib : ℤ
  pub compute_percent : ℕ
  pub seat_ids : List ℕ

pub record Placement : Type 0 where
  pub job_id : String
  pub slots : List Slot

pub record Placed : Type 0 where
  pub req : Request
  pub slots : List Slot
  pub order : ℕ

pub record Decision : Type 0 where
  pub placement : Option Placement
  pub preempt : List String
  pub queued : Bool

abbrev pub Running : Type 0
Running = List (String × Placed)

pub record Scheduler : Type 0 where
  pub cards : List Card
  pub running : Running
  pub queue : List Request
  pub next : ℕ

-- `no_fit` is ErrNoFit; `nil_card` is the panic of reading a card that is not there.
pub data Error : Type 0 where
  no_fit no_id negative_gpus nil_card : Error
  share_error : ShareError → Error
  bad_share : Ratio → Error
  too_much_memory : (asked : ℤ) (card has : ℕ) → Error
  already_running not_running : String → Error
  too_few_cards : (want have : ℕ) → Error
  no_card : ℕ → Error
  no_room : (card : ℕ) (free_seats free_mem : ℤ) → Error

-- `errors.Is(err, ErrNoFit)`.
abbrev pub is_no_fit : Error → Bool
is_no_fit no_fit = Bool.true
is_no_fit _ = Bool.false

unfoldable pub with_seats : Card → Card
with_seats c = if ltb c.seats 1 then record c { seats = default_seats } else c

unfoldable pub cards_with_seats : List Card → List Card
unfolding with_seats
cards_with_seats [] = []
cards_with_seats (c ∷ cs) = with_seats c ∷ cards_with_seats cs

unfoldable pub new : List Card → Scheduler
unfolding cards_with_seats
new cards = record { cards = cards_with_seats cards; running = []; queue = []; next = 0 }

-- `card`, the one of an index.
unfoldable pub find_card : ℕ → List Card → Option Card
find_card k [] = none
find_card k (c ∷ cs) = if c.index == k then some c else find_card k cs

-- The body of the inner loop of `usage`.
unfoldable pub seats_on : ℕ → List Slot → ℕ
seats_on k [] = 0
seats_on k (sl ∷ sls) = if sl.card == k then sl.seats + seats_on k sls else seats_on k sls

unfoldable pub mem_on : ℕ → List Slot → ℤ
mem_on k [] = pos 0
mem_on k (sl ∷ sls) = if sl.card == k then sl.mem_mib +ℤ mem_on k sls else mem_on k sls

-- `usage`: the seats and the memory in use on a card, without the jobs in `ignore`.
unfoldable pub seats_used : ℕ → List String → Running → ℕ
unfolding seats_on
seats_used k ignore [] = 0
seats_used k ignore ((id, p) ∷ m) =
    if contains id ignore then seats_used k ignore m else seats_on k p.slots + seats_used k ignore m

unfoldable pub mem_used : ℕ → List String → Running → ℤ
unfolding mem_on
mem_used k ignore [] = pos 0
mem_used k ignore ((id, p) ∷ m) =
    if contains id ignore then mem_used k ignore m else mem_on k p.slots +ℤ mem_used k ignore m

abbrev pub is_zero : ℤ → Bool
is_zero z = pos_part z + neg_part z == 0

-- `need`, once the seats are known.
unfoldable pub need_mem : Request → Card → ℕ → Result Error (ℕ × ℤ)
need_mem r c seats =
    let mem =
      if is_zero r.mem_mib then pos (default_mem_mib seats c.seats c.mem_mib) else r.mem_mib in
    if ltb_ℤ (pos c.mem_mib) mem
    then err (too_much_memory mem c.index c.mem_mib)
    else ok (seats, mem)

-- `need`: the seats and the memory that a request takes on one card.
unfoldable pub need : Request → Card → Result Error (ℕ × ℤ)
unfolding need_mem
need r c = elim (seats r.share c.seats) [
  | err e ↦ err (share_error e)
  | ok seats ↦ need_mem r c seats
]
