-- ===== src/Commands/Hosts.antt =====
-- cmd/gmux/hosts.go: the configured hosts, and the one that takes a job.
use gmux.Prelude.{
  ℕ, suc, ◌+◌, ◌*◌, ◌/◌, ◌==◌, Bool, not, ◌&&◌, String, List, [], ◌∷◌, Option, none, some,
  if◌then◌else◌, ltb, str_eq, lookup, delete, insert, sort_stable,
}
use gmux.Prelude.Int.{ℤ, pos, pos_part, ltb_ℤ, sub_ℕ, ◌-ℤ◌}
use gmux.Share.{Ratio, seats_raw, default_mem_mib, tolerance}
use gmux.Scheduler.State.{is_zero}

-- A card as its host reports it.
pub record CardView : Type 0 where
  pub mem_mib : ℕ
  pub seats : ℕ
  pub free_seats : ℤ
  pub free_mem_mib : ℤ

-- A host's cards, or `none` for an error.
pub record Candidate : Type 0 where
  pub name : String
  pub cards : Option (List CardView)

-- A float64 with its sign; a fraction over 0 is NaN or infinite.
pub data Signed : Type 0 where
  plus minus : Ratio → Signed

-- The whole seats within a share, with the tolerance: what `math.Ceil` gives below 0.
unfoldable pub seats_within : Ratio → ℕ → ℕ
seats_within f n = (f.num * n * tolerance + f.den) / (f.den * tolerance)

-- `need`, where `odd` is the int that Go makes of a float64 that is none, which it leaves open.
unfoldable pub need_of : ℤ → Signed → ℕ → ℤ
unfolding seats_within
need_of odd (plus f) n = if f.den == 0 then odd else pos (seats_raw f n)
need_of odd (minus f) n = if f.den == 0 then odd else sub_ℕ 0 (seats_within f n)

-- `mem`; for fewer than no seats DefaultMemMiB gives what it gives for none.
abbrev pub mem_needed : ℤ → ℤ → CardView → ℤ
mem_needed need mem_mib card =
    if is_zero mem_mib
    then pos (default_mem_mib (pos_part need) card.seats card.mem_mib)
    else mem_mib

-- The seats that a card would have left, if it can take the job.
unfoldable pub left_on : ℤ → Signed → ℤ → CardView → Option ℕ
unfolding need_of
left_on odd frac mem_mib card =
    let need = need_of odd frac card.seats in
    if not (ltb_ℤ card.free_seats need)
      && not (ltb_ℤ card.free_mem_mib (mem_needed need mem_mib card))
    then some (pos_part (card.free_seats -ℤ need))
    else none

-- `best, bestFree`, or `none` for -1 and -1.
abbrev pub Best : Type 0
Best = Option (ℕ × ℕ)

abbrev pub better : Best → ℕ × ℕ → Best
better none offer = some offer
better (some (i, free)) (j, left) = if ltb free left then some (j, left) else some (i, free)

abbrev pub better_of : Best → ℕ → Option ℕ → Best
better_of best i none = best
better_of best i (some left) = better best (i, left)

unfoldable pub best_card : ℤ → Signed → ℤ → ℕ → List CardView → Best → Best
best_card odd frac mem_mib i [] best = best
best_card odd frac mem_mib i (card ∷ cards) best =
    best_card odd frac mem_mib i cards (better_of best i (left_on odd frac mem_mib card))

abbrev pub reported : Option (List CardView) → List CardView
reported none = []
reported (some cards) = cards

unfoldable pub best_from : ℤ → Signed → ℤ → ℕ → List Candidate → Best → Best
unfolding best_card
best_from odd frac mem_mib i [] best = best
best_from odd frac mem_mib i (c ∷ cands) best =
    best_from odd frac mem_mib (suc i) cands (best_card odd frac mem_mib i (reported c.cards) best)

-- `bestHost`, with the seats that it would have left.
unfoldable pub best_host : ℤ → List Candidate → Signed → ℤ → Best
unfolding best_from
best_host odd cands frac mem_mib = best_from odd frac mem_mib 0 cands none

pub record HostConfig : Type 0 where
  pub default : String
  pub remotes : List (String × String)

unfoldable pub others : String → List (String × String) → List String
others default [] = []
others default ((n, t) ∷ remotes) =
    if not (str_eq n default) then n ∷ others default remotes else others default remotes

-- `names`, the default first; `before` is the order of strings.
unfoldable pub names : (before : String → String → Bool) → HostConfig → List String
unfolding others
names before h =
    let out = sort_stable before (others h.default h.remotes) in
    elim (lookup h.default h.remotes) [ none ↦ out | some t ↦ h.default ∷ out ]

-- `target`.
unfoldable pub target : String → HostConfig → String
target name h = elim (lookup name h.remotes) [ none ↦ name | some t ↦ t ]

-- The parts of `cmdRemote` that change the configuration: add, once the host has answered, rm, and
-- default, with `none` for an error.
unfoldable pub add_remote : String → String → Bool → HostConfig → HostConfig
add_remote name to as_default h = record {
  default = if str_eq h.default "" then name else if as_default then name else h.default;
  remotes = insert name to h.remotes;
}

unfoldable pub remove_remote : String → HostConfig → HostConfig
remove_remote name h = record {
  default = if str_eq h.default name then "" else h.default;
  remotes = delete name h.remotes;
}

unfoldable pub set_default : String → HostConfig → Option HostConfig
set_default name h = elim (lookup name h.remotes) [
  | none ↦ none
  | some t ↦ some (record h { default = name })
]
