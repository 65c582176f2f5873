-- ===== src/Commands/Chosen.antt =====
-- cmd/gmux/hosts.go: the host that bestHost chooses, in the words of the hosts and their cards.
use gmux.Prelude.{ℕ, zero, suc, ◌≤◌, ◌<◌, List, [], ◌∷◌, none, some, All, In}
use gmux.Prelude.Int.{ℤ}
use gmux.Commands.Hosts.{Signed, CardView, Candidate, Best, reported}
use gmux.Commands.Taking.{Takes}

-- The i-th candidate is reachable and reports the card.
abbrev pub Reports : List Candidate → ℕ → CardView → Type 0
Reports [] i card = ⊥
Reports (c ∷ cands) zero card = In card (reported c.cards)
Reports (c ∷ cands) (suc i) card = Reports cands i card

-- The offers of hosts that never go back.
abbrev Rising : List (ℕ × ℕ) → Type 0
Rising [] = Unit {0}
Rising (o ∷ os) = All (λ (p : ℕ × ℕ). o.0 ≤ p.0) os × Rising os

module _ (odd : ℤ) (frac : Signed) (mem : ℤ) where
  -- The best host: one of its cards can take the job, and no other card that can has more seats left,
  -- nor as many on an earlier host. There is none if no card can take the job.
  abbrev pub IsBest : List Candidate → Best → Type 0
  IsBest cands none =
      (i : ℕ) (card : CardView) (left : ℕ) → Reports cands i card → Takes odd frac mem card left → ⊥
  IsBest cands (some (best, most)) =
      ((card : CardView) × Reports cands best card × Takes odd frac mem card most)
      × ((i : ℕ) (card : CardView) (left : ℕ)
          → Reports cands i card
          → Takes odd frac mem card left
          → (left ≤ most) × (i < best → left < most))
