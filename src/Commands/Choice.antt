-- ===== src/Commands/Choice.antt =====
-- cmd/gmux/hosts.go: the host that bestHost chooses.
use gmux.Prelude.{
  append-nil, append_assoc, ℕ, suc, ◌<◌, ◌≤◌, ◌≡◌, refl, sym, ap, subst, ◌∙◌, inl, inr, List, [],
  ◌∷◌, ◌++◌, Option, none, some, ltb, arith, Bool-cases, All, All-append, All-imp,
}
use gmux.Prelude.Int.{ℤ}
use gmux.Commands.Hosts.{
  Signed, CardView, Candidate, left_on, Best, better, better_of, best_card, best_from, best_host,
  reported,
}

abbrev pub offer_of : ℕ → Option ℕ → List (ℕ × ℕ)
offer_of i none = []
offer_of i (some left) = (i, left) ∷ []

-- The hosts and the seats left of every card that can take the job, in the order of the hosts.
unfoldable pub card_offers : ℤ → Signed → ℤ → ℕ → List CardView → List (ℕ × ℕ)
card_offers odd frac mem i [] = []
card_offers odd frac mem i (card ∷ cards) =
    offer_of i (left_on odd frac mem card) ++ card_offers odd frac mem i cards

unfoldable pub offers : ℤ → Signed → ℤ → ℕ → List Candidate → List (ℕ × ℕ)
unfolding card_offers
offers odd frac mem i [] = []
offers odd frac mem i (c ∷ cands) =
    card_offers odd frac mem i (reported c.cards) ++ offers odd frac mem (suc i) cands

-- Of the offers the first of the largest, or none of none.
unfoldable pub IsChoice : List (ℕ × ℕ) → Best → Type 0
IsChoice seen none = seen ≡ []
IsChoice seen (some best) =
    (pre : List (ℕ × ℕ)) × (post : List (ℕ × ℕ)) × (seen ≡ pre ++ best ∷ post)
    × All (λ (o : ℕ × ℕ). o.1 < best.1) pre
    × All (λ (o : ℕ × ℕ). o.1 ≤ best.1) post

better-IsChoice :
    (seen : List (ℕ × ℕ)) (best : Best) (o : ℕ × ℕ)
    → IsChoice seen best
    → IsChoice (seen ++ o ∷ []) (better best o)
unfolding IsChoice
better-IsChoice seen none o h = ([], [], ap (λ t. t ++ o ∷ []) h, tt, tt)
better-IsChoice seen (some best) o (pre, post, same, less, most) =
    elim (Bool-cases (ltb best.1 o.1)) [
      | inl more ↦ rw more (
        seen,
        [],
        refl,
        subst (All (λ (x : ℕ × ℕ). x.1 < o.1)) (sym same) (
            All-append (λ (x : ℕ × ℕ). x.1 < o.1) pre (best ∷ post)
              (All-imp pre (λ x l. ground (arith, l, more)) less)
              (ground (arith, more), All-imp post (λ x l. ground (arith, l, more)) most)),
        tt,
      )
      | inr same_or_less ↦ rw same_or_less (
        pre,
        post ++ o ∷ [],
        ap (λ t. t ++ o ∷ []) same ∙ append_assoc pre (best ∷ post) (o ∷ []),
        less,
        All-append (λ (x : ℕ × ℕ). x.1 ≤ best.1) post (o ∷ []) most
            (ground (arith, same_or_less), tt),
      )
    ]

better_of-IsChoice :
    (seen : List (ℕ × ℕ)) (best : Best) (i : ℕ) (left : Option ℕ)
    → IsChoice seen best
    → IsChoice (seen ++ offer_of i left) (better_of best i left)
better_of-IsChoice seen best i none h = subst (λ t. IsChoice t best) (sym (append-nil seen)) h
better_of-IsChoice seen best i (some left) h = better-IsChoice seen best (i, left) h

best_card-IsChoice :
    (odd : ℤ) (frac : Signed) (mem : ℤ) (i : ℕ) (cards : List CardView) (seen : List (ℕ × ℕ))
    (best : Best)
    → IsChoice seen best
    → IsChoice (seen ++ card_offers odd frac mem i cards) (best_card odd frac mem i cards best)
unfolding best_card card_offers
best_card-IsChoice odd frac mem i [] seen best h =
    subst (λ t. IsChoice t best) (sym (append-nil seen)) h
best_card-IsChoice odd frac mem i (card ∷ cards) seen best h =
    let own = offer_of i (left_on odd frac mem card) in
    let next = better_of best i (left_on odd frac mem card) in
    subst (λ t. IsChoice t (best_card odd frac mem i cards next))
      (append_assoc seen own (card_offers odd frac mem i cards))
      (best_card-IsChoice odd frac mem i cards (seen ++ own) next
        (better_of-IsChoice seen best i (left_on odd frac mem card) h))

best_from-IsChoice :
    (odd : ℤ) (frac : Signed) (mem : ℤ) (i : ℕ) (cands : List Candidate) (seen : List (ℕ × ℕ))
    (best : Best)
    → IsChoice seen best
    → IsChoice (seen ++ offers odd frac mem i cands) (best_from odd frac mem i cands best)
unfolding best_from offers
best_from-IsChoice odd frac mem i [] seen best h =
    subst (λ t. IsChoice t best) (sym (append-nil seen)) h
best_from-IsChoice odd frac mem i (c ∷ cands) seen best h =
    let own = card_offers odd frac mem i (reported c.cards) in
    let next = best_card odd frac mem i (reported c.cards) best in
    subst (λ t. IsChoice t (best_from odd frac mem (suc i) cands next))
      (append_assoc seen own (offers odd frac mem (suc i) cands))
      (best_from-IsChoice odd frac mem (suc i) cands (seen ++ own) next
        (best_card-IsChoice odd frac mem i (reported c.cards) seen best h))

-- The first of the largest offers, in the words of the list.
pub best_host-IsChoice :
    (odd : ℤ) (cands : List Candidate) (frac : Signed) (mem : ℤ)
    → IsChoice (offers odd frac mem 0 cands) (best_host odd cands frac mem)
unfolding best_host IsChoice
best_host-IsChoice odd cands frac mem = best_from-IsChoice odd frac mem 0 cands [] none refl
