-- ===== src/Commands/Taking.antt =====
-- cmd/gmux/hosts.go: what it takes that a card can take a job.
use gmux.Prelude.{
  ℕ, zero, suc, subst, ◌+◌, ◌*◌, ◌/◌, ◌==◌, ◌≤◌, ◌<◌, ◌≡◌, ◌≢◌, ◌↔◌, ◌⊎◌, refl, sym, ◌∙◌, ap, true,
  false, not, ◌&&◌, Option, none, some, Bool-cases, arith, inl, inr, if◌then◌else◌,
}
use native.Mathlib.Nat.{div-add-mod, mod-lt, lt_of_mul-lt-mul_left}
use gmux.Prelude.Int.{ℤ, pos, negsuc, pos_part, sub_ℕ, ltb_ℤ, ◌-ℤ◌, ◌≤ℤ◌}
use gmux.Share.{Ratio, tolerance, default_mem_mib, seats_raw}
use gmux.Share.Seats.{seats_raw-le}
use gmux.Scheduler.State.{is_zero}
use gmux.Commands.Hosts.{Signed, plus, minus, CardView, seats_within, need_of, mem_needed, left_on}

-- The seats that a share of n seats needs: the fewest that reach the share, up to a billionth of a
-- seat; below 0, what the most that stay within it are below 0; and what Go makes of no number.
pub IsNeed : ℤ → Signed → ℕ → ℤ → Type 0
IsNeed odd (plus f) n need =
    ((f.den ≡ 0) × (need ≡ odd))
    ⊎ ((0 < f.den)
        × (s : ℕ) × (need ≡ pos s)
        × ((t : ℕ) → (s ≤ t) ↔ (f.num * n * tolerance ≤ f.den * tolerance * t + f.den)))
IsNeed odd (minus f) n need =
    ((f.den ≡ 0) × (need ≡ odd))
    ⊎ ((0 < f.den)
        × (s : ℕ) × (need ≡ sub_ℕ 0 s)
        × ((t : ℕ) → (t ≤ s) ↔ (f.den * tolerance * t ≤ f.num * n * tolerance + f.den)))

-- A card with enough free seats and memory, and the seats that it would have left.
pub record Takes (odd : ℤ) (frac : Signed) (mem : ℤ) (card : CardView) (left : ℕ) : Type 0 where
  pub seats_needed : ℤ
  pub needed : IsNeed odd frac card.seats seats_needed
  pub seats : seats_needed ≤ℤ card.free_seats
  pub asked : mem ≢ pos 0 → mem ≤ℤ card.free_mem_mib
  pub default :
      mem ≡ pos 0
      → pos (default_mem_mib (pos_part seats_needed) card.seats card.mem_mib) ≤ℤ card.free_mem_mib
  pub rest : pos left ≡ card.free_seats -ℤ seats_needed

div-le : (a b t : ℕ) → 0 < b → (t ≤ a / b) ↔ (b * t ≤ a)
div-le a b t h = (
  (λ le. grind (arith, div-add-mod a b)),
  (λ le.
      let below : t < suc (a / b) =
        lt_of_mul-lt-mul_left b (omega (arith, le, div-add-mod a b, mod-lt a {m = b} h)) in
      omega arith),
)

seats_within-le :
    (f : Ratio) (n t : ℕ)
    → 0 < f.den
    → (t ≤ seats_within f n) ↔ (f.den * tolerance * t ≤ f.num * n * tolerance + f.den)
unfolding seats_within
seats_within-le f n t h =
    div-le (f.num * n * tolerance + f.den) (f.den * tolerance) t (omega (arith, h))

need_of-IsNeed : (odd : ℤ) (frac : Signed) (n : ℕ) → IsNeed odd frac n (need_of odd frac n)
unfolding need_of IsNeed
need_of-IsNeed odd (plus f) n = elim (Bool-cases (f.den == 0)) [
  | inl nought ↦ rw nought (inl (ground (arith, nought), refl))
  | inr some' ↦
      let positive : 0 < f.den = ground (arith, some') in
      rw some' (inr (positive, seats_raw f n, refl, λ t. seats_raw-le f n t positive))
]
need_of-IsNeed odd (minus f) n = elim (Bool-cases (f.den == 0)) [
  | inl nought ↦ rw nought (inl (ground (arith, nought), refl))
  | inr some' ↦
      let positive : 0 < f.den = ground (arith, some') in
      rw some' (inr (positive, seats_within f n, refl, λ t. seats_within-le f n t positive))
]

least_unique :
    (P : ℕ → Type 0) (s t : ℕ) → ((u : ℕ) → (s ≤ u) ↔ P u) → ((u : ℕ) → (t ≤ u) ↔ P u) → s ≡ t
least_unique P s t h k =
    let a : t ≤ s = (k s).1 ((h s).0 (omega arith)) in
    let b : s ≤ t = (h t).1 ((k t).0 (omega arith)) in omega arith

most_unique :
    (P : ℕ → Type 0) (s t : ℕ) → ((u : ℕ) → (u ≤ s) ↔ P u) → ((u : ℕ) → (u ≤ t) ↔ P u) → s ≡ t
most_unique P s t h k =
    let a : s ≤ t = (k s).1 ((h s).0 (omega arith)) in
    let b : t ≤ s = (h t).1 ((k t).0 (omega arith)) in omega arith

IsNeed-unique :
    (odd : ℤ) (frac : Signed) (n : ℕ) (a b : ℤ) → IsNeed odd frac n a → IsNeed odd frac n b → a ≡ b
unfolding IsNeed
IsNeed-unique odd (plus f) n a b (inl (z, x)) (inl (w, y)) = x ∙ sym y
IsNeed-unique odd (plus f) n a b (inl (z, x)) (inr (p, s, y, h)) = absurd (omega arith)
IsNeed-unique odd (plus f) n a b (inr (p, s, y, h)) (inl (z, x)) = absurd (omega arith)
IsNeed-unique odd (plus f) n a b (inr (p, s, e, h)) (inr (q, t, g, k)) =
    e
    ∙ ap pos (least_unique (λ u. f.num * n * tolerance ≤ f.den * tolerance * u + f.den) s t h k)
    ∙ sym g
IsNeed-unique odd (minus f) n a b (inl (z, x)) (inl (w, y)) = x ∙ sym y
IsNeed-unique odd (minus f) n a b (inl (z, x)) (inr (p, s, y, h)) = absurd (omega arith)
IsNeed-unique odd (minus f) n a b (inr (p, s, y, h)) (inl (z, x)) = absurd (omega arith)
IsNeed-unique odd (minus f) n a b (inr (p, s, e, h)) (inr (q, t, g, k)) =
    e
    ∙ ap (sub_ℕ 0)
        (most_unique (λ u. f.den * tolerance * u ≤ f.num * n * tolerance + f.den) s t h k)
    ∙ sym g

is_zero-cases : (z : ℤ) → ((z ≡ pos 0) × (is_zero z ≡ true)) ⊎ ((z ≢ pos 0) × (is_zero z ≡ false))
is_zero-cases (pos zero) = inl (refl, refl)
is_zero-cases (pos (suc n)) = inr ((λ e. cc (e)), ground arith)
is_zero-cases (negsuc n) = inr ((λ e. cc (e)), ground arith)

-- The test of a card, for what it needs.
fits : (need m free free_mem : ℤ) → Option ℕ
fits need m free free_mem =
    if not (ltb_ℤ free need) && not (ltb_ℤ free_mem m) then some (pos_part (free -ℤ need)) else none

pos_part-nonneg : (z : ℤ) → pos 0 ≤ℤ z → pos (pos_part z) ≡ z
pos_part-nonneg (pos n) h = refl
pos_part-nonneg (negsuc n) h = absurd (omega (arith, h))

minus-nonneg : (a b : ℤ) → b ≤ℤ a → pos 0 ≤ℤ (a -ℤ b)
unfolding ◌-ℤ◌
minus-nonneg a b h = ground (arith, h)

fits-some :
    (need m free free_mem : ℤ) (left : ℕ)
    → fits need m free free_mem ≡ some left
    → (need ≤ℤ free) × (m ≤ℤ free_mem) × (pos left ≡ free -ℤ need)
unfolding fits
fits-some need m free free_mem left e =
    elim (Bool-cases (not (ltb_ℤ free need) && not (ltb_ℤ free_mem m))) [
      | inr bad ↦ absurd (let gone : none ≡ some left = rw bad at e in cc)
      | inl good ↦
          let room : need ≤ℤ free = ground (arith, good) in
          let here : some (pos_part (free -ℤ need)) ≡ some left = rw good at e in
          let same : pos_part (free -ℤ need) ≡ left = cc (here) in
          (
            room,
            ground (arith, good),
            ap pos (sym same) ∙ pos_part-nonneg (free -ℤ need) (minus-nonneg free need room),
          )
    ]

some-fits :
    (need m free free_mem : ℤ) (left : ℕ)
    → need ≤ℤ free
    → m ≤ℤ free_mem
    → pos left ≡ free -ℤ need
    → fits need m free free_mem ≡ some left
unfolding fits
some-fits need m free free_mem left a b e =
    let good : (not (ltb_ℤ free need) && not (ltb_ℤ free_mem m)) ≡ true = ground (arith, a, b) in
    rw (good, ← e) refl

left_on-fits :
    (odd : ℤ) (frac : Signed) (mem : ℤ) (card : CardView)
    → left_on odd frac mem card
      ≡ fits
          (need_of odd frac card.seats)
          (mem_needed (need_of odd frac card.seats) mem card)
          card.free_seats
          card.free_mem_mib
unfolding left_on fits
left_on-fits odd frac mem card = refl

mem_needed-default :
    (need mem : ℤ) (card : CardView)
    → mem ≡ pos 0
    → mem_needed need mem card ≡ pos (default_mem_mib (pos_part need) card.seats card.mem_mib)
mem_needed-default need mem card e = rw e refl

mem_needed-asked : (need mem : ℤ) (card : CardView) → mem ≢ pos 0 → mem_needed need mem card ≡ mem
mem_needed-asked need mem card e = elim (is_zero-cases mem) [
  | inl (z, t) ↦ absurd (e z)
  | inr (n, f) ↦ rw f refl
]

pub left_on-Takes :
    (odd : ℤ) (frac : Signed) (mem : ℤ) (card : CardView) (left : ℕ)
    → left_on odd frac mem card ≡ some left
    → Takes odd frac mem card left
left_on-Takes odd frac mem card left e =
    let need = need_of odd frac card.seats in
    let (room, held, rest) =
      fits-some need (mem_needed need mem card) card.free_seats card.free_mem_mib left
        (sym (left_on-fits odd frac mem card) ∙ e) in
    record {
      seats_needed = need;
      needed = need_of-IsNeed odd frac card.seats;
      seats = room;
      asked = λ n. subst (λ m. m ≤ℤ card.free_mem_mib) (mem_needed-asked need mem card n) held;
      default = λ z. subst (λ m. m ≤ℤ card.free_mem_mib) (mem_needed-default need mem card z) held;
      rest = rest;
    }

mem_needed-held :
    (need mem : ℤ) (card : CardView)
    → (mem ≢ pos 0 → mem ≤ℤ card.free_mem_mib)
    → (mem ≡ pos 0
        → pos (default_mem_mib (pos_part need) card.seats card.mem_mib) ≤ℤ card.free_mem_mib)
    → mem_needed need mem card ≤ℤ card.free_mem_mib
mem_needed-held need mem card asked default = elim (is_zero-cases mem) [
  | inl (z, t) ↦
      subst (λ m. m ≤ℤ card.free_mem_mib) (sym (mem_needed-default need mem card z)) (default z)
  | inr (n, f) ↦
      subst (λ m. m ≤ℤ card.free_mem_mib) (sym (mem_needed-asked need mem card n)) (asked n)
]

pub Takes-left_on :
    (odd : ℤ) (frac : Signed) (mem : ℤ) (card : CardView) (left : ℕ)
    → Takes odd frac mem card left
    → left_on odd frac mem card ≡ some left
Takes-left_on odd frac mem card left t =
    let same : t.seats_needed ≡ need_of odd frac card.seats =
      IsNeed-unique odd frac card.seats t.seats_needed _ t.needed
        (need_of-IsNeed odd frac card.seats) in
    left_on-fits odd frac mem card
    ∙ subst
        (λ need. fits need (mem_needed need mem card) card.free_seats card.free_mem_mib ≡ some left)
        same
        (some-fits t.seats_needed (mem_needed t.seats_needed mem card) card.free_seats
          card.free_mem_mib left t.seats (mem_needed-held t.seats_needed mem card t.asked t.default)
          t.rest)
