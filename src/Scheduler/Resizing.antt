-- ===== src/Scheduler/Resizing.antt =====
-- scheduler.go: `Resize` gives a job slots on the same cards, with room for them.
use native.Mathlib.Decide.{ℕ_discrete}
use gmux.Prelude.{
  ℕ, ◌≡◌, ◌∙◌, ◌≢◌, inl, inr, false, String, List, [], ◌∷◌, some, ok, arith, All, In, Distinct,
  Result-cases, Option-cases,
}
use gmux.Prelude.Int.{pos, ◌≤ℤ◌}
use gmux.Scheduler.State.{Card, Request, Slot, Scheduler, need, find_card}
use gmux.Scheduler.Fit.{over, slot}
use gmux.Scheduler.Operations.{resize_slot, resize_slots}
use gmux.Scheduler.Candidates.{over-false, need_nonneg}
use gmux.Scheduler.Capacity.{HasRoom}

pub find_card-some :
    (k : ℕ) (cards : List Card) {c : Card} → find_card k cards ≡ some c → In c cards × (c.index ≡ k)
unfolding find_card
find_card-some k [] h = cc
find_card-some k (x ∷ xs) {c} h = elim (ℕ_discrete x.index k) [
  | yes e ↦ ground (arith, e, h)
  | no ne ↦ let (i, e) = find_card-some k xs {c = c} (ground (arith, ne, h)) in (inr i, e)
]

-- A slot that `resize_slot` gives.
pub record IsResized (id : String) (r : Request) (s : Scheduler) (old new : Slot) : Type 0 where
  pub same : new.card ≡ old.card
  pub room : HasRoom (id ∷ []) s.running s.cards new
  pub needed : need r room.on ≡ ok (new.seats, new.mem_mib)

pub resize_slot-ok :
    (id : String) (r : Request) (s : Scheduler) (old new : Slot)
    → resize_slot id r s old ≡ ok new
    → (c : Card) × (find_card old.card s.cards ≡ some c)
      × (need r c ≡ ok (new.seats, new.mem_mib))
      × (over c new.seats new.mem_mib (id ∷ []) s.running ≡ false)
      × (new.card ≡ c.index)
      × (new ≡ slot r c new.seats new.mem_mib (id ∷ []) old.seat_ids s.running)
unfolding resize_slot slot
resize_slot-ok id r s old new h = elim (Option-cases (find_card old.card s.cards)) [
  | inl e ↦ absurd (ground (arith, e, h))
  | inr (c, e) ↦
      (c, e, ground (arith, e, h), ground (arith, e, h), ground (arith, e, h), ground (arith, e, h))
]

pub resize_slot-IsResized :
    (id : String) (r : Request) (s : Scheduler) (old new : Slot)
    → resize_slot id r s old ≡ ok new
    → IsResized id r s old new
resize_slot-IsResized id r s old new h =
    let (c, found, needed, room, same, _) = resize_slot-ok id r s old new h in
    let (listed, indexed) = find_card-some old.card s.cards found in
    let (seats_room, mem_room) = over-false c new.seats new.mem_mib (id ∷ []) s.running room in
    record {
      same = same ∙ indexed;
      room = record {
        on = c;
        listed = listed;
        same = same;
        seats_room = seats_room;
        mem_room = mem_room;
      };
      needed = needed;
    }

-- What all the slots of a resize have in common.
pub record AreResized (id : String) (r : Request) (s : Scheduler) (olds news : List Slot)
    : Type 0 where
  pub rooms : All (HasRoom (id ∷ []) s.running s.cards) news
  pub taken : All (λ sl. pos 0 ≤ℤ sl.mem_mib) news
  pub elsewhere : (k : ℕ) → All (λ sl. k ≢ sl.card) olds → All (λ sl. k ≢ sl.card) news
  pub apart : Distinct (λ sl. sl.card) olds → Distinct (λ sl. sl.card) news

pub resize_slots-ok :
    (id : String) (r : Request) (s : Scheduler) (old : Slot) (olds : List Slot) {news : List Slot}
    → resize_slots id r s (old ∷ olds) ≡ ok news
    → (new : Slot) × (rest : List Slot) × (resize_slot id r s old ≡ ok new)
      × (resize_slots id r s olds ≡ ok rest)
      × (news ≡ new ∷ rest)
unfolding resize_slots
resize_slots-ok id r s old olds {news} h = elim (Result-cases (resize_slot id r s old)) [
  | inr (x, e) ↦ absurd (ground (arith, e, h))
  | inl (new, e) ↦ elim (Result-cases (resize_slots id r s olds)) [
    | inr (x, e') ↦ absurd (ground (arith, e, e', h))
    | inl (rest, e') ↦ (new, rest, e, e', ground (arith, e, e', h))
  ]
]

pub resize_slots-AreResized :
    (id : String) (r : Request) (s : Scheduler) (olds : List Slot) {news : List Slot}
    → pos 0 ≤ℤ r.mem_mib
    → resize_slots id r s olds ≡ ok news
    → AreResized id r s olds news
unfolding resize_slots
resize_slots-AreResized id r s [] {news} p h =
    let empty : news ≡ [] = cc in
    rw empty (record { rooms = tt; taken = tt; elsewhere = λ k x. tt; apart = λ x. tt })
resize_slots-AreResized id r s (old ∷ olds) p h =
    let (new, rest, e, e', split) = resize_slots-ok id r s old olds h in
    let ih = resize_slots-AreResized id r s olds p e' in
    let one = resize_slot-IsResized id r s old new e in
    rw split (record {
      rooms = (one.room, ih.rooms);
      taken = (need_nonneg r one.room.on p one.needed, ih.taken);
      elsewhere = λ k x. (rw one.same x.0, ih.elsewhere k x.1);
      apart = λ x. (rw one.same (ih.elsewhere old.card x.0), ih.apart x.1);
    })
