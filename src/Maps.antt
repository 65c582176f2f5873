-- ===== src/Maps.antt =====
-- Go's maps keyed by strings as lists of bytes, each key once.
use gmux.Prelude.{
  ◌≡◌, refl, sym, ◌∙◌, ◌≢◌, true, false, List, [], ◌∷◌, Option, none, some, if◌then◌else◌,
  Bool-cases, inl, inr, arith,
}
use gmux.Fence.Bytes.{Bytes, eq_bytes, eq_bytes_refl, eq_bytes→eq}

pub eq_bytes-ne : (a b : Bytes) → a ≢ b → eq_bytes a b ≡ false
eq_bytes-ne a b h = elim (Bool-cases (eq_bytes a b)) [
  | inl e ↦ absurd (h (eq_bytes→eq a b e))
  | inr e ↦ e
]

pub ne_of_eq_bytes : (a b : Bytes) → eq_bytes a b ≡ false → a ≢ b
ne_of_eq_bytes a b h e =
    let clash : eq_bytes b b ≡ false = rw e at h in
    let no' : true ≡ false = sym (eq_bytes_refl b) ∙ clash in cc (no')

pub eq_bytes-sym : (a b : Bytes) → eq_bytes a b ≡ eq_bytes b a
eq_bytes-sym a b = elim (Bool-cases (eq_bytes a b)) [
  | inl e ↦ rw (eq_bytes→eq a b e) refl
  | inr e ↦
      e
      ∙ sym (
          eq_bytes-ne b a
            (λ same. let yes' : eq_bytes a b ≡ true = rw same (eq_bytes_refl a) in cc (yes', e)))
]

module _ {V : Type 0} where
  -- `m[k]`.
  unfoldable pub find : Bytes → List (Bytes × V) → Option V
  find k [] = none
  find k ((j, v) ∷ m) = if eq_bytes j k then some v else find k m

  -- `m[k] = v`.
  unfoldable pub store : Bytes → V → List (Bytes × V) → List (Bytes × V)
  store k v [] = (k, v) ∷ []
  store k v ((j, w) ∷ m) = if eq_bytes j k then (k, v) ∷ m else (j, w) ∷ store k v m

  pub find-store :
      (k j : Bytes) (v : V) (m : List (Bytes × V))
      → find j (store k v m) ≡ (if eq_bytes k j then some v else find j m)
  unfolding find store
  find-store k j v [] = refl
  find-store k j v ((i, w) ∷ m) = elim (Bool-cases (eq_bytes i k)) [
    | inl same ↦ rw (same, eq_bytes→eq i k same) (ground arith)
    | inr apart ↦ elim (Bool-cases (eq_bytes k j)) [
      | inl here ↦
          let far : eq_bytes i j ≡ false = rw (eq_bytes→eq k j here) at apart in
          rw (apart, far, find-store k j v m) refl
      | inr there ↦ rw (apart, find-store k j v m, there) refl
    ]
  ]
