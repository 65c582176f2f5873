-- ===== src/Runtime/Environment.antt =====
-- internal/runtime/runtime.go: what a process reads in the environment that `env` makes.
use gmux.Prelude.{
  subst, ℕ, ◌==◌, ◌≡◌, ◌≢◌, refl, ◌∙◌, ap, true, List, [], ◌∷◌, Option, none, some, if◌then◌else◌,
  Bool-cases, inl, inr, arith, All, Distinct,
}
use gmux.Fence.Bytes.{Bytes, eq_bytes, eq_bytes_refl, eq_bytes→eq}
use gmux.Maps.{find, store, find-store}
use gmux.Runtime.Launch.{extend, Vars, cut, inherit, inherit_all, set_all, joined}

-- The first entry of that name.
unfoldable pub getenv : Bytes → List Bytes → Option Bytes
unfolding cut
getenv k [] = none
getenv k (e ∷ es) = elim (cut e) [
  | none ↦ getenv k es
  | some (j, v) ↦ if eq_bytes j k then some v else getenv k es
]

abbrev pub or_else : Option Bytes → Option Bytes → Option Bytes
or_else none o = o
or_else (some v) o = some v

-- The last value that a list gives a name.
unfoldable pub last_of : Bytes → Vars → Option Bytes
last_of k [] = none
last_of k ((j, v) ∷ vars) = or_else (last_of k vars) (if eq_bytes j k then some v else none)

-- The variables of an environment that have a name.
abbrev pub named : Option (Bytes × Bytes) → Vars → Vars
named none vars = vars
named (some ([], v)) vars = vars
named (some (c ∷ k, v)) vars = (c ∷ k, v) ∷ vars

unfoldable pub variables : List Bytes → Vars
unfolding cut
variables [] = []
variables (kv ∷ base) = named (cut kv) (variables base)

extend-none : (c : ℕ) (o : Option (Bytes × Bytes)) → extend c o ≡ none → o ≡ none
extend-none c none h = refl
extend-none c (some (k, v)) h = cc (h)

extend-some :
    (c : ℕ) (o : Option (Bytes × Bytes)) (k v : Bytes)
    → extend c o ≡ some (k, v)
    → (j : Bytes) × (k ≡ c ∷ j) × (o ≡ some (j, v))
extend-some c none k v h = cc (h)
extend-some c (some (j, w)) k v h = (j, cc (h), cc (h))

pub cut-joined : (k v : Bytes) → cut k ≡ none → cut (joined (k, v)) ≡ some (k, v)
unfolding cut
cut-joined [] v h = refl
cut-joined (c ∷ k) v h = elim (Bool-cases (c == 61)) [
  | inl eq ↦ absurd (let no' : some ([], k) ≡ none = rw (eq, cut) at h in cc)
  | inr ne ↦
      let rest : cut k ≡ none = extend-none c (cut k) (rw (ne, cut) at h) in
      rw (ne, cut) (ap (extend c) (cut-joined k v rest))
]

cut-key : (s k v : Bytes) → cut s ≡ some (k, v) → cut k ≡ none
unfolding cut
cut-key [] k v h = absurd (cc (h))
cut-key (c ∷ s) k v h = elim (Bool-cases (c == 61)) [
  | inl eq ↦
      let first : some ([], s) ≡ some (k, v) = rw (eq, cut) at h in
      let empty : [] ≡ k = cc (first) in rw (← empty) refl
  | inr ne ↦
      let (j, long, there) = extend-some c (cut s) k v (rw (ne, cut) at h) in
      rw (long, ne, cut) (rw (cut-key s j v there) refl)
]

pub find-set_all :
    (k : Bytes) (extra m : Vars) → find k (set_all extra m) ≡ or_else (last_of k extra) (find k m)
unfolding set_all last_of
find-set_all k [] m = refl
find-set_all k ((j, v) ∷ extra) m =
    ground (arith, find-set_all k extra (store j v m), find-store j k v m)

find-inherit :
    (k : Bytes) (o : Option (Bytes × Bytes)) (m vars : Vars)
    → or_else (last_of k vars) (find k (inherit o m))
      ≡ or_else (last_of k (named o vars)) (find k m)
unfolding inherit last_of
find-inherit k none m vars = refl
find-inherit k (some ([], v)) m vars = refl
find-inherit k (some (c ∷ j, v)) m vars = ground (arith, find-store (c ∷ j) k v m)

pub find-inherit_all :
    (k : Bytes) (base : List Bytes) (m : Vars)
    → find k (inherit_all base m) ≡ or_else (last_of k (variables base)) (find k m)
unfolding inherit_all variables last_of
find-inherit_all k [] m = refl
find-inherit_all k (kv ∷ base) m =
    find-inherit_all k base (inherit (cut kv) m) ∙ find-inherit k (cut kv) m (variables base)

-- Each key once, and none with '='.
abbrev pub IsPlain : Vars → Type 0
IsPlain m = Distinct (λ x. x.0) m × All (λ x. cut x.0 ≡ none) m

pub All-store :
    (P : Bytes → Type 0) (k v : Bytes) (m : Vars)
    → P k
    → All (λ x. P x.0) m
    → All (λ x. P x.0) (store k v m)
unfolding store
All-store P k v [] p h = (p, tt)
All-store P k v ((j, w) ∷ m) p h = elim (Bool-cases (eq_bytes j k)) [
  | inl same ↦ rw (same, store) (p, h.1)
  | inr apart ↦ rw (apart, store) (h.0, All-store P k v m p h.1)
]

pub Distinct-store :
    (k v : Bytes) (m : Vars) → Distinct (λ x. x.0) m → Distinct (λ x. x.0) (store k v m)
unfolding store
Distinct-store k v [] h = (tt, tt)
Distinct-store k v ((j, w) ∷ m) h = elim (Bool-cases (eq_bytes j k)) [
  | inl same ↦
      let here : j ≡ k = eq_bytes→eq j k same in
      rw (same, store) (subst (λ i. All (λ y. i ≢ y.0) m) here h.0, h.1)
  | inr apart ↦
      let far : j ≢ k = λ e. (let yes' : eq_bytes j k ≡ true = rw e (eq_bytes_refl k) in cc) in
      rw (apart, store) (All-store (λ i. j ≢ i) k v m far h.0, Distinct-store k v m h.1)
]

pub store-IsPlain : (k v : Bytes) (m : Vars) → cut k ≡ none → IsPlain m → IsPlain (store k v m)
store-IsPlain k v m p h = (Distinct-store k v m h.0, All-store (λ i. cut i ≡ none) k v m p h.1)

pub set_all-IsPlain :
    (extra m : Vars) → All (λ x. cut x.0 ≡ none) extra → IsPlain m → IsPlain (set_all extra m)
unfolding set_all
set_all-IsPlain [] m p h = h
set_all-IsPlain ((k, v) ∷ extra) m p h =
    set_all-IsPlain extra (store k v m) p.1 (store-IsPlain k v m p.0 h)

inherit-IsPlain :
    (o : Option (Bytes × Bytes)) (m : Vars)
    → ((k v : Bytes) → o ≡ some (k, v) → cut k ≡ none)
    → IsPlain m
    → IsPlain (inherit o m)
unfolding inherit
inherit-IsPlain none m p h = h
inherit-IsPlain (some ([], v)) m p h = h
inherit-IsPlain (some (c ∷ k, v)) m p h = store-IsPlain (c ∷ k) v m (p (c ∷ k) v refl) h

pub inherit_all-IsPlain : (base : List Bytes) (m : Vars) → IsPlain m → IsPlain (inherit_all base m)
unfolding inherit_all
inherit_all-IsPlain [] m h = h
inherit_all-IsPlain (kv ∷ base) m h =
    inherit_all-IsPlain base (inherit (cut kv) m)
      (inherit-IsPlain (cut kv) m (λ k v e. cut-key kv k v e) h)
