-- ===== src/Runtime/Reading.antt =====
-- internal/runtime/runtime.go: a job's process reads the variables that its share needs, and else
-- those of the daemon.
use gmux.Prelude.{
  subst, sort_stable, ◌≡◌, ◌≢◌, refl, sym, ◌∙◌, ap, List, [], ◌∷◌, map, Option, none, some,
  Bool-cases, Option-cases, inl, inr, In, All, All-In, In-All, In-map, Distinct, In-sort_stable,
  All-sort_stable,
}
use gmux.Fence.Bytes.{Bytes, eq_bytes, eq_bytes_refl, eq_bytes→eq}
use gmux.Maps.{ne_of_eq_bytes, find, eq_bytes-ne}
use gmux.Session.{bytes_before}
use gmux.Runtime.Launch.{Vars, cut, inherit_all, set_all, joined, env}
use gmux.Runtime.Environment.{
  getenv, or_else, last_of, variables, IsPlain, set_all-IsPlain, inherit_all-IsPlain, cut-joined,
  find-set_all, find-inherit_all,
}

pub or_else-none : (o : Option Bytes) → or_else o none ≡ o
or_else-none none = refl
or_else-none (some v) = refl

-- An entry that gives the name k this value if it gives it one.
abbrev Gives : Bytes → Bytes → Bytes → Type 0
Gives k v e = (w : Bytes) → cut e ≡ some (k, w) → w ≡ v

getenv-some :
    (k v e : Bytes) (es : List Bytes)
    → In e es
    → cut e ≡ some (k, v)
    → All (Gives k v) es
    → getenv k es ≡ some v
unfolding getenv
getenv-some k v e [] i h all = absurd i
getenv-some k v e (f ∷ es) i h all = elim (Option-cases (cut f)) [
  | inl no' ↦ elim i [
    | inl same ↦ absurd (let gone : none ≡ some (k, v) = sym no' ∙ ap cut (sym same) ∙ h in cc)
    | inr j ↦ rw (no', getenv) (getenv-some k v e es j h all.1)
  ]
  | inr ((j, w), there) ↦ elim (Bool-cases (eq_bytes j k)) [
    | inl same ↦
        let here : j ≡ k = eq_bytes→eq j k same in
        let own : w ≡ v = all.0 w (rw here at there) in rw (there, same, own, getenv) refl
    | inr apart ↦ elim i [
      | inl first ↦
          let one : some (j, w) ≡ some (k, v) = sym there ∙ ap cut (sym first) ∙ h in
          absurd (ne_of_eq_bytes j k apart (cc (one)))
      | inr later ↦ rw (there, apart, getenv) (getenv-some k v e es later h all.1)
    ]
  ]
]

getenv-none :
    (k : Bytes) (es : List Bytes)
    → All (λ e. (w : Bytes) → cut e ≢ some (k, w)) es
    → getenv k es ≡ none
unfolding getenv
getenv-none k [] all = refl
getenv-none k (f ∷ es) all = elim (Option-cases (cut f)) [
  | inl no' ↦ rw (no', getenv) (getenv-none k es all.1)
  | inr ((j, w), there) ↦ elim (Bool-cases (eq_bytes j k)) [
    | inl same ↦ absurd (all.0 w (rw (← eq_bytes→eq j k same) there))
    | inr apart ↦ rw (there, apart, getenv) (getenv-none k es all.1)
  ]
]

find-In : (k v : Bytes) (m : Vars) → find k m ≡ some v → In (k, v) m
unfolding find
find-In k v [] h = absurd (cc (h))
find-In k v ((j, w) ∷ m) h = elim (Bool-cases (eq_bytes j k)) [
  | inl same ↦
      let own : some w ≡ some v = rw (same, find) at h in inl (cc (own, eq_bytes→eq j k same))
  | inr apart ↦ inr (find-In k v m (rw (apart, find) at h))
]

In-find : (k v : Bytes) (m : Vars) → Distinct (λ x. x.0) m → In (k, v) m → find k m ≡ some v
unfolding find
In-find k v [] d i = absurd i
In-find k v ((j, w) ∷ m) d (inl same) =
    let (key, own) : (k ≡ j) × (v ≡ w) =
      (ap (λ (x : Bytes × Bytes). x.0) same, ap (λ (x : Bytes × Bytes). x.1) same) in
    rw (key, own, eq_bytes_refl j) refl
In-find k v ((j, w) ∷ m) d (inr i) =
    let far : j ≢ k = All-In (λ y. j ≢ y.0) m d.0 i in
    rw (eq_bytes-ne j k far) (In-find k v m d.1 i)

In-joined : (x : Bytes × Bytes) (m : Vars) → In x m → In (joined x) (map joined m)
In-joined x [] i = absurd i
In-joined x (y ∷ m) (inl e) = inl (ap joined e)
In-joined x (y ∷ m) (inr i) = inr (In-joined x m i)

entry-find :
    (k w e : Bytes) (m : Vars)
    → IsPlain m
    → In e (map joined m)
    → cut e ≡ some (k, w)
    → find k m ≡ some w
entry-find k w e m h i there =
    let (x, j, same) = In-map joined e m i in
    let plain : cut x.0 ≡ none = All-In (λ y. cut y.0 ≡ none) m h.1 j in
    let whole : some x ≡ some (k, w) = sym (cut-joined x.0 x.1 plain) ∙ ap cut (sym same) ∙ there in
    let one : x ≡ (k, w) = cc (whole) in In-find k w m h.0 (subst (λ y. In y m) one j)

-- The entries of a map, in any order, are read as the map is.
getenv-find :
    (k : Bytes) (m : Vars)
    → IsPlain m
    → getenv k (sort_stable bytes_before (map joined m)) ≡ find k m
getenv-find k m h = elim (Option-cases (find k m)) [
  | inr (v, there) ↦
      let i = find-In k v m there in
      let key : cut k ≡ none = All-In (λ x. cut x.0 ≡ none) m h.1 i in
      let all : All (Gives k v) (map joined m) = In-All (map joined m) (λ e j w same.
        let known : some w ≡ some v = sym (entry-find k w e m h j same) ∙ there in cc (known)) in
      getenv-some k v (joined (k, v)) _
        (In-sort_stable bytes_before (joined (k, v)) (map joined m) (In-joined (k, v) m i))
        (cut-joined k v key) (All-sort_stable bytes_before (Gives k v) (map joined m) all)
      ∙ sym there
  | inl gone ↦
      getenv-none k _ (
        All-sort_stable bytes_before (λ e. (w : Bytes) → cut e ≢ some (k, w)) (map joined m)
          (In-All (map joined m) (λ e j w same.
            let no' : none ≡ some w = sym gone ∙ entry-find k w e m h j same in absurd (cc (no')))))
      ∙ sym gone
]

-- In the environment of a job a name has the last value that its share gives it, or else the last
-- that the daemon's own environment gives it, if no name that the share gives has an equals sign.
pub env_lem :
    (base : List Bytes) (extra : Vars) (k : Bytes)
    → All (λ x. cut x.0 ≡ none) extra
    → getenv k (env base extra) ≡ or_else (last_of k extra) (last_of k (variables base))
unfolding env find
env_lem base extra k plain =
    getenv-find k (set_all extra (inherit_all base []))
      (set_all-IsPlain extra (inherit_all base []) plain (inherit_all-IsPlain base [] (tt, tt)))
    ∙ find-set_all k extra (inherit_all base [])
    ∙ ap (or_else (last_of k extra))
        (find-inherit_all k base [] ∙ or_else-none (last_of k (variables base)))
