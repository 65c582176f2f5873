-- ===== src/Fence/Allowlist.antt =====
-- proxy.go: the names that a job may reach. Lower case is that of ASCII letters, as Fence.Bytes says.
use gmux.Prelude.{
  length-append, ◌-◌, ◌≡◌, ◌≢◌, ◌⊎◌, ◌↔◌, refl, inl, inr, Bool, true, false, not, ◌||◌, List, [],
  ◌∷◌, ◌++◌, if◌then◌else◌, In, length, take, drop, take-append-drop, arith, Bool-cases, subst, ◌∙◌,
  sym, ap,
}
use gmux.Fence.Bytes.{
  Bytes, eq_bytes, eq_bytes_refl, eq_bytes→eq, has_suffix, trim_suffix, trim_prefix, to_lower,
  trim_space, drop-length_append,
}

abbrev dot : Bytes
dot = 46 ∷ []

abbrev star : Bytes
star = 42 ∷ []

abbrev is_empty : Bytes → Bool
is_empty [] = true
is_empty (c ∷ s) = false

abbrev clean : Bytes → Bytes
clean n = trim_prefix (to_lower (trim_suffix (trim_space n) dot)) (42 ∷ 46 ∷ [])

-- `Set`, the names that it keeps.
unfoldable pub set_names : List Bytes → List Bytes
set_names [] = []
set_names (n ∷ names) =
    if not (is_empty (clean n)) then clean n ∷ set_names names else set_names names

abbrev pub host_of : Bytes → Bytes
host_of host = to_lower (trim_suffix host dot)

-- The body of the loop of `Allows`.
unfoldable pub matches : Bytes → Bytes → Bool
matches host n = eq_bytes n star || (eq_bytes host n || has_suffix host (dot ++ n))

unfoldable pub allows_any : List Bytes → Bytes → Bool
unfolding matches
allows_any [] host = false
allows_any (n ∷ names) host = if matches host n then true else allows_any names host

-- `Allows`.
unfoldable pub allows : List Bytes → Bytes → Bool
unfolding allows_any
allows names host = if is_empty (host_of host) then false else allows_any names (host_of host)

-- A name allows itself and its subdomains, and "*" allows every name.
pub Covers : Bytes → Bytes → Type 0
Covers n host = (n ≡ star) ⊎ (host ≡ n) ⊎ ((sub : Bytes) × (host ≡ sub ++ (dot ++ n)))

pub has_suffix-append : (sub end : Bytes) → has_suffix (sub ++ end) end ≡ true
unfolding has_suffix
has_suffix-append sub end =
    let len : length (sub ++ end) - length end ≡ length sub =
      omega (arith, length-append sub end) in
    rw (len, drop-length_append sub end) (ground (arith, eq_bytes_refl end, length-append sub end))

pub has_suffix_iff :
    (s end : Bytes) → (has_suffix s end ≡ true) ↔ ((sub : Bytes) × (s ≡ sub ++ end))
unfolding has_suffix
has_suffix_iff s end = (
  (λ e. (
    take (length s - length end) s,
    let same = eq_bytes→eq (drop (length s - length end) s) end (ground (arith, e)) in
        sym (take-append-drop (length s - length end) s)
        ∙ ap (λ t. take (length s - length end) s ++ t) same,
  )),
  (λ (sub, e). rw e (has_suffix-append sub end)),
)

matches_iff : (host n : Bytes) → (matches host n ≡ true) ↔ Covers n host
unfolding matches Covers
matches_iff host n = (
  (λ e. elim (Bool-cases (eq_bytes n star)) [
    | inl all ↦ inl (eq_bytes→eq n star all)
    | inr some_name ↦ elim (Bool-cases (eq_bytes host n)) [
      | inl same ↦ inr (inl (eq_bytes→eq host n same))
      | inr apart ↦
          inr (inr ((has_suffix_iff host (dot ++ n)).0 (ground (arith, e, some_name, apart))))
    ]
  ]),
  (λ c. elim c [
    | inl all ↦ rw all (ground (arith, eq_bytes_refl star))
    | inr (inl same) ↦ rw same (ground (arith, eq_bytes_refl n))
    | inr (inr sub) ↦ ground (arith, (has_suffix_iff host (dot ++ n)).1 sub)
  ]),
)

abbrev pub SomeCovers : List Bytes → Bytes → Type 0
SomeCovers names host = (n : Bytes) × In n names × Covers n host

allows_any_iff :
    (names : List Bytes) (host : Bytes) → (allows_any names host ≡ true) ↔ SomeCovers names host
unfolding allows_any
allows_any_iff [] host = ((λ e. absurd (cc (e))), (λ (n, i, c). absurd i))
allows_any_iff (m ∷ names) host = (
  (λ e. elim (Bool-cases (matches host m)) [
    | inl yes' ↦ (m, inl refl, (matches_iff host m).0 yes')
    | inr no' ↦
        let (n, i, c) = (allows_any_iff names host).0 (rw (no', allows_any) at e) in (n, inr i, c)
  ]),
  (λ (n, i, c). elim i [
    | inl here ↦ rw (allows_any, (matches_iff host m).1 (subst (λ k. Covers k host) here c)) refl
    | inr there ↦ ground (arith, (allows_any_iff names host).1 (n, there, c))
  ]),
)

allows_host_iff :
    (names : List Bytes) (h : Bytes)
    → ((if is_empty h then false else allows_any names h) ≡ true) ↔ ((h ≢ []) × SomeCovers names h)
allows_host_iff names [] = ((λ e. absurd (cc (e))), (λ (n, c). absurd (n refl)))
allows_host_iff names (c ∷ h) = (
  (λ e. ((λ x. absurd (cc (x))), (allows_any_iff names (c ∷ h)).0 e)),
  (λ (n, c). (allows_any_iff names _).1 c),
)

-- Allows is true of exactly the hosts that, without a last dot and in the lower case of ASCII letters,
-- are not empty and are one of the names or a subdomain of one, or of every such host if "*" is a name.
pub allows_lem :
    (names : List Bytes) (host : Bytes)
    → (allows names host ≡ true) ↔ ((host_of host ≢ []) × SomeCovers names (host_of host))
unfolding allows
allows_lem names host = allows_host_iff names (host_of host)
