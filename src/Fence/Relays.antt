-- ===== src/Fence/Relays.antt =====
-- proxy.go: the proxy relays only to a name that the connection itself has sent and that the job
-- may reach.
use gmux.Prelude.{
  snoc_append, ◌||◌, ◌&&◌, ℕ, zero, suc, ◌+◌, ◌==◌, ◌≡◌, ◌≤◌, inl, inr, Bool, true, not, List, [],
  ◌∷◌, ◌++◌, Option, none, some, if◌then◌else◌, arith, Bool-cases, All, All-append, ltb, length,
  take, drop, Option-cases, get_or, leb,
}
use gmux.Prelude.Int.{ℤ}
use gmux.Fence.Bytes.{Bytes, uint16}
use gmux.Fence.Allowlist.{allows}
use gmux.Fence.Heads.{
  readable, name_in, name_from, after_compression, after_suites, after_session, sni, host_header,
  Handling, relays, get_byte, get_word,
}

-- The name that a connection sends: of a ClientHello, or of an HTTP request.
abbrev pub name_sent : Bytes → Bytes
name_sent [] = []
name_sent (c ∷ head) = if c == 22 then sni (c ∷ head) else (host_header (c ∷ head)).0

-- The name and the port of a relay.
abbrev RelaysTo : List Bytes → Bytes → Bytes → ℤ → Handling → Type 0
RelaysTo names sent name port h =
    (is_http : Bool) → h ≡ relays name port is_http → (allows names name ≡ true) × (name ≡ sent)

abbrev pub IsReadable : Bytes → Type 0
IsReadable = All (λ c. c ≤ 127)

readable-IsReadable : (pre s : Bytes) → IsReadable pre → IsReadable (readable (pre ++ s) s)
unfolding readable
readable-IsReadable pre [] h = All-append _ pre [] h tt
readable-IsReadable pre (c ∷ s) h = elim (Bool-cases (ltb 127 c)) [
  | inl high ↦ rw (high, readable) tt
  | inr low ↦
      let rest =
        readable-IsReadable (pre ++ c ∷ []) s
          (All-append _ pre (c ∷ []) h (ground (arith, low), tt)) in
      rw (low, readable) (rw (snoc_append pre c s) at rest)
]

abbrev OptionIsReadable : Option Bytes → Type 0
OptionIsReadable none = Unit {0}
OptionIsReadable (some name) = IsReadable name

name_in-IsReadable : (fuel c : ℕ) (chunk : Bytes) → OptionIsReadable (name_in fuel c chunk)
unfolding name_in
name_in-IsReadable zero c chunk = tt
name_in-IsReadable (suc fuel) c chunk =
    let rest = name_in-IsReadable fuel (c + 3 + uint16 (drop (c + 1) chunk)) chunk in
    elim (Bool-cases (ltb (length chunk) (c + 3))) [
      | inl short ↦ rw (short, name_in) tt
      | inr long ↦
          elim (Bool-cases
            (get_or chunk c 0 == 0 && leb (c + 3 + uint16 (drop (c + 1) chunk)) (length chunk))) [
              | inl here ↦
                  rw (long, name_in, here)
                    (readable-IsReadable []
                      (take (uint16 (drop (c + 1) chunk)) (drop (c + 3) chunk)) tt)
              | inr there ↦ rw (long, name_in, there) rest
            ]
    ]

name_from-IsReadable : (fuel at_byte : ℕ) (body : Bytes) → IsReadable (name_from fuel at_byte body)
unfolding name_from
name_from-IsReadable zero i body = tt
name_from-IsReadable (suc fuel) i body =
    let size = uint16 (drop (i + 2) body) in
    let chunk = take size (drop (i + 4) body) in
    let rest = name_from-IsReadable fuel (i + 4 + size) body in
    let own = name_in-IsReadable (length chunk) 2 chunk in
    elim (Bool-cases (ltb (length body) (i + 4))) [
      | inl short ↦ rw (short, name_from) tt
      | inr long ↦
          elim (Bool-cases (not (uint16 (drop i body) == 0) || ltb (length body) (i + 4 + size))) [
            | inl skipped ↦ rw (long, name_from, skipped) rest
            | inr names_servers ↦ elim (Option-cases (name_in (length chunk) 2 chunk)) [
              | inl x ↦ rw (long, name_from, names_servers, x) rest
              | inr (name, x) ↦ rw (long, name_from, names_servers, x) (rw x at own)
            ]
          ]
    ]

after_compression-IsReadable : (i : ℕ) (body : Bytes) → IsReadable (after_compression i body)
unfolding after_compression
after_compression-IsReadable i body = elim (Option-cases (get_byte i body)) [
  | inl x ↦ rw (x, after_compression) tt
  | inr (l, x) ↦
      rw (x, after_compression) (name_from-IsReadable (length body) (i + (1 + l) + 2) body)
]

after_suites-IsReadable : (i : ℕ) (body : Bytes) → IsReadable (after_suites i body)
unfolding after_suites
after_suites-IsReadable i body = elim (Option-cases (get_word i body)) [
  | inl x ↦ rw (x, after_suites) tt
  | inr (l, x) ↦ rw (x, after_suites) (after_compression-IsReadable (i + (2 + l)) body)
]

after_session-IsReadable : (i : ℕ) (body : Bytes) → IsReadable (after_session i body)
unfolding after_session
after_session-IsReadable i body = elim (Option-cases (get_byte i body)) [
  | inl x ↦ rw (x, after_session) tt
  | inr (l, x) ↦ rw (x, after_session) (after_suites-IsReadable (i + (1 + l)) body)
]

-- A server name that the proxy reads from a ClientHello has no byte above 127.
pub sni-IsReadable : (b : Bytes) → IsReadable (sni b)
unfolding sni
sni-IsReadable b = elim (Bool-cases (ltb (length b) 5 || not (get_or b 0 0 == 22))) [
  | inl no_hello ↦ rw (no_hello, sni) tt
  | inr hello ↦
      rw (hello, sni) (after_session-IsReadable (5 + 4 + 2 + 32) (take (5 + uint16 (drop 3 b)) b))
]
