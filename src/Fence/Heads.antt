-- ===== src/Fence/Heads.antt =====
-- proxy.go: the name in the first bytes of a connection, and what the proxy does with it.
use gmux.Prelude.{
  ℕ, zero, suc, ◌+◌, ◌-◌, ◌*◌, ◌==◌, ◌^◌, Bool, true, false, not, ◌&&◌, ◌||◌, List, [], ◌∷◌, Option,
  none, some, if◌then◌else◌, length, take, drop, get_or, ltb, leb,
}
use gmux.Prelude.Int.{ℤ, pos, negsuc}
use gmux.Fence.Bytes.{Bytes, uint16, eq_bytes, has_prefix, to_lower, trim_space}
use gmux.Fence.Allowlist.{allows}

-- A name with a byte above 127 is given as "".
unfoldable pub readable : Bytes → Bytes → Bytes
readable name [] = name
readable name (c ∷ s) = if ltb 127 c then [] else readable name s

-- The loop over the names of the server name extension. A round goes on by three bytes at least, so
-- as many rounds as there are bytes are enough.
unfoldable pub name_in : (fuel : ℕ) → ℕ → Bytes → Option Bytes
unfolding readable
name_in zero c chunk = none
name_in (suc fuel) c chunk =
    let n = uint16 (drop (c + 1) chunk) in
    let rest = name_in fuel (c + 3 + n) chunk in
    let name = take n (drop (c + 3) chunk) in
    if ltb (length chunk) (c + 3)
    then none
    else if get_or chunk c 0 == 0 && leb (c + 3 + n) (length chunk)
    then some (readable name name)
    else rest

-- The loop over the extensions; a round goes on by four bytes at least.
unfoldable pub name_from : (fuel : ℕ) → ℕ → Bytes → Bytes
unfolding name_in
name_from zero at body = []
name_from (suc fuel) at body =
    let size = uint16 (drop (at + 2) body) in
    let chunk = take size (drop (at + 4) body) in
    let rest = name_from fuel (at + 4 + size) body in
    if ltb (length body) (at + 4)
    then []
    else if not (uint16 (drop at body) == 0) || ltb (length body) (at + 4 + size)
    then rest
    else elim (name_in (length chunk) 2 chunk) [ some name ↦ name | none ↦ rest ]

-- `get`, of one byte and of two.
abbrev pub get_byte : ℕ → Bytes → Option ℕ
get_byte at body = if ltb (length body) (at + 1) then none else some (get_or body at 0)

abbrev pub get_word : ℕ → Bytes → Option ℕ
get_word at body = if ltb (length body) (at + 2) then none else some (uint16 (drop at body))

-- Behind the session id, the cipher suites and the compressions.
unfoldable pub after_compression : ℕ → Bytes → Bytes
unfolding name_from
after_compression at body = elim (get_byte at body) [
  | none ↦ []
  | some l ↦ name_from (length body) (at + (1 + l) + 2) body
]

unfoldable pub after_suites : ℕ → Bytes → Bytes
unfolding after_compression
after_suites at body = elim (get_word at body) [
  | none ↦ []
  | some l ↦ after_compression (at + (2 + l)) body
]

unfoldable pub after_session : ℕ → Bytes → Bytes
unfolding after_suites
after_session at body = elim (get_byte at body) [
  | none ↦ []
  | some l ↦ after_suites (at + (1 + l)) body
]

-- `SNI`.
unfoldable pub sni : Bytes → Bytes
unfolding after_session
sni b =
    if ltb (length b) 5 || not (get_or b 0 0 == 22)
    then []
    else after_session (5 + 4 + 2 + 32) (take (5 + uint16 (drop 3 b)) b)

abbrev crlf : Bytes
crlf = 13 ∷ 10 ∷ []

-- What stands before the first empty line, or all.
unfoldable pub head_of : Bytes → Bytes
head_of [] = []
head_of (c ∷ b) = if has_prefix (c ∷ b) (13 ∷ 10 ∷ 13 ∷ 10 ∷ []) then [] else c ∷ head_of b

-- `bytes.Split` at "\r\n": the rest of the line, and the lines behind it. `skip` is true at the
-- second byte of a separator.
unfoldable pub split_lines : Bool → Bytes → Bytes × List Bytes
split_lines skip [] = ([], [])
split_lines true (c ∷ b) = split_lines false b
split_lines false (c ∷ b) = elim (has_prefix (c ∷ b) crlf) [
  | true ↦ let (line, lines) = split_lines true b in ([], line ∷ lines)
  | false ↦ let (line, lines) = split_lines false b in (c ∷ line, lines)
]

-- `strings.Cut` at ":".
unfoldable pub cut_colon : Bytes → Bytes × Option Bytes
cut_colon [] = ([], none)
cut_colon (c ∷ s) =
    let (name, port) = cut_colon s in if c == 58 then ([], some s) else (c ∷ name, port)

unfoldable pub digits : ℕ → Bytes → Option ℕ
digits n [] = some n
digits n (c ∷ s) =
    let rest = digits (n * 10 + (c - 48)) s in if leb 48 c && leb c 57 then rest else none

abbrev unsigned : Bytes → Option ℕ
unsigned [] = none
unsigned (c ∷ s) = digits 0 (c ∷ s)

-- A number that an int of 64 bits holds.
abbrev in_range : ℕ → (ℕ → ℤ) → Option ℕ → Option ℤ
in_range bound f none = none
in_range bound f (some n) = if leb n bound then some (f n) else none

abbrev negative : ℕ → ℤ
negative zero = pos 0
negative (suc n) = negsuc n

-- `strconv.Atoi`, with `none` for an error.
unfoldable pub atoi : Bytes → Option ℤ
unfolding digits
atoi [] = none
atoi (c ∷ s) =
    if c == 45
    then in_range (2 ^ 63) negative (unsigned s)
    else if c == 43
    then in_range (2 ^ 63 - 1) pos (unsigned s)
    else in_range (2 ^ 63 - 1) pos (unsigned (c ∷ s))

abbrev host_field : Bytes
host_field = 104 ∷ 111 ∷ 115 ∷ 116 ∷ 58 ∷ []

abbrev port_of : Option Bytes → ℤ
port_of none = pos 80
port_of (some port) = elim (atoi port) [ none ↦ pos 80 | some p ↦ p ]

unfoldable pub host_in : List Bytes → Bytes × ℤ
unfolding cut_colon atoi
host_in [] = ([], pos 80)
host_in (line ∷ lines) =
    if ltb 5 (length line) && eq_bytes (to_lower (take 5 line)) host_field
    then (let (name, port) = cut_colon (trim_space (drop 5 line)) in (name, port_of port))
    else host_in lines

-- `HostHeader`.
unfoldable pub host_header : Bytes → Bytes × ℤ
unfolding head_of split_lines host_in
host_header b = host_in (split_lines false (head_of b)).1

-- What `handle` does with a connection that starts with these bytes: nothing, an answer of 400, a
-- refusal, with an answer of 403 for HTTP, or a relay to a name and a port.
pub data Handling : Type 0 where
  ignored bad_request : Handling
  refused : (name : Bytes) (is_http : Bool) → Handling
  relays : (name : Bytes) (port : ℤ) (is_http : Bool) → Handling

unfoldable pub checked : List Bytes → Bytes → ℤ → Bool → Handling
checked names name port is_http =
    if not (allows names name) then refused name is_http else relays name port is_http

-- `handle`, up to the call of Dial.
unfoldable pub handle : List Bytes → Bytes → Handling
unfolding sni host_header checked
handle names [] = ignored
handle names (c ∷ head) =
    if c == 22
    then checked names (sni (c ∷ head)) (pos 443) false
    else (let (name, port) = host_header (c ∷ head) in
        elim name [ [] ↦ bad_request | d ∷ rest ↦ checked names (d ∷ rest) port true ])
