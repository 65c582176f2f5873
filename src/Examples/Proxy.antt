-- ===== src/Examples/Proxy.antt =====
-- internal/fence/proxy.go on small inputs.
use gmux.Prelude.{◌≡◌, ◌≢◌, ◌↔◌, refl, true, false, List, [], ◌∷◌, ◌++◌, some, arith}
use gmux.Fence.Bytes.{
  Bytes, eq_bytes, has_suffix, has_prefix, trim_suffix, trim_prefix, to_lower, trim_left,
  trim_right, trim_space,
}
use gmux.Fence.Allowlist.{set_names, matches, allows_any, allows, host_of, SomeCovers, allows_lem}
use gmux.Fence.Heads.{
  readable, name_in, name_from, after_compression, after_suites, after_session, sni, head_of,
  split_lines, cut_colon, digits, atoi, host_in, host_header, checked, handle, refused,
}
use gmux.Fence.Relays.{sni-IsReadable, IsReadable}
use gmux.Fence.Dns.{dns_answer, encoded, query, dns_answer_lem}

program : Unit {0}
unfolding eq_bytes has_suffix has_prefix trim_suffix trim_prefix to_lower trim_left trim_right
    trim_space set_names matches allows_any allows readable name_in name_from after_compression
    after_suites after_session sni head_of split_lines cut_colon digits atoi host_in host_header
    checked handle
program = tt

-- "bc", and "*.Ex. ", which is kept as "ex".
abbrev names : List Bytes
names = (98 ∷ 99 ∷ []) ∷ (42 ∷ 46 ∷ 69 ∷ 120 ∷ 46 ∷ 32 ∷ []) ∷ []

abbrev host : Bytes
host = 97 ∷ 46 ∷ 98 ∷ 99 ∷ []

kept : set_names names ≡ (98 ∷ 99 ∷ []) ∷ (101 ∷ 120 ∷ []) ∷ []
unfolding program
kept = refl

-- "a.bc" is below "bc", "abc" is not.
subdomain : allows (set_names names) host ≡ true
unfolding program
subdomain = refl

lookalike : allows (set_names names) (97 ∷ 98 ∷ 99 ∷ []) ≡ false
unfolding program
lookalike = refl

allows_lem_example :
    (allows (set_names names) host ≡ true)
    ↔ ((host_of host ≢ []) × SomeCovers (set_names names) (host_of host))
allows_lem_example = allows_lem (set_names names) host

-- "GET / HTTP/1.1", with the host "a.bc:8080".
abbrev request : Bytes
request =
    71 ∷ 69 ∷ 84 ∷ 32 ∷ 47 ∷ 32 ∷ 72 ∷ 84 ∷ 84 ∷ 80 ∷ 47 ∷ 49 ∷ 46 ∷ 49 ∷ 13 ∷ 10 ∷ 72 ∷ 111 ∷ 115
    ∷ 116 ∷ 58 ∷ 32 ∷ 97 ∷ 46 ∷ 98 ∷ 99 ∷ 58 ∷ 56 ∷ 48 ∷ 56 ∷ 48 ∷ 13 ∷ 10 ∷ 13 ∷ 10 ∷ []

-- A ClientHello for "a.bc".
abbrev hello : Bytes
hello =
    22 ∷ 3 ∷ 1 ∷ 0 ∷ 68 ∷ 1 ∷ 0 ∷ 0 ∷ 64 ∷ 3 ∷ 3 ∷ 0 ∷ 0 ∷ 0 ∷ 0 ∷ 0 ∷ 0 ∷ 0 ∷ 0 ∷ 0 ∷ 0 ∷ 0 ∷ 0 ∷ 0
    ∷ 0 ∷ 0 ∷ 0 ∷ 0 ∷ 0 ∷ 0 ∷ 0 ∷ 0 ∷ 0 ∷ 0 ∷ 0 ∷ 0 ∷ 0 ∷ 0 ∷ 0 ∷ 0 ∷ 0 ∷ 0 ∷ 0 ∷ 2 ∷ 9 ∷ 9 ∷ 0 ∷ 2
    ∷ 1 ∷ 1 ∷ 1 ∷ 0 ∷ 0 ∷ 19 ∷ 0 ∷ 10 ∷ 0 ∷ 2 ∷ 1 ∷ 2 ∷ 0 ∷ 0 ∷ 0 ∷ 9 ∷ 0 ∷ 7 ∷ 0 ∷ 0 ∷ 4 ∷ 97 ∷ 46
    ∷ 98 ∷ 99 ∷ []

server_name : sni hello ≡ host
unfolding program
server_name = refl

blocked : handle ((98 ∷ []) ∷ []) hello ≡ refused host false
unfolding program
blocked = refl

sni-IsReadable_example : IsReadable (sni hello)
sni-IsReadable_example = sni-IsReadable hello

-- A query for the address of "a.bc".
abbrev labels : List Bytes
labels = (97 ∷ []) ∷ (98 ∷ 99 ∷ []) ∷ []

abbrev header : Bytes
header = 1 ∷ 0 ∷ 0 ∷ 1 ∷ 0 ∷ 0 ∷ 0 ∷ 0 ∷ 0 ∷ 0 ∷ []

-- A query of an address.
dns_answer_lem_example :
    dns_answer (query 7 8 header labels 0 1 0 1 [])
    ≡ some (
        (7 ∷ 8 ∷ 0x81 ∷ 0x80 ∷ 0 ∷ 1 ∷ 0 ∷ 1 ∷ 0 ∷ 0 ∷ 0 ∷ 0 ∷ [])
        ++ (encoded labels ++ (0 ∷ 0 ∷ 1 ∷ 0 ∷ 1 ∷ []))
        ++ (0xc0 ∷ 0x0c ∷ 0 ∷ 1 ∷ 0 ∷ 1 ∷ 0 ∷ 0 ∷ 0 ∷ 60 ∷ 0 ∷ 4 ∷ 127 ∷ 0 ∷ 0 ∷ 2 ∷ []))
dns_answer_lem_example = dns_answer_lem 7 8 header labels 0 1 0 1 [] refl (omega arith)

-- A query of an address of version 6 has no answer.
no_address :
    dns_answer (query 7 8 header labels 0 28 0 1 [])
    ≡ some (
        (7 ∷ 8 ∷ 0x81 ∷ 0x80 ∷ 0 ∷ 1 ∷ 0 ∷ 0 ∷ 0 ∷ 0 ∷ 0 ∷ 0 ∷ [])
        ++ (encoded labels ++ (0 ∷ 0 ∷ 28 ∷ 0 ∷ 1 ∷ [])))
no_address = dns_answer_lem 7 8 header labels 0 28 0 1 [] refl (omega arith)
