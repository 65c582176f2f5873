-- ===== src/Fence/Dns.antt =====
-- proxy.go: the answer of the DNS stub.
use gmux.Prelude.{
  ◌*◌, ap, ℕ, zero, suc, ◌+◌, ◌-◌, ◌==◌, ◌≡◌, ◌≤◌, ◌<◌, refl, Bool, true, false, List, [], ◌∷◌,
  ◌++◌, Option, none, some, if◌then◌else◌, length, take, drop, get_or, ltb, arith, All,
  length-append, append-nil,
}
use native.Mathlib.Nat.{zero-add, suc-add}
use gmux.Fence.Bytes.{Bytes, uint16}

abbrev pub stub_address : Bytes
stub_address = 127 ∷ 0 ∷ 0 ∷ 2 ∷ []

-- The loop over the labels, as many rounds as there are bytes: a round goes on by one at least.
unfoldable pub name_end : (fuel : ℕ) → ℕ → Bytes → ℕ
name_end zero at q = at
name_end (suc fuel) at q =
    let rest = name_end fuel (at + (1 + get_or q at 0)) q in
    if ltb at (length q) then (if get_or q at 0 == 0 then at else rest) else at

-- The answers of a query: one for a query of an address.
abbrev answer_part : Bool → Bytes
answer_part false = []
answer_part true = 0xc0 ∷ 0x0c ∷ 0 ∷ 1 ∷ 0 ∷ 1 ∷ 0 ∷ 0 ∷ 0 ∷ 60 ∷ 0 ∷ 4 ∷ stub_address

abbrev answer_count : Bool → ℕ
answer_count false = 0
answer_count true = 1

abbrev pub answer : Bytes → Bytes → Bool → Bytes
answer id question is_address =
    id
    ++ (0x81 ∷ 0x80 ∷ 0 ∷ 1 ∷ 0 ∷ answer_count is_address ∷ 0 ∷ 0 ∷ 0 ∷ 0 ∷ question
        ++ answer_part is_address)

-- `DNSAnswer`, behind the loop.
unfoldable pub answer_at : ℕ → Bytes → Option Bytes
answer_at end q =
    if ltb (length q) (end + 5)
    then none
    else some (answer (take 2 q) (take (end + 5 - 12) (drop 12 q)) (uint16 (drop (end + 1) q) == 1))

-- `DNSAnswer`.
unfoldable pub dns_answer : Bytes → Option Bytes
unfolding name_end answer_at
dns_answer q = if ltb (length q) 12 then none else answer_at (name_end (length q) 12 q) q

-- The labels of a name as a query has them.
pub encoded : List Bytes → Bytes
encoded [] = []
encoded (l ∷ labels) = length l ∷ l ++ encoded labels

get_or-append : (pre : Bytes) (c : ℕ) (post : Bytes) → get_or (pre ++ c ∷ post) (length pre) 0 ≡ c
get_or-append [] c post = refl
get_or-append (x ∷ pre) c post = get_or-append pre c post

append_regroup :
    (pre l rest post : Bytes) (c : ℕ)
    → (pre ++ (c ∷ l)) ++ (rest ++ post) ≡ pre ++ (c ∷ ((l ++ rest) ++ post))
append_regroup [] [] rest post c = refl
append_regroup [] (x ∷ l) rest post c = ap (λ t. c ∷ t) (append_regroup [] l rest post x)
append_regroup (x ∷ pre) l rest post c = ap (λ t. x ∷ t) (append_regroup pre l rest post c)

name_end-encoded :
    (fuel : ℕ) (pre : Bytes) (labels : List Bytes) (post : Bytes)
    → All (λ l. 1 ≤ length l) labels
    → length labels < fuel
    → name_end fuel (length pre) (pre ++ (encoded labels ++ 0 ∷ post))
      ≡ length pre + length (encoded labels)
unfolding name_end encoded
name_end-encoded zero pre labels post h f = absurd (omega arith)
name_end-encoded (suc fuel) pre [] post h f = rw (get_or-append pre 0 post) (ground (arith))
name_end-encoded (suc fuel) pre (l ∷ labels) post h f =
    let whole = pre ++ (encoded (l ∷ labels) ++ 0 ∷ post) in
    let raw = name_end-encoded fuel (pre ++ (length l ∷ l)) labels post h.1 (omega (arith, f)) in
    let next : length (pre ++ (length l ∷ l)) ≡ length pre + (1 + length l) =
      omega (arith, length-append pre (length l ∷ l)) in
    let inner : name_end fuel (length pre + (1 + length l)) whole
        ≡ length pre + (1 + length l) + length (encoded labels) =
      rw (append_regroup pre l (encoded labels) (0 ∷ post) (length l), next) at raw in
    rw (get_or-append pre (length l) ((l ++ encoded labels) ++ 0 ∷ post)) (
      ground (
        arith,
        inner,
        h.0,
        length-append l (encoded labels),
        length-append pre (encoded (l ∷ labels) ++ 0 ∷ post),
      ))

drop-add : (xs ys : Bytes) (n : ℕ) → drop (length xs + n) (xs ++ ys) ≡ drop n ys
drop-add [] ys n = rw (zero-add n) refl
drop-add (x ∷ xs) ys n = rw (suc-add (length xs) n) (drop-add xs ys n)

take-add : (xs ys : Bytes) (n : ℕ) → take (length xs + n) (xs ++ ys) ≡ xs ++ take n ys
take-add [] ys n = rw (zero-add n) refl
take-add (x ∷ xs) ys n = rw (suc-add (length xs) n) (ap (λ t. x ∷ t) (take-add xs ys n))

length-labels : (labels : List Bytes) → length labels ≤ length (encoded labels)
unfolding encoded
length-labels [] = omega arith
length-labels (l ∷ labels) = omega (arith, length-labels labels, length-append l (encoded labels))

module _ (a b : ℕ) (header : Bytes) (labels : List Bytes) (hi lo c d : ℕ) (tail : Bytes) where
  abbrev pub query : Bytes
  query = (a ∷ b ∷ header) ++ (encoded labels ++ 0 ∷ (hi ∷ lo ∷ c ∷ d ∷ tail))

  name_end-query :
      length header ≡ 10
      → All (λ l. 1 ≤ length l) labels
      → name_end (length query) 12 query ≡ 12 + length (encoded labels)
  name_end-query ten h =
      let found =
        name_end-encoded (length query) (a ∷ b ∷ header) labels (hi ∷ lo ∷ c ∷ d ∷ tail) h (
          omega (
            arith,
            length-labels labels,
            length-append header (encoded labels ++ 0 ∷ (hi ∷ lo ∷ c ∷ d ∷ tail)),
            length-append (encoded labels) (0 ∷ (hi ∷ lo ∷ c ∷ d ∷ tail)),
          )) in
      let twelve : length (a ∷ b ∷ header) ≡ 12 = omega (arith, ten) in rw twelve at found

  drop-query :
      length header ≡ 10
      → (n : ℕ) → drop (12 + n) query ≡ drop n (encoded labels ++ 0 ∷ (hi ∷ lo ∷ c ∷ d ∷ tail))
  drop-query ten n =
      let twelve : length (a ∷ b ∷ header) + n ≡ 12 + n = omega (arith, ten) in
      let dropped = drop-add (a ∷ b ∷ header) (encoded labels ++ 0 ∷ (hi ∷ lo ∷ c ∷ d ∷ tail)) n in
      rw twelve at dropped

  question_of :
      length header ≡ 10
      → take (12 + length (encoded labels) + 5 - 12) (drop 12 query)
        ≡ encoded labels ++ 0 ∷ hi ∷ lo ∷ c ∷ d ∷ []
  question_of ten =
      let size : 12 + length (encoded labels) + 5 - 12 ≡ length (encoded labels) + 5 =
        omega arith in
      rw (size, drop-query ten 0) (take-add (encoded labels) (0 ∷ (hi ∷ lo ∷ c ∷ d ∷ tail)) 5)

  type_of :
      length header ≡ 10 → drop (12 + length (encoded labels) + 1) query ≡ hi ∷ lo ∷ c ∷ d ∷ tail
  type_of ten =
      let size : 12 + length (encoded labels) + 1 ≡ 12 + (length (encoded labels) + 1) =
        omega arith in
      rw (size, drop-query ten (length (encoded labels) + 1))
        (drop-add (encoded labels) (0 ∷ (hi ∷ lo ∷ c ∷ d ∷ tail)) 1)

  length-query : length header ≡ 10 → length query ≡ 12 + length (encoded labels) + 5 + length tail
  length-query ten = omega (
    arith,
    ten,
    length-append header (encoded labels ++ 0 ∷ (hi ∷ lo ∷ c ∷ d ∷ tail)),
    length-append (encoded labels) (0 ∷ (hi ∷ lo ∷ c ∷ d ∷ tail)),
  )

  answer_bytes :
      (is_address : Bool)
      → some (answer (a ∷ b ∷ []) (encoded labels ++ 0 ∷ hi ∷ lo ∷ c ∷ d ∷ []) is_address)
        ≡ some (
            if is_address
            then (a ∷ b ∷ 0x81 ∷ 0x80 ∷ 0 ∷ 1 ∷ 0 ∷ 1 ∷ 0 ∷ 0 ∷ 0 ∷ 0 ∷ [])
              ++ (encoded labels ++ (0 ∷ hi ∷ lo ∷ c ∷ d ∷ []))
              ++ (0xc0 ∷ 0x0c ∷ 0 ∷ 1 ∷ 0 ∷ 1 ∷ 0 ∷ 0 ∷ 0 ∷ 60 ∷ 0 ∷ 4 ∷ 127 ∷ 0 ∷ 0 ∷ 2 ∷ [])
            else (a ∷ b ∷ 0x81 ∷ 0x80 ∷ 0 ∷ 1 ∷ 0 ∷ 0 ∷ 0 ∷ 0 ∷ 0 ∷ 0 ∷ [])
              ++ (encoded labels ++ (0 ∷ hi ∷ lo ∷ c ∷ d ∷ [])))
  answer_bytes true = refl
  answer_bytes false = rw (append-nil (encoded labels ++ 0 ∷ hi ∷ lo ∷ c ∷ d ∷ [])) refl

  -- The stub answers a query for a name of labels that are not empty, after a header of twelve
  -- bytes, with the query's identifier, the flags 0x8180, one question, the question itself, and, if
  -- its type is 1, one answer that points at the question's name and says that its address is
  -- 127.0.0.2 for 60 seconds, else no answer.
  pub dns_answer_lem :
      length header ≡ 10
      → All (λ l. 1 ≤ length l) labels
      → dns_answer query
        ≡ some (
            if hi * 256 + lo == 1
            then (a ∷ b ∷ 0x81 ∷ 0x80 ∷ 0 ∷ 1 ∷ 0 ∷ 1 ∷ 0 ∷ 0 ∷ 0 ∷ 0 ∷ [])
              ++ (encoded labels ++ (0 ∷ hi ∷ lo ∷ c ∷ d ∷ []))
              ++ (0xc0 ∷ 0x0c ∷ 0 ∷ 1 ∷ 0 ∷ 1 ∷ 0 ∷ 0 ∷ 0 ∷ 60 ∷ 0 ∷ 4 ∷ 127 ∷ 0 ∷ 0 ∷ 2 ∷ [])
            else (a ∷ b ∷ 0x81 ∷ 0x80 ∷ 0 ∷ 1 ∷ 0 ∷ 0 ∷ 0 ∷ 0 ∷ 0 ∷ 0 ∷ [])
              ++ (encoded labels ++ (0 ∷ hi ∷ lo ∷ c ∷ d ∷ [])))
  unfolding dns_answer answer_at
  dns_answer_lem ten h =
      let long : ltb (length query) 12 ≡ false = ground (arith, length-query ten) in
      let whole : ltb (length query) (12 + length (encoded labels) + 5) ≡ false =
        ground (arith, length-query ten) in
      rw (long, name_end-query ten h, whole, question_of ten, type_of ten)
        (answer_bytes (hi * 256 + lo == 1))
