-- ===== src/Fence/Job.antt =====
-- supervisor_linux.go: the descriptors of a fenced process, and what the supervisor may know of them.
use gmux.Prelude.{
  ℕ, ◌==◌, ◌≡◌, ◌≢◌, refl, inl, inr, Bool, true, false, not, ◌&&◌, ◌||◌, Option, none, some,
  if◌then◌else◌, Bool-cases, ==_iff,
}
use gmux.Fence.Filter.{Sysnums}
use gmux.Fence.Supervisor.{NotifReq, Entry, Kernel, Response, cont, value, update, uint32, Table}

-- What a descriptor of the job is: no internet socket, one that is not connected, or one that the
-- supervisor has connected.
pub data Sort : Type 0 where
  other unconnected relayed : Sort

-- The descriptors of a job of one process; `none` is a free one.
abbrev pub Job : Type 0
Job = ℕ → Option Sort

-- The calls that duplicate a descriptor.
abbrev pub is_dup : Sysnums → NotifReq → Bool
is_dup sn req =
    (req.nr == sn.dup) || ((req.nr == sn.dup2) || ((req.nr == sn.dup3) || (req.nr == sn.fcntl)))

abbrev pub copy_to : ℕ → Option Sort → Job → Job
copy_to k none j = j
copy_to k (some v) j = update k (some v) j

-- What the kernel does to the job when it goes on with a call that the supervisor was asked about;
-- `fresh` is the free descriptor that it chooses. A duplicate of a free descriptor fails.
unfoldable pub goes_on : Sysnums → ℕ → NotifReq → Job → Job
goes_on sn fresh req j =
    if req.nr == sn.socket
    then j
    else if req.nr == sn.close_s
    then update (uint32 req.arg0) none j
    else if req.nr == sn.connect
    then j
    else if is_dup sn req
    then (if req.nr == sn.fcntl
        then (if not (req.arg1 == 0) && not (req.arg1 == 1030)
            then j
            else copy_to fresh (j (uint32 req.arg0)) j)
        else if (req.nr == sn.dup2) || (req.nr == sn.dup3)
        then copy_to (uint32 req.arg1) (j (uint32 req.arg0)) j
        else copy_to fresh (j (uint32 req.arg0)) j)
    else j

abbrev sort_given : Sysnums → NotifReq → Sort
sort_given sn req = if req.nr == sn.socket then unconnected else relayed

abbrev put_at : Option ℕ → Sort → Job → Job
put_at none v j = j
put_at (some fd) v j = update (uint32 fd) (some v) j

-- What a call does to the job: on a value addfd has put a socket into it, which is connected unless
-- the call was socket itself.
unfoldable pub applied : Sysnums → ℕ → NotifReq → Kernel → Response → Job → Job
applied sn fresh req k cont j = goes_on sn fresh req j
applied sn fresh req k (value v) j = put_at k.added (sort_given sn req) j
applied sn fresh req k _ j = j

-- What the supervisor may know of a descriptor: it knows a socket that is not connected as such,
-- and every descriptor that it knows is one of these or is connected to its proxy or stub.
unfoldable pub Agrees : Option Entry → Option Sort → Type 0
Agrees (some e) (some unconnected) = e.fd ≡ none
Agrees (some e) (some relayed) = Unit {0}
Agrees (some e) (some other) = ⊥
Agrees (some e) none = ⊥
Agrees none (some unconnected) = ⊥
Agrees none (some relayed) = Unit {0}
Agrees none (some other) = Unit {0}
Agrees none none = Unit {0}

unfoldable pub IsConfined : Table → Job → Type 0
IsConfined t j = (fd : ℕ) → Agrees (t fd) (j fd)

-- A job that makes no duplicate of a socket before it is connected, and none of a closed
-- descriptor, and a kernel that keeps to its manual.
pub record IsPlain (sn : Sysnums) (fresh : ℕ) (req : NotifReq) (k : Kernel) (j : Job) : Type 0 where
  pub connected :
      (req.nr == sn.dup) || ((req.nr == sn.dup2) || (req.nr == sn.dup3)) ≡ true
      → j (uint32 req.arg0) ≢ some unconnected
  pub source_open : (req.nr == sn.dup2) || (req.nr == sn.dup3) ≡ true → j (uint32 req.arg0) ≢ none
  pub fresh_free : j fresh ≡ none
  pub placed_there :
      (req.nr == sn.connect) ≡ true → (fd : ℕ) → k.added ≡ some fd → uint32 fd ≡ uint32 req.arg0

pub Agrees-none_untracked : (v : Option Sort) (x : Option Entry) → v ≡ none → Agrees x v → x ≡ none
unfolding Agrees
Agrees-none_untracked none none e h = refl
Agrees-none_untracked none (some x) e h = absurd h
Agrees-none_untracked (some v) x e h = absurd (cc (e))

pub Agrees-untracked : (v : Option Sort) → Agrees none v → v ≢ some unconnected
unfolding Agrees
Agrees-untracked none h e = absurd (cc (e))
Agrees-untracked (some other) h e = absurd (cc (e))
Agrees-untracked (some relayed) h e = absurd (cc (e))
Agrees-untracked (some unconnected) h e = absurd h

pub tracked-relayed :
    (x : Option Entry) (e : Entry) (v : Option Sort)
    → x ≡ some e
    → v ≢ some unconnected
    → Agrees x v
    → v ≡ some relayed
unfolding Agrees
tracked-relayed none e v i n h = absurd (cc (i))
tracked-relayed (some x) e none i n h = absurd h
tracked-relayed (some x) e (some other) i n h = absurd h
tracked-relayed (some x) e (some relayed) i n h = refl
tracked-relayed (some x) e (some unconnected) i n h = absurd (n refl)

pub Agrees-relayed : (x : Option Entry) → Agrees x (some relayed)
unfolding Agrees
Agrees-relayed none = tt
Agrees-relayed (some e) = tt

module _ (t : Table) (j : Job) (good : IsConfined t j) where
  pub update-IsConfined :
      (k : ℕ) (a : Option Entry) (b : Option Sort)
      → Agrees a b
      → IsConfined (update k a t) (update k b j)
  unfolding IsConfined
  update-IsConfined k a b h fd = elim (Bool-cases (fd == k)) [
    | inl same ↦ rw same h
    | inr apart ↦ rw apart (good fd)
  ]

  -- A copy onto a descriptor that the supervisor may know.
  pub copy-IsConfined : (k : ℕ) (b : Option Sort) → Agrees (t k) b → IsConfined t (update k b j)
  unfolding IsConfined
  copy-IsConfined k b h fd = elim (Bool-cases (fd == k)) [
    | inl same ↦ rw (same) (rw (← (==_iff fd k).0 same) at h)
    | inr apart ↦ rw apart (good fd)
  ]

  pub copy_to-IsConfined : (k : ℕ) (v : Option Sort) → Agrees (t k) v → IsConfined t (copy_to k v j)
  copy_to-IsConfined k none h = good
  copy_to-IsConfined k (some v) h = copy-IsConfined k (some v) h

  pub forget-IsConfined :
      (k : ℕ) (v : Option Sort)
      → v ≢ none
      → Agrees none v
      → IsConfined (update k none t) (copy_to k v j)
  forget-IsConfined k none n h = absurd (n refl)
  forget-IsConfined k (some v) n h = update-IsConfined k none (some v) h

pub if-IsConfined :
    (t : Table) (b : Bool) (x y : Job)
    → IsConfined t x
    → IsConfined t y
    → IsConfined t (if b then x else y)
if-IsConfined t true x y h g = h
if-IsConfined t false x y h g = g
