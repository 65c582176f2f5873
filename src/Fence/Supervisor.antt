-- ===== src/Fence/Supervisor.antt =====
-- supervisor_linux.go: the supervisor that answers a fenced job's socket calls. A descriptor that
-- may be -1 is an Option, whose `none` is -1; the table, a map, is a function.
use gmux.Prelude.{ℕ, ◌+◌, ◌%◌, ◌==◌, Bool, not, ◌&&◌, ◌||◌, Option, none, some, if◌then◌else◌}
use gmux.Fence.Filter.{Sysnums, af_inet, af_inet6}

-- The notification's fields that the supervisor reads; nr is its uint32.
pub record NotifReq : Type 0 where
  pub nr : ℕ
  pub arg0 : ℕ
  pub arg1 : ℕ

pub record Entry : Type 0 where
  pub kind : ℕ
  pub fd : Option ℕ

abbrev pub Table : Type 0
Table = ℕ → Option Entry

abbrev pub update : {A : Type 0} → ℕ → A → (ℕ → A) → ℕ → A
update k v f i = if i == k then v else f i

pub record Supervisor : Type 0 where
  pub sn : Sysnums
  pub table : Table
  pub injected : ℕ
  pub refused : ℕ

-- What the kernel answers to the supervisor's own calls while it handles one notification, where
-- it makes them: socket, the validity of the notification, connect, the descriptor that addfd put
-- into the job, and the two dups.
pub record Kernel : Type 0 where
  pub socket : Option ℕ
  pub valid : Bool
  pub connect : Bool
  pub added : Option ℕ
  pub dup : Option ℕ
  pub second_dup : Option ℕ

-- The answer to the job: let the kernel go on, -eperm, -econnrefused, a value, or none.
pub data Response : Type 0 where
  cont deny connrefused silent : Response
  value : ℕ → Response

-- The answer, the supervisor's socket that addfd put into the job, if any, and the next state.
pub record Outcome : Type 0 where
  pub response : Response
  pub placed : Option ℕ
  pub next : Supervisor

abbrev pub uint32 : ℕ → ℕ
uint32 n = n % 4294967296

abbrev pub sock_stream : ℕ
sock_stream = 1

abbrev pub sock_dgram : ℕ
sock_dgram = 2

abbrev pub f_dup_fd : ℕ
f_dup_fd = 0

abbrev pub f_dup_fd_cloexec : ℕ
f_dup_fd_cloexec = 1030

abbrev pub answers : Response → Supervisor → Outcome
answers r s = record { response = r; placed = none; next = s }

-- `deny`.
unfoldable pub refuse : Supervisor → Outcome
refuse s = record { response = deny; placed = none; next = record s { refused = s.refused + 1 } }

-- `onSocket`, once the domain and the kind are good.
unfoldable pub give_socket : ℕ → Kernel → Supervisor → Outcome
unfolding refuse
give_socket kind k s = elim k.socket [
  | none ↦ refuse s
  | some sock ↦ if not k.valid then answers silent s else elim k.added [
    | none ↦ refuse s
    | some fd ↦ record {
      response = value fd;
      placed = some sock;
      next = record s {
        table = update (uint32 fd) (some (record { kind = kind; fd = none })) s.table;
      };
    }
  ]
]

-- `onSocket`.
unfoldable pub on_socket : NotifReq → Kernel → Supervisor → Outcome
unfolding give_socket refuse
on_socket req k s =
    if not (req.arg0 == af_inet) && not (req.arg0 == af_inet6)
    then refuse s
    else if not (req.arg1 % 16 == sock_stream) && not (req.arg1 % 16 == sock_dgram)
    then refuse s
    else give_socket (req.arg1 % 16) k s

-- `dial`: a socket of the kind, connected to the proxy or to the stub.
unfoldable pub dial : Kernel → Option ℕ
dial k = elim k.socket [ none ↦ none | some sock ↦ if k.connect then some sock else none ]

-- `onConnect`, on a descriptor of the table.
unfoldable pub redirect : ℕ → Entry → Kernel → Supervisor → Outcome
unfolding dial refuse
redirect jobfd e k s = elim (dial k) [
  | none ↦ answers connrefused s
  | some relay ↦ if not k.valid then answers silent s else elim k.added [
    | none ↦ refuse s
    | some fd ↦ record {
      response = value 0;
      placed = some relay;
      next = record s {
        table = update jobfd (some (record { kind = e.kind; fd = some relay })) s.table;
        injected = s.injected + 1;
      };
    }
  ]
]

-- `onConnect`.
unfoldable pub on_connect : NotifReq → Kernel → Supervisor → Outcome
unfolding redirect
on_connect req k s = elim (s.table (uint32 req.arg0)) [
  | none ↦ answers cont s
  | some e ↦ redirect (uint32 req.arg0) e k s
]

-- `onDup`, on a connected descriptor.
unfoldable pub dup_relay : Entry → ℕ → Kernel → Supervisor → Outcome
unfolding refuse
dup_relay e relay k s = elim k.dup [
  | none ↦ refuse s
  | some dup ↦ elim k.added [
    | none ↦ refuse s
    | some fd ↦ record {
      response = value fd;
      placed = some dup;
      next = record s {
        table = update (uint32 fd) (some (record { kind = e.kind; fd = k.second_dup })) s.table;
      };
    }
  ]
]

-- `onDup`, on a descriptor of the table, for another call than fcntl.
unfoldable pub dup_ours : Entry → Kernel → Supervisor → Outcome
unfolding dup_relay
dup_ours e k s =
    if not k.valid
    then answers silent s
    else elim e.fd [ none ↦ answers cont s | some relay ↦ dup_relay e relay k s ]

-- `onDup`, for fcntl.
unfoldable pub on_fcntl : NotifReq → Supervisor → Outcome
unfolding refuse
on_fcntl req s =
    if not (req.arg1 == f_dup_fd) && not (req.arg1 == f_dup_fd_cloexec)
    then answers cont s
    else elim (s.table (uint32 req.arg0)) [ none ↦ answers cont s | some e ↦ refuse s ]

-- `onDup`.
unfoldable pub on_dup : NotifReq → Kernel → Supervisor → Outcome
unfolding on_fcntl dup_ours
on_dup req k s = if req.nr == s.sn.fcntl then on_fcntl req s else elim (s.table (uint32 req.arg0)) [
  | none ↦
      if (req.nr == s.sn.dup2) || (req.nr == s.sn.dup3)
      then answers cont (record s { table = update (uint32 req.arg1) none s.table })
      else answers cont s
  | some e ↦ dup_ours e k s
]

-- The sends.
unfoldable pub on_send : NotifReq → Supervisor → Outcome
unfolding refuse
on_send req s = elim (s.table (uint32 req.arg0)) [
  | none ↦ answers cont s
  | some e ↦ elim e.fd [ none ↦ refuse s | some relay ↦ answers cont s ]
]

-- `handle`.
unfoldable pub handle : NotifReq → Kernel → Supervisor → Outcome
unfolding on_socket on_connect on_dup on_send
handle req k s =
    if req.nr == s.sn.socket
    then on_socket req k s
    else if req.nr == s.sn.close_s
    then answers cont (record s { table = update (uint32 req.arg0) none s.table })
    else if req.nr == s.sn.connect
    then on_connect req k s
    else if (req.nr == s.sn.dup)
        || ((req.nr == s.sn.dup2) || ((req.nr == s.sn.dup3) || (req.nr == s.sn.fcntl)))
    then on_dup req k s
    else on_send req s
