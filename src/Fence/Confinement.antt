-- ===== src/Fence/Confinement.antt =====
-- supervisor_linux.go: a fenced process holds no socket that it could connect by itself.
use gmux.Prelude.{
  subst, ℕ, ◌%◌, ◌==◌, ◌≡◌, ◌≢◌, refl, inl, inr, Bool, true, false, not, ◌&&◌, ◌||◌, none, some,
  if◌then◌else◌, arith, Bool-cases, Option-cases,
}
use gmux.Fence.Filter.{af_inet, af_inet6}
use gmux.Fence.Supervisor.{
  deny, answers, sock_stream, sock_dgram, NotifReq, Entry, Supervisor, Kernel, Outcome, cont,
  silent, update, uint32, handle, on_socket, give_socket, on_connect, redirect, dial, on_dup,
  on_fcntl, dup_ours, dup_relay, on_send, refuse,
}
use gmux.Fence.Job.{
  unconnected, relayed, Job, is_dup, copy_to, goes_on, applied, Agrees, IsConfined, IsPlain,
  Agrees-none_untracked, Agrees-untracked, tracked-relayed, Agrees-relayed, update-IsConfined,
  copy-IsConfined, copy_to-IsConfined, forget-IsConfined, if-IsConfined,
}

module _ (req : NotifReq) (k : Kernel) (s : Supervisor) (j : Job) (fresh : ℕ)
    (good : IsConfined s.table j) (plain : IsPlain s.sn fresh req k j) where
  abbrev Keeps : Outcome → Type 0
  Keeps o = IsConfined o.next.table (applied s.sn fresh req k o.response j)

  Keeps-if : (b : Bool) (x y : Outcome) → Keeps x → Keeps y → Keeps (if b then x else y)
  Keeps-if true x y h g = h
  Keeps-if false x y h g = g

  refuse-Keeps : Keeps (refuse s)
  unfolding refuse applied
  refuse-Keeps = good

  give_socket-Keeps : (kind : ℕ) → (req.nr == s.sn.socket) ≡ true → Keeps (give_socket kind k s)
  unfolding give_socket refuse applied Agrees
  give_socket-Keeps kind e = elim (Option-cases k.socket) [
    | inl x ↦ rw x good
    | inr (sock, x) ↦ rw x (
        Keeps-if (not k.valid) _ _ good (elim (Option-cases k.added) [
          | inl y ↦ rw y good
          | inr (fd, y) ↦ rw (y, e) (update-IsConfined s.table j good (uint32 fd) _ _ refl)
        ]))
  ]

  on_socket-Keeps : (req.nr == s.sn.socket) ≡ true → Keeps (on_socket req k s)
  unfolding on_socket
  on_socket-Keeps e =
      let kind = req.arg1 % 16 in
      let rest =
        Keeps-if (not (kind == sock_stream) && not (kind == sock_dgram)) (refuse s)
          (give_socket kind k s) refuse-Keeps (give_socket-Keeps kind e) in
      Keeps-if (not (req.arg0 == af_inet) && not (req.arg0 == af_inet6)) (refuse s)
        (if not (kind == sock_stream) && not (kind == sock_dgram)
          then refuse s
          else give_socket kind k s)
        refuse-Keeps rest

  close-Keeps :
      (req.nr == s.sn.socket) ≡ false
      → (req.nr == s.sn.close_s) ≡ true
      → IsConfined (update (uint32 req.arg0) none s.table) (goes_on s.sn fresh req j)
  unfolding goes_on Agrees
  close-Keeps a b = rw (a, b) (update-IsConfined s.table j good (uint32 req.arg0) none none tt)

  redirect-Keeps :
      (e : Entry)
      → (req.nr == s.sn.socket) ≡ false
      → (req.nr == s.sn.connect) ≡ true
      → Keeps (redirect (uint32 req.arg0) e k s)
  unfolding redirect refuse applied Agrees
  redirect-Keeps e a c = elim (Option-cases (dial k)) [
    | inl x ↦ rw (x, redirect) good
    | inr (relay, x) ↦
        rw (x, redirect)
          (Keeps-if (not k.valid) _ _ good (elim (Option-cases k.added) [
            | inl y ↦ rw y good
            | inr (fd, y) ↦
                rw (y, a, plain.placed_there c fd y)
                  (update-IsConfined s.table j good (uint32 req.arg0) _ _ tt)
          ]))
  ]

  on_connect-Keeps :
      (req.nr == s.sn.socket) ≡ false
      → (req.nr == s.sn.close_s) ≡ false
      → (req.nr == s.sn.connect) ≡ true
      → Keeps (on_connect req k s)
  unfolding on_connect applied goes_on
  on_connect-Keeps a b c = elim (Option-cases (s.table (uint32 req.arg0))) [
    | inl x ↦ rw (x, on_connect, a, b, c) good
    | inr (e, x) ↦ rw (x, on_connect) (redirect-Keeps e a c)
  ]

  dup_ours-Keeps :
      (e : Entry)
      → s.table (uint32 req.arg0) ≡ some e
      → (req.nr == s.sn.socket) ≡ false
      → (req.nr == s.sn.close_s) ≡ false
      → (req.nr == s.sn.connect) ≡ false
      → (req.nr == s.sn.fcntl) ≡ false
      → is_dup s.sn req ≡ true
      → Keeps (dup_ours e k s)
  unfolding dup_ours dup_relay refuse applied goes_on IsConfined
  dup_ours-Keeps e there a b c f g =
      let d : (req.nr == s.sn.dup) || ((req.nr == s.sn.dup2) || (req.nr == s.sn.dup3)) ≡ true =
        ground (arith, f, g) in
      let held : j (uint32 req.arg0) ≡ some relayed =
        tracked-relayed _ e _ there (plain.connected d) (good (uint32 req.arg0)) in
      Keeps-if (not k.valid) (answers silent s)
        (elim e.fd [ none ↦ answers cont s | some relay ↦ dup_relay e relay k s ]) good
        (elim (Option-cases e.fd) [
          | inl x ↦
              rw (x, a, b, c, g, f, held)
                (if-IsConfined s.table ((req.nr == s.sn.dup2) || (req.nr == s.sn.dup3)) _ _
                  (copy-IsConfined s.table j good (uint32 req.arg1) (some relayed)
                    (Agrees-relayed _))
                  (copy-IsConfined s.table j good fresh (some relayed) (Agrees-relayed _)))
          | inr (relay, x) ↦ rw x (elim (Option-cases k.dup) [
            | inl y ↦ rw (y, dup_relay) good
            | inr (dup, y) ↦
                rw (y, dup_relay)
                  (elim (Option-cases k.added) [
                    | inl z ↦ rw z good
                    | inr (fd, z) ↦
                        rw (z, a)
                          (update-IsConfined s.table j good (uint32 fd) _ _ (Agrees-relayed _))
                  ])
          ])
        ])

  source-untracked : s.table (uint32 req.arg0) ≡ none → Agrees none (j (uint32 req.arg0))
  unfolding IsConfined
  source-untracked x = subst (λ e. Agrees e (j (uint32 req.arg0))) x (good (uint32 req.arg0))

  onto_fresh :
      s.table (uint32 req.arg0) ≡ none → IsConfined s.table (copy_to fresh (j (uint32 req.arg0)) j)
  unfolding IsConfined
  onto_fresh x = copy_to-IsConfined s.table j good fresh (j (uint32 req.arg0)) (
      rw (Agrees-none_untracked (j fresh) (s.table fresh) plain.fresh_free (good fresh))
        (source-untracked x))

  on_fcntl-Keeps :
      (req.nr == s.sn.socket) ≡ false
      → (req.nr == s.sn.close_s) ≡ false
      → (req.nr == s.sn.connect) ≡ false
      → (req.nr == s.sn.fcntl) ≡ true
      → is_dup s.sn req ≡ true
      → Keeps (on_fcntl req s)
  unfolding on_fcntl refuse applied goes_on
  on_fcntl-Keeps a b c f g = elim (Bool-cases (not (req.arg1 == 0) && not (req.arg1 == 1030))) [
    | inl q ↦ rw (q, a, b, c, g, f, q) good
    | inr q ↦ elim (Option-cases (s.table (uint32 req.arg0))) [
      | inl x ↦ rw (q, x, a, b, c, g, f, q) (onto_fresh x)
      | inr (e, x) ↦ rw (q, x) good
    ]
  ]

  on_dup-Keeps :
      (req.nr == s.sn.socket) ≡ false
      → (req.nr == s.sn.close_s) ≡ false
      → (req.nr == s.sn.connect) ≡ false
      → is_dup s.sn req ≡ true
      → Keeps (on_dup req k s)
  unfolding on_dup applied goes_on
  on_dup-Keeps a b c g = elim (Bool-cases (req.nr == s.sn.fcntl)) [
    | inl f ↦ rw (f, on_dup) (on_fcntl-Keeps a b c f g)
    | inr f ↦ elim (Option-cases (s.table (uint32 req.arg0))) [
      | inr (e, x) ↦ rw (f, x, on_dup) (dup_ours-Keeps e x a b c f g)
      | inl x ↦ elim (Bool-cases ((req.nr == s.sn.dup2) || (req.nr == s.sn.dup3))) [
        | inl onto ↦
            rw (f, x, on_dup, onto, a, b, c, g, f, onto)
              (forget-IsConfined s.table j good (uint32 req.arg1) (j (uint32 req.arg0))
                (plain.source_open onto) (source-untracked x))
        | inr plain_dup ↦ rw (f, x, on_dup, plain_dup, a, b, c, g, f, plain_dup) (onto_fresh x)
      ]
    ]
  ]

  on_send-Keeps :
      (req.nr == s.sn.socket) ≡ false
      → (req.nr == s.sn.close_s) ≡ false
      → (req.nr == s.sn.connect) ≡ false
      → is_dup s.sn req ≡ false
      → Keeps (on_send req s)
  unfolding on_send applied goes_on refuse
  on_send-Keeps a b c g = elim (Option-cases (s.table (uint32 req.arg0))) [
    | inl x ↦ rw (x, on_send, a, b, c, g) good
    | inr (e, x) ↦ elim (Option-cases e.fd) [
      | inl y ↦ rw (x, y, on_send) good
      | inr (r, y) ↦ rw (x, y, on_send, a, b, c, g) good
    ]
  ]

  -- Take a job of one process whose unconnected internet sockets the supervisor all knows. After
  -- any call that the supervisor is asked about it knows them all again, whatever the kernel answers
  -- to the supervisor's own calls, as long as the call duplicates no unconnected socket and no closed
  -- descriptor, a free descriptor is chosen for a duplicate, and addfd replaces the one asked for.
  pub handle-IsConfined : Keeps (handle req k s)
  unfolding handle applied
  handle-IsConfined = elim (Bool-cases (req.nr == s.sn.socket)) [
    | inl a ↦ rw (handle, a) (on_socket-Keeps a)
    | inr a ↦ elim (Bool-cases (req.nr == s.sn.close_s)) [
      | inl b ↦ rw (handle, a, b) (close-Keeps a b)
      | inr b ↦ elim (Bool-cases (req.nr == s.sn.connect)) [
        | inl c ↦ rw (handle, a, b, c) (on_connect-Keeps a b c)
        | inr c ↦ elim (Bool-cases (is_dup s.sn req)) [
          | inl g ↦ rw (handle, a, b, c, g) (on_dup-Keeps a b c g)
          | inr g ↦ rw (handle, a, b, c, g) (on_send-Keeps a b c g)
        ]
      ]
    ]
  ]

  unconnected_unknown :
      (e : Entry) (r : ℕ)
      → e.fd ≡ some r
      → j (uint32 req.arg0) ≡ some unconnected
      → Agrees (some e) (j (uint32 req.arg0))
      → ⊥
  unfolding Agrees
  unconnected_unknown e r x u h =
      let unset : e.fd ≡ none = subst (Agrees (some e)) u h in absurd (cc (unset, x))

  redirect-answers : (e : Entry) → (redirect (uint32 req.arg0) e k s).response ≢ cont
  unfolding redirect refuse
  redirect-answers e = ground (arith)

  -- For such a job and such a call, when the call is a connect or a send, the supervisor does not
  -- let it go on if its socket is an unconnected internet socket.
  pub handle-cont :
      (req.nr == s.sn.socket) ≡ false
      → (req.nr == s.sn.close_s) ≡ false
      → is_dup s.sn req ≡ false
      → (handle req k s).response ≡ cont
      → j (uint32 req.arg0) ≢ some unconnected
  unfolding handle on_connect on_send refuse IsConfined
  handle-cont a b g go u = elim (Option-cases (s.table (uint32 req.arg0))) [
    | inl x ↦ Agrees-untracked _ (source-untracked x) u
    | inr (e, x) ↦ elim (Bool-cases (req.nr == s.sn.connect)) [
      | inl c ↦ redirect-answers e (rw (handle, a, b, c, x, on_connect) at go)
      | inr c ↦ elim (Option-cases e.fd) [
        | inl y ↦
            let refused : deny ≡ cont = rw (handle, a, b, c, g, on_send, x, y) at go in
            absurd (cc (refused))
        | inr (r, y) ↦
            unconnected_unknown e r y u
              (subst (λ t. Agrees t (j (uint32 req.arg0))) x (good (uint32 req.arg0)))
      ]
    ]
  ]
