-- ===== src/Fence/Verdicts.antt =====
-- supervisor_linux.go: what the kernel answers under the two seccomp programs.
use gmux.Prelude.{
  subst, All, str_eq-cases, drop, ℕ, ◌+◌, ◌==◌, ◌≡◌, inl, inr, Bool, not, ◌&&◌, ◌||◌, List, [], ◌∷◌,
  none, some, if◌then◌else◌, arith, String, ◌≢◌,
}
use gmux.Fence.Filter.{
  Sysnums, SockFilter, insn, arch, bpf_load, bpf_jump_eq, bpf_ret, off_nr, off_arch, off_arg0,
  deny_program, allowlist_program, ret_kill_process, ret_errno, ret_allow, ret_user_notif, eperm,
  af_inet, af_inet6, af_packet, handoff_fd,
}

-- The words of the kernel's struct seccomp_data that the programs read.
pub record Seccomp : Type 0 where
  pub nr : ℕ
  pub arch : ℕ
  pub arg0 : ℕ

-- The kernel's BPF machine: `run is acc d` is the answer of the instructions `is` with the
-- accumulator `acc` on the system call `d`. The laws are what the documents of BPF say of the three
-- instructions used.
pub record Machine : Type 0 where
  pub run : List SockFilter → ℕ → Seccomp → ℕ
  pub load_nr :
      (is : List SockFilter) (acc : ℕ) (d : Seccomp)
      → run (insn bpf_load 0 0 off_nr ∷ is) acc d ≡ run is d.nr d
  pub load_arch :
      (is : List SockFilter) (acc : ℕ) (d : Seccomp)
      → run (insn bpf_load 0 0 off_arch ∷ is) acc d ≡ run is d.arch d
  pub load_arg0 :
      (is : List SockFilter) (acc : ℕ) (d : Seccomp)
      → run (insn bpf_load 0 0 off_arg0 ∷ is) acc d ≡ run is d.arg0 d
  pub jump_eq :
      (jt jf k : ℕ) (is : List SockFilter) (acc : ℕ) (d : Seccomp)
      → run (insn bpf_jump_eq jt jf k ∷ is) acc d
        ≡ (if acc == k then run (drop jt is) acc d else run (drop jf is) acc d)
  pub ret :
      (k : ℕ) (is : List SockFilter) (acc : ℕ) (d : Seccomp)
      → run (insn bpf_ret 0 0 k ∷ is) acc d ≡ k

-- What the deny program is to decide.
unfoldable pub deny_verdict : ℕ → Sysnums → Seccomp → ℕ
deny_verdict a s d =
    if not (d.arch == a)
    then ret_kill_process
    else if (d.nr == s.socket) && (d.arg0 == af_inet || (d.arg0 == af_inet6 || d.arg0 == af_packet))
    then ret_errno + eperm
    else ret_allow

module _ (m : Machine) (a : ℕ) (s : Sysnums) (d : Seccomp) where
  -- The deny program kills the job on a call of another architecture, refuses a socket for the
  -- internet or for packets, and allows everything else.
  pub deny_program_lem : m.run (deny_program a s) 0 d ≡ deny_verdict a s d
  unfolding deny_program deny_verdict
  deny_program_lem = simp (m.load_nr, m.load_arch, m.load_arg0, m.jump_eq, m.ret) (ground arith)

-- The other calls that the supervisor is asked about.
abbrev pub numbers : Sysnums → List ℕ
numbers s =
    s.connect ∷ s.sendto ∷ s.sendmmsg ∷ s.close_s ∷ s.dup ∷ s.dup2 ∷ s.dup3 ∷ s.fcntl ∷ s.socket
    ∷ []

-- The calls that the supervisor is asked about: connect, the sends but a sendmsg on the descriptor
-- of the handoff, close, the duplications, and socket for the internet.
unfoldable pub is_trapped : Sysnums → Seccomp → Bool
is_trapped s d =
    d.nr == s.connect
    || (d.nr == s.sendto
        || (d.nr == s.sendmmsg
            || (d.nr == s.close_s
                || (d.nr == s.dup
                    || (d.nr == s.dup2
                        || (d.nr == s.dup3
                            || (d.nr == s.fcntl
                                || ((d.nr == s.sendmsg && not (d.arg0 == handoff_fd))
                                    || (d.nr == s.socket
                                        && (d.arg0 == af_inet || d.arg0 == af_inet6))))))))))

-- What the allowlist program is to decide.
unfoldable pub allowlist_verdict : ℕ → Sysnums → Seccomp → ℕ
allowlist_verdict a s d =
    if not (d.arch == a)
    then ret_kill_process
    else if is_trapped s d
    then ret_user_notif
    else if d.nr == s.socket && d.arg0 == af_packet
    then ret_errno + eperm
    else ret_allow

module _ (m : Machine) (a : ℕ) (s : Sysnums) (d : Seccomp) where
  run-allowlist_program :
      All (λ k. s.sendmsg ≢ k) (numbers s)
      → m.run (allowlist_program a s) 0 d ≡ allowlist_verdict a s d
  unfolding allowlist_program allowlist_verdict is_trapped
  run-allowlist_program (c0, (c1, (c2, (c3, (c4, (c5, (c6, (c7, (c8, u))))))))) =
      simp (m.load_nr, m.load_arch, m.load_arg0, m.jump_eq, m.ret)
        (ground (arith, c2, c3, c4, c5, c6, c7, c8))

at_some : {A : Type 0} (P : A → Type 0) (x y : A) → some x ≡ some y → P x → P y
at_some P x y e h = subst (λ o. elim o [ none ↦ Unit {0} | some z ↦ P z ]) e h

arch-apart :
    (goarch : String) (a : ℕ) (s : Sysnums)
    → arch goarch ≡ some (a, s)
    → All (λ k. s.sendmsg ≢ k) (numbers s)
unfolding arch
arch-apart goarch a s e = elim (str_eq-cases goarch "amd64") [
  | inl x ↦
      at_some (λ (_, t). All (λ k. t.sendmsg ≢ k) (numbers t)) _ (a, s) (rw x at e) (omega arith)
  | inr x ↦ elim (str_eq-cases goarch "arm64") [
    | inl y ↦
        at_some (λ (_, t). All (λ k. t.sendmsg ≢ k) (numbers t)) _ (a, s) (rw y at e) (omega arith)
    | inr y ↦ let none_here : none ≡ some (a, s) = rw (x, y) at e in absurd (cc (none_here))
  ]
]

-- On each architecture that the fence supports, the allowlist program hands a call to the
-- supervisor exactly when it is a connect, a send other than a sendmsg on the handoff descriptor, a
-- close, a duplication, or a socket for the internet; it refuses a packet socket, kills the job on
-- a call of another architecture, and allows everything else.
pub allowlist_program_lem :
    (m : Machine) (goarch : String) (a : ℕ) (s : Sysnums) (d : Seccomp)
    → arch goarch ≡ some (a, s)
    → m.run (allowlist_program a s) 0 d ≡ allowlist_verdict a s d
allowlist_program_lem m goarch a s d e = run-allowlist_program m a s d (arch-apart goarch a s e)
