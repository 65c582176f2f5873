-- ===== src/Examples/Fence.antt =====
-- internal/fence on small inputs.
use gmux.Prelude.{
  none, some, arith, ◌≢◌, ℕ, zero, suc, ◌==◌, ◌≡◌, refl, Bool, true, false, List, [], ◌∷◌, drop,
  if◌then◌else◌,
}
use gmux.Fence.Filter.{
  Sysnums, SockFilter, arch, bpf_load, bpf_jump_eq, off_nr, off_arch, deny_program,
  allowlist_program, ret_allow, ret_user_notif,
}
use gmux.Fence.Supervisor.{
  Entry, Supervisor, NotifReq, Kernel, update, cont, handle, on_send, on_connect, on_dup,
}
use gmux.Fence.Job.{
  Job, IsConfined, IsPlain, Agrees, unconnected, other, update-IsConfined, copy-IsConfined, applied,
  goes_on,
}
use gmux.Fence.Confinement.{handle-IsConfined, handle-cont}
use gmux.Fence.Verdicts.{
  Machine, Seccomp, deny_verdict, allowlist_verdict, is_trapped, deny_program_lem,
  allowlist_program_lem,
}

-- A machine for the instructions that the programs use.
abbrev load : ℕ → Seccomp → ℕ
load k d = if k == off_nr then d.nr else if k == off_arch then d.arch else d.arg0

abbrev exec : ℕ → List SockFilter → ℕ → Seccomp → ℕ
exec n [] acc d = 0
exec (suc n) (i ∷ is) acc d = exec n is acc d
exec zero (i ∷ is) acc d = elim (i.code == bpf_load) [
  | true ↦ exec 0 is (load i.k d) d
  | false ↦ elim (i.code == bpf_jump_eq) [
    | true ↦ elim (acc == i.k) [ true ↦ exec i.jt is acc d | false ↦ exec i.jf is acc d ]
    | false ↦ i.k
  ]
]

exec-drop :
    (n : ℕ) (is : List SockFilter) (acc : ℕ) (d : Seccomp)
    → exec n is acc d ≡ exec 0 (drop n is) acc d
exec-drop zero is acc d = refl
exec-drop (suc n) [] acc d = refl
exec-drop (suc n) (i ∷ is) acc d = exec-drop n is acc d

branch-drop :
    (b : Bool) (jt jf : ℕ) (is : List SockFilter) (acc : ℕ) (d : Seccomp)
    → elim b [ true ↦ exec jt is acc d | false ↦ exec jf is acc d ]
      ≡ (if b then exec 0 (drop jt is) acc d else exec 0 (drop jf is) acc d)
branch-drop true jt jf is acc d = exec-drop jt is acc d
branch-drop false jt jf is acc d = exec-drop jf is acc d

abbrev machine : Machine
machine = record {
  run = exec 0;
  load_nr = λ is acc d. refl;
  load_arch = λ is acc d. refl;
  load_arg0 = λ is acc d. refl;
  jump_eq = λ jt jf k is acc d. branch-drop (acc == k) jt jf is acc d;
  ret = λ k is acc d. refl;
}

abbrev amd64 : Sysnums
amd64 = record {
  socket = 41;
  connect = 42;
  sendto = 44;
  sendmsg = 46;
  sendmmsg = 307;
  close_s = 3;
  dup = 32;
  dup2 = 33;
  dup3 = 292;
  fcntl = 72;
}

abbrev calls : ℕ → ℕ → Seccomp
calls nr arg0 = record { nr = nr; arch = 0xC000003E; arg0 = arg0 }

deny_program_lem_example : machine.run (deny_program 0xC000003E amd64) 0 (calls 41 10) ≡ 0x00050001
unfolding deny_verdict
deny_program_lem_example = deny_program_lem machine 0xC000003E amd64 (calls 41 10)

-- A connect goes to the supervisor, a sendmsg on the handoff descriptor does not.
allowlist_program_lem_example :
    machine.run (allowlist_program 0xC000003E amd64) 0 (calls 42 3) ≡ ret_user_notif
unfolding allowlist_verdict is_trapped arch
allowlist_program_lem_example =
    allowlist_program_lem machine "amd64" 0xC000003E amd64 (calls 42 3) refl

handoff : machine.run (allowlist_program 0xC000003E amd64) 0 (calls 46 1023) ≡ ret_allow
unfolding allowlist_program
handoff = refl

-- A process with an unconnected socket at 3 and a file at 5.
abbrev fresh_socket : Entry
fresh_socket = record { kind = 1; fd = none }

abbrev supervisor : Supervisor
supervisor = record {
  sn = amd64;
  table = update 3 (some fresh_socket) (λ fd. none);
  injected = 0;
  refused = 0;
}

abbrev process : Job
process = update 3 (some unconnected) (update 5 (some other) (λ fd. none))

abbrev connect_3 : NotifReq
connect_3 = record { nr = 42; arg0 = 3; arg1 = 0 }

abbrev send_5 : NotifReq
send_5 = record { nr = 44; arg0 = 5; arg1 = 0 }

abbrev willing : Kernel
willing = record {
  socket = some 9;
  valid = true;
  connect = true;
  added = some 3;
  dup = none;
  second_dup = none;
}

process-IsConfined : IsConfined supervisor.table process
unfolding IsConfined Agrees
process-IsConfined =
    update-IsConfined (λ fd. none) (update 5 (some other) (λ fd. none))
      (copy-IsConfined (λ fd. none) (λ fd. none) (λ fd. tt) 5 (some other) tt) 3 (some fresh_socket)
      (some unconnected) refl

connect_3-IsPlain : IsPlain amd64 6 connect_3 willing process
connect_3-IsPlain = record {
  connected = λ e. absurd (cc (e));
  source_open = λ e. absurd (cc (e));
  fresh_free = refl;
  placed_there = λ e fd h. ground (arith, h);
}

send_5-IsPlain : IsPlain amd64 6 send_5 willing process
send_5-IsPlain = record {
  connected = λ e. absurd (cc (e));
  source_open = λ e. absurd (cc (e));
  fresh_free = refl;
  placed_there = λ e. absurd (cc (e));
}

handle-IsConfined_example :
    IsConfined
      (handle connect_3 willing supervisor).next.table
      (applied amd64 6 connect_3 willing (handle connect_3 willing supervisor).response process)
handle-IsConfined_example =
    handle-IsConfined connect_3 willing supervisor process 6 process-IsConfined connect_3-IsPlain

handle-cont_example : process 5 ≢ some unconnected
unfolding handle on_send
handle-cont_example =
    handle-cont send_5 willing supervisor process 6 process-IsConfined send_5-IsPlain refl refl refl
      refl

-- A dup2 of the closed descriptor 7 onto 3 fails, but the supervisor forgets 3, and then it lets a
-- connect on it go on.
abbrev dup2_7_3 : NotifReq
dup2_7_3 = record { nr = 33; arg0 = 7; arg1 = 3 }

forgotten : (handle connect_3 willing (handle dup2_7_3 willing supervisor).next).response ≡ cont
unfolding handle on_connect on_dup
forgotten = refl

left_open :
    applied amd64 6 dup2_7_3 willing (handle dup2_7_3 willing supervisor).response process 3
    ≡ some unconnected
unfolding handle on_dup applied goes_on
left_open = refl
