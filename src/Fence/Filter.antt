-- ===== src/Fence/Filter.antt =====
-- supervisor_linux.go: the system calls by architecture and the two seccomp programs.
use gmux.Prelude.{ℕ, ◌+◌, ◌-◌, String, List, [], ◌∷◌, Option, none, some, if◌then◌else◌, str_eq}

abbrev pub ret_kill_process : ℕ
ret_kill_process = 0x80000000

abbrev pub ret_errno : ℕ
ret_errno = 0x00050000

abbrev pub ret_allow : ℕ
ret_allow = 0x7FFF0000

abbrev pub ret_user_notif : ℕ
ret_user_notif = 0x7FC00000

abbrev pub eperm : ℕ
eperm = 1

abbrev pub af_inet : ℕ
af_inet = 2

abbrev pub af_inet6 : ℕ
af_inet6 = 10

abbrev pub af_packet : ℕ
af_packet = 17

abbrev pub handoff_fd : ℕ
handoff_fd = 1023

pub record Sysnums : Type 0 where
  pub socket : ℕ
  pub connect : ℕ
  pub sendto : ℕ
  pub sendmsg : ℕ
  pub sendmmsg : ℕ
  pub close_s : ℕ
  pub dup : ℕ
  pub dup2 : ℕ
  pub dup3 : ℕ
  pub fcntl : ℕ

-- `arch`, of a value of runtime.GOARCH; `none` is its false.
unfoldable pub arch : String → Option (ℕ × Sysnums)
arch goarch =
    if str_eq goarch "amd64"
    then some (
      0xC000003E,
      record {
        socket = 41;
        connect = 42;
        sendto = 44;
        sendmsg = 46;
        sendmmsg = 307;
        close_s = 3;
        dup = 32;
        dup2 = 33;
        dup3 = 292;
        fcntl = 72;
      },
    )
    else if str_eq goarch "arm64"
    then some (
      0xC00000B7,
      record {
        socket = 198;
        connect = 203;
        sendto = 206;
        sendmsg = 211;
        sendmmsg = 269;
        close_s = 57;
        dup = 23;
        dup2 = 0xFFFFFFFF;
        dup3 = 24;
        fcntl = 25;
      },
    )
    else none

pub record SockFilter : Type 0 where
  pub code : ℕ
  pub jt : ℕ
  pub jf : ℕ
  pub k : ℕ

abbrev pub insn : ℕ → ℕ → ℕ → ℕ → SockFilter
insn code jt jf k = record { code = code; jt = jt; jf = jf; k = k }

-- The bits of these sums are apart, so each is the `|` that the code writes.
abbrev pub bpf_load : ℕ
bpf_load = 0x00 + 0x00 + 0x20

abbrev pub bpf_jump_eq : ℕ
bpf_jump_eq = 0x05 + 0x10 + 0x00

abbrev pub bpf_ret : ℕ
bpf_ret = 0x06 + 0x00

abbrev pub off_nr : ℕ
off_nr = 0

abbrev pub off_arch : ℕ
off_arch = 4

abbrev pub off_arg0 : ℕ
off_arg0 = 16

-- `denyProgram`.
unfoldable pub deny_program : ℕ → Sysnums → List SockFilter
deny_program a s =
    insn bpf_load 0 0 off_arch
    ∷ insn bpf_jump_eq 1 0 a
    ∷ insn bpf_ret 0 0 ret_kill_process
    ∷ insn bpf_load 0 0 off_nr
    ∷ insn bpf_jump_eq 0 5 s.socket
    ∷ insn bpf_load 0 0 off_arg0
    ∷ insn bpf_jump_eq 2 0 af_inet
    ∷ insn bpf_jump_eq 1 0 af_inet6
    ∷ insn bpf_jump_eq 0 1 af_packet
    ∷ insn bpf_ret 0 0 (ret_errno + eperm)
    ∷ insn bpf_ret 0 0 ret_allow
    ∷ []

abbrev notify_pc : ℕ
notify_pc = 21

abbrev eperm_pc : ℕ
eperm_pc = 22

abbrev allow_pc : ℕ
allow_pc = 23

-- `here`: the jump from an instruction to a target behind it.
abbrev here : ℕ → ℕ → ℕ
here i target = target - (i + 1)

abbrev notify_if : ℕ → ℕ → SockFilter
notify_if i k = insn bpf_jump_eq (here i notify_pc) 0 k

-- `allowlistProgram`.
unfoldable pub allowlist_program : ℕ → Sysnums → List SockFilter
allowlist_program a s =
    insn bpf_load 0 0 off_arch
    ∷ insn bpf_jump_eq 1 0 a
    ∷ insn bpf_ret 0 0 ret_kill_process
    ∷ insn bpf_load 0 0 off_nr
    ∷ notify_if 4 s.connect
    ∷ notify_if 5 s.sendto
    ∷ insn bpf_jump_eq 0 3 s.sendmsg
    ∷ insn bpf_load 0 0 off_arg0
    ∷ insn bpf_jump_eq (here 8 allow_pc) 0 handoff_fd
    ∷ insn bpf_ret 0 0 ret_user_notif
    ∷ notify_if 10 s.sendmmsg
    ∷ notify_if 11 s.close_s
    ∷ notify_if 12 s.dup
    ∷ notify_if 13 s.dup2
    ∷ notify_if 14 s.dup3
    ∷ notify_if 15 s.fcntl
    ∷ insn bpf_jump_eq 0 (here 16 allow_pc) s.socket
    ∷ insn bpf_load 0 0 off_arg0
    ∷ insn bpf_jump_eq (here 18 eperm_pc) 0 af_packet
    ∷ notify_if 19 af_inet
    ∷ insn bpf_jump_eq (here 20 notify_pc) (here 20 allow_pc) af_inet6
    ∷ insn bpf_ret 0 0 ret_user_notif
    ∷ insn bpf_ret 0 0 (ret_errno + eperm)
    ∷ insn bpf_ret 0 0 ret_allow
    ∷ []
