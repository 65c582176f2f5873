-- ===== src/Runtime/Launch.antt =====
-- internal/runtime/runtime.go and fenceChild of cmd/gmux/main.go: the environment and the command of
-- a job's process. What the system answers is an input.
use gmux.Prelude.{
  ℕ, ◌+◌, ◌==◌, Bool, true, false, not, List, [], ◌∷◌, ◌++◌, map, Option, none, some, if◌then◌else◌,
  Result, ok, err, sort_stable,
}
use gmux.Fence.Bytes.{Bytes, eq_bytes}
use gmux.Commands.Flags.{dashes}
use gmux.Maps.{store}
use gmux.Session.{bytes_before}

abbrev pub Vars : Type 0
Vars = List (Bytes × Bytes)

abbrev pub extend : ℕ → Option (Bytes × Bytes) → Option (Bytes × Bytes)
extend c none = none
extend c (some (k, v)) = some (c ∷ k, v)

-- What stands before and behind the first '='.
unfoldable pub cut : Bytes → Option (Bytes × Bytes)
cut [] = none
cut (c ∷ s) = if c == 61 then some ([], s) else extend c (cut s)

-- A variable of the daemon's own, if it has a name.
unfoldable pub inherit : Option (Bytes × Bytes) → Vars → Vars
unfolding store
inherit none m = m
inherit (some ([], v)) m = m
inherit (some (c ∷ k, v)) m = store (c ∷ k) v m

unfoldable pub inherit_all : List Bytes → Vars → Vars
unfolding cut inherit
inherit_all [] m = m
inherit_all (kv ∷ base) m = inherit_all base (inherit (cut kv) m)

unfoldable pub set_all : Vars → Vars → Vars
unfolding store
set_all [] m = m
set_all ((k, v) ∷ extra) m = set_all extra (store k v m)

abbrev pub joined : Bytes × Bytes → Bytes
joined (k, v) = k ++ 61 ∷ v

-- `env`.
unfoldable pub env : List Bytes → Vars → List Bytes
unfolding inherit_all set_all
env base extra = sort_stable bytes_before (map joined (set_all extra (inherit_all base [])))

pub record Spec : Type 0 where
  pub id : Bytes
  pub command : List Bytes
  pub vars : Vars
  pub dir : Bytes
  pub allow : List Bytes
  pub deny_net : Bool
  pub self_path : Bytes

-- An `exec.Cmd`, and whether it is given the socket to the supervisor.
pub record Cmd : Type 0 where
  pub path : Bytes
  pub args : List Bytes
  pub vars : List Bytes
  pub dir : Bytes
  pub socket : Bool

-- `fence_served` is what StartFenced returns, `none` in a build that has none.
pub record Launcher : Type 0 where
  pub environ : List Bytes
  pub socketpair : Bool
  pub starts : Bool
  pub fence_served : Option Bool

pub data StartError : Type 0 where
  no_command no_fence no_socket not_started : StartError
  -- The process is killed again.
  fence_failed : Cmd → StartError

-- "__fence", "--deny", "--allowlist" and "--".
abbrev pub fence_word : Bytes
fence_word = 95 ∷ 95 ∷ 102 ∷ 101 ∷ 110 ∷ 99 ∷ 101 ∷ []

abbrev pub deny_word : Bytes
deny_word = 45 ∷ 45 ∷ 100 ∷ 101 ∷ 110 ∷ 121 ∷ []

abbrev pub allowlist_word : Bytes
allowlist_word = 45 ∷ 45 ∷ 97 ∷ 108 ∷ 108 ∷ 111 ∷ 119 ∷ 108 ∷ 105 ∷ 115 ∷ 116 ∷ []

abbrev pub fence_args : Bytes → List Bytes → List Bytes
fence_args mode command = fence_word ∷ mode ∷ dashes ∷ command

-- `cmd.Start`.
abbrev pub started : Bool → Cmd → Result StartError Cmd
started b cmd = if b then ok cmd else err not_started

-- `startFenced`.
unfoldable pub start_fenced : Launcher → Spec → List Bytes → Result StartError Cmd
start_fenced l s full = elim l.fence_served [
  | none ↦ err no_fence
  | some served ↦
      let cmd : Cmd = record {
        path = s.self_path;
        args = fence_args allowlist_word s.command;
        vars = full;
        dir = s.dir;
        socket = true;
      } in
      if not l.socketpair
      then err no_socket
      else if not l.starts
      then err not_started
      else if served
      then ok cmd
      else err (fence_failed cmd)
]

abbrev pub is_nil : List Bytes → Bool
is_nil [] = true
is_nil (a ∷ as') = false

abbrev pub direct : Spec → List Bytes → List Bytes → Cmd
direct s full [] = record { path = []; args = []; vars = full; dir = s.dir; socket = false }
direct s full (c ∷ args) = record {
  path = c;
  args = args;
  vars = full;
  dir = s.dir;
  socket = false;
}

-- `Start`.
unfoldable pub start : Launcher → Spec → Result StartError Cmd
unfolding env start_fenced
start l s =
    let full = env l.environ s.vars in
    if is_nil s.command
    then err no_command
    else if s.deny_net
    then started l.starts (record {
      path = s.self_path;
      args = fence_args deny_word s.command;
      vars = full;
      dir = s.dir;
      socket = false;
    })
    else if not (is_nil s.allow)
    then start_fenced l s full
    else started l.starts (direct s full s.command)

-- What `fenceChild` of the program that a fenced command runs does.
pub data Child : Type 0 where
  denied allowed : List Bytes → Child
  unknown panics : Child

-- `args[i+1:]` for the first "--" from the second argument on; `none` is out of range.
unfoldable pub behind_dashes : List Bytes → Option (List Bytes)
behind_dashes [] = none
behind_dashes (a ∷ args) = if eq_bytes a dashes then some args else behind_dashes args

unfoldable pub fence_child : List Bytes → Child
unfolding behind_dashes
fence_child [] = panics
fence_child (mode ∷ args) = elim (behind_dashes args) [
  | none ↦ panics
  | some cmd ↦
      if eq_bytes mode deny_word
      then denied cmd
      else if eq_bytes mode allowlist_word
      then allowed cmd
      else unknown
]

-- What a process of gmux with these arguments does, as far as it is a fenced child.
unfoldable pub main_child : List Bytes → Option Child
unfolding fence_child
main_child [] = none
main_child (a ∷ args) = if eq_bytes a fence_word then some (fence_child args) else none

-- What `cmd.Wait` returns: nothing, the status of a process that exited or was killed by a signal,
-- or another error.
pub data WaitError : Type 0 where
  fine : WaitError
  exited : ℕ → WaitError
  signaled : ℕ → WaitError
  failed : WaitError

-- `exitCode`.
unfoldable pub exit_code : WaitError → ℕ
exit_code fine = 0
exit_code (exited n) = n
exit_code (signaled n) = 128 + n
exit_code failed = 1
