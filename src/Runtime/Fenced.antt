-- ===== src/Runtime/Fenced.antt =====
-- internal/runtime/runtime.go with cmd/gmux/main.go: a job that may not reach the network freely
-- runs behind the fence, with its own command.

use gmux.Prelude.{
  err, if◌then◌else◌, ◌≡◌, refl, Bool, true, false, List, [], ◌∷◌, some, ok, arith, inl, inr,
  Bool-cases, Option-cases,
}
use gmux.Fence.Bytes.{Bytes, eq_bytes}
use gmux.Runtime.Launch.{
  started, no_fence, allowlist_word, deny_word, no_command, fence_args, behind_dashes, fence_child,
  start_fenced, Spec, Cmd, Launcher, start, is_nil, main_child, denied, allowed, direct, env,
}

-- How a job's process runs, by what its specification asks for.
abbrev pub Runs : Spec → Cmd → Type 0
Runs s cmd =
    if s.deny_net
    then (cmd.path ≡ s.self_path)
      × (main_child cmd.args ≡ some (denied s.command))
      × (cmd.socket ≡ false)
    else if is_nil s.allow
    then (cmd.path ∷ cmd.args ≡ s.command) × (cmd.socket ≡ false)
    else (cmd.path ≡ s.self_path)
      × (main_child cmd.args ≡ some (allowed s.command))
      × (cmd.socket ≡ true)

fenced-args :
    (command : List Bytes)
    → (main_child (fence_args deny_word command) ≡ some (denied command))
      × (main_child (fence_args allowlist_word command) ≡ some (allowed command))
unfolding main_child fence_child behind_dashes eq_bytes
fenced-args command = (refl, refl)

started-ok : (b : Bool) (c d : Cmd) → started b c ≡ ok d → c ≡ d
started-ok true c d e = cc (e)
started-ok false c d e = cc (e)

start_fenced-ok :
    (l : Launcher) (s : Spec) (full : List Bytes) (cmd : Cmd)
    → start_fenced l s full ≡ ok cmd
    → record {
      path = s.self_path;
      args = fence_args allowlist_word s.command;
      vars = full;
      dir = s.dir;
      socket = true;
    }
      ≡ cmd
unfolding start_fenced
start_fenced-ok l s full cmd e = elim (Option-cases l.fence_served) [
  | inl no' ↦ absurd (let fails : err no_fence ≡ ok cmd = rw (no', start_fenced) at e in cc)
  | inr (served, there) ↦ ground (arith, rw (there, start_fenced) at e)
]

direct_lem :
    (s : Spec) (full command : List Bytes)
    → is_nil command ≡ false
    → ((direct s full command).path ∷ (direct s full command).args ≡ command)
      × ((direct s full command).socket ≡ false)
direct_lem s full [] h = absurd (cc (h))
direct_lem s full (c ∷ args) h = (refl, refl)

-- When Start starts a job, one that is denied the network runs as the fenced child that denies it,
-- one with a list of names as the fenced child with the socket to its supervisor, each of which is
-- given just the job's command, whatever that has in it; every other job runs its command itself.
pub start-Runs : (l : Launcher) (s : Spec) (cmd : Cmd) → start l s ≡ ok cmd → Runs s cmd
unfolding start
start-Runs l s cmd e = elim (Bool-cases (is_nil s.command)) [
  | inl empty ↦ absurd (let fails : err no_command ≡ ok cmd = rw (empty, start) at e in cc)
  | inr some' ↦ elim (Bool-cases s.deny_net) [
    | inl deny ↦
        let run = started-ok l.starts _ cmd (rw (some', deny, start) at e) in
        rw (deny, ← run) (refl, (fenced-args s.command).0, refl)
    | inr open' ↦ elim (Bool-cases (is_nil s.allow)) [
      | inl free ↦
          let run = started-ok l.starts _ cmd (rw (some', open', free, start) at e) in
          rw (open', free, ← run) (direct_lem s (env l.environ s.vars) s.command some')
      | inr listed ↦
          let run = start_fenced-ok l s _ cmd (rw (some', open', listed, start) at e) in
          rw (open', listed, ← run) (refl, (fenced-args s.command).1, refl)
    ]
  ]
]
