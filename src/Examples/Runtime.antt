-- ===== src/Examples/Runtime.antt =====
-- internal/runtime on small inputs.
use gmux.Runtime.Fenced.{Runs, start-Runs}
use gmux.Runtime.Reading.{env_lem}
use gmux.Prelude.{sort_stable, ◌≡◌, refl, true, false, [], ◌∷◌, some, none, codes}
use gmux.Fence.Bytes.{eq_bytes}
use gmux.Runtime.Launch.{
  Spec, Cmd, Launcher, start, cut, env, main_child, fence_args, deny_word, inherit, inherit_all,
  set_all, start_fenced, fence_child, behind_dashes,
}
use gmux.Runtime.Environment.{getenv, last_of, variables}

program : Unit {0}
unfolding cut inherit inherit_all set_all env start_fenced start behind_dashes fence_child
    main_child getenv last_of variables eq_bytes sort_stable
program = tt

-- A command that has "--" in it.
abbrev spec : Spec
spec = record {
  id = codes "1";
  command = codes "run" ∷ codes "--" ∷ codes "x" ∷ [];
  vars = [];
  dir = [];
  allow = codes "example.org" ∷ [];
  deny_net = true;
  self_path = codes "gmux";
}

abbrev launcher : Launcher
launcher = record { environ = []; socketpair = true; starts = true; fence_served = none }

abbrev child : Cmd
child = record {
  path = codes "gmux";
  args = fence_args deny_word spec.command;
  vars = [];
  dir = [];
  socket = false;
}

start-Runs_example : Runs spec child
unfolding program
start-Runs_example = start-Runs launcher spec child refl

env_lem_example :
    getenv (codes "A") (env (codes "A=1" ∷ codes "B=2" ∷ []) ((codes "A", codes "x=y") ∷ []))
    ≡ some (codes "x=y")
unfolding program
env_lem_example =
    env_lem (codes "A=1" ∷ codes "B=2" ∷ []) ((codes "A", codes "x=y") ∷ []) (codes "A") (refl, tt)
