-- ===== src/Gpu/Bound.antt =====
-- internal/gpu with internal/daemon and internal/runtime: what a job's process reads of its share.
use gmux.Prelude.{
  subst, ℕ, ◌≡◌, ◌≢◌, refl, sym, ◌∙◌, ap, false, List, [], ◌∷◌, ◌++◌, Option, none, some,
  Bool-cases, inl, inr, All, All-append, Distinct,
}
use gmux.Fence.Bytes.{Bytes, eq_bytes, eq_bytes→eq}
use gmux.Maps.{find, eq_bytes-ne}
use gmux.Scheduler.State.{Slot}
use gmux.Gpu.Masks.{Device}
use gmux.Gpu.Tenants.{cu_mask}
use gmux.Gpu.Envs.{Backend, amd, nvidia, intel, fake, mask_vars, shim_vars, job_env, slots_env}
use gmux.Runtime.Launch.{Vars, cut, set_all, env}
use gmux.Runtime.Environment.{
  getenv, or_else, last_of, variables, IsPlain, set_all-IsPlain, find-set_all,
}
use gmux.Runtime.Reading.{or_else-none, env_lem}

abbrev HasNames : Vars → Type 0
HasNames = All (λ x. cut x.0 ≡ none)

mask_vars-HasNames : (o : Option (List ℕ)) → HasNames (mask_vars o)
unfolding cut
mask_vars-HasNames none = tt
mask_vars-HasNames (some us) = (refl, tt)

shim_vars-HasNames : (s : Bytes) → HasNames (shim_vars s)
unfolding cut
shim_vars-HasNames [] = tt
shim_vars-HasNames (c ∷ s) = (refl, tt)

job_env-HasNames :
    (b : Backend) (dev : Device) (sl : Slot) (per_card : ℕ) → HasNames (job_env b dev sl per_card)
unfolding job_env cut
job_env-HasNames (amd shim) dev sl per_card =
    let rest =
      All-append (λ x. cut x.0 ≡ none) (mask_vars (cu_mask dev per_card sl)) (shim_vars shim)
        (mask_vars-HasNames (cu_mask dev per_card sl)) (shim_vars-HasNames shim) in
    (refl, (refl, (refl, (refl, rest))))
job_env-HasNames (nvidia state) dev sl per_card = (refl, (refl, (refl, (refl, (refl, (refl, tt))))))
job_env-HasNames intel dev sl per_card = (refl, (refl, tt))
job_env-HasNames fake dev sl per_card = (refl, (refl, (refl, (refl, tt))))

slots_env-IsPlain :
    (per_card : ℕ) (slots : List (Backend × Device × Slot)) (m : Vars)
    → IsPlain m
    → IsPlain (slots_env per_card slots m)
unfolding slots_env
slots_env-IsPlain per_card [] m h = h
slots_env-IsPlain per_card ((b, dev, sl) ∷ slots) m h =
    slots_env-IsPlain per_card slots _
      (set_all-IsPlain (job_env b dev sl per_card) m (job_env-HasNames b dev sl per_card) h)

slots_env-snoc :
    (per_card : ℕ) (before : List (Backend × Device × Slot)) (b : Backend) (dev : Device)
    (sl : Slot) (m : Vars)
    → slots_env per_card (before ++ (b, dev, sl) ∷ []) m
      ≡ set_all (job_env b dev sl per_card) (slots_env per_card before m)
unfolding slots_env
slots_env-snoc per_card [] b dev sl m = refl
slots_env-snoc per_card ((c, d, s) ∷ before) b dev sl m =
    slots_env-snoc per_card before b dev sl (set_all (job_env c d s per_card) m)

last_of-absent : (k : Bytes) (m : Vars) → All (λ y. k ≢ y.0) m → last_of k m ≡ none
unfolding last_of
last_of-absent k [] h = refl
last_of-absent k ((j, v) ∷ m) h =
    let far : eq_bytes j k ≡ false = eq_bytes-ne j k (λ e. h.0 (sym e)) in
    rw (last_of-absent k m h.1, far) refl

last_of-find : (k : Bytes) (m : Vars) → Distinct (λ x. x.0) m → last_of k m ≡ find k m
unfolding last_of find
last_of-find k [] h = refl
last_of-find k ((j, v) ∷ m) h = elim (Bool-cases (eq_bytes j k)) [
  | inl same ↦
      let here : j ≡ k = eq_bytes→eq j k same in
      rw (same, last_of-absent k m (subst (λ i. All (λ y. i ≢ y.0) m) here h.0)) refl
  | inr apart ↦ rw (apart, last_of-find k m h.1) (or_else-none (find k m))
]

-- Whatever slots of a job come before the last one, its process reads the variables that bind it
-- to its last slot, with this slot's values.
pub slots_env-getenv :
    (base : List Bytes) (per_card : ℕ) (before : List (Backend × Device × Slot)) (b : Backend)
    (dev : Device) (sl : Slot) (k v : Bytes)
    → last_of k (job_env b dev sl per_card) ≡ some v
    → getenv k (env base (slots_env per_card (before ++ (b, dev, sl) ∷ []) [])) ≡ some v
slots_env-getenv base per_card before b dev sl k v given =
    let all = slots_env per_card (before ++ (b, dev, sl) ∷ []) [] in
    let plain = slots_env-IsPlain per_card (before ++ (b, dev, sl) ∷ []) [] (tt, tt) in
    let known : last_of k all ≡ some v =
      last_of-find k all plain.0
      ∙ ap (find k) (slots_env-snoc per_card before b dev sl [])
      ∙ find-set_all k (job_env b dev sl per_card) (slots_env per_card before [])
      ∙ ap (λ o. or_else o (find k (slots_env per_card before []))) given in
    env_lem base all k plain.1 ∙ ap (λ o. or_else o (last_of k (variables base))) known
