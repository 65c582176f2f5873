-- ===== src/Gpu/Envs.antt =====
-- internal/gpu: the variables that bind a job's process to its share of a card, for each vendor, and
-- startLocked of internal/daemon/daemon.go, which gathers those of all the slots of a job.
use gmux.Prelude.{
  ℕ, zero, suc, ◌+◌, ◌*◌, ◌/◌, ◌==◌, Bool, false, ◌||◌, List, [], ◌∷◌, ◌++◌, Option, none, some,
  if◌then◌else◌, ltb, codes, max,
}
use gmux.Prelude.Int.{ℤ, pos, negsuc}
use gmux.Fence.Bytes.{Bytes, to_lower, trim_prefix}
use gmux.Decimals.{itoa}
use gmux.Runtime.Launch.{Vars, set_all}
use gmux.Scheduler.State.{Slot}
use gmux.Gpu.Masks.{Device}
use gmux.Gpu.Tenants.{cu_mask}

-- A number that may be negative.
unfoldable pub itoa_ℤ : ℤ → Bytes
unfolding itoa
itoa_ℤ (pos n) = itoa n
itoa_ℤ (negsuc n) = 45 ∷ itoa (suc n)

unfoldable pub has_bit : ℕ → List ℕ → Bool
has_bit u [] = false
has_bit u (v ∷ us) = v == u || has_bit u us

abbrev bit : ℕ → List ℕ → ℕ
bit u us = if has_bit u us then 1 else 0

-- The digit of the bits 4j to 4j + 3.
unfoldable pub nibble : ℕ → List ℕ → ℕ
unfolding has_bit
nibble j us =
    let d =
      bit (4 * j) us + 2 * bit (4 * j + 1) us + 4 * bit (4 * j + 2) us + 8 * bit (4 * j + 3) us in
    if ltb d 10 then 48 + d else 87 + d

unfoldable pub hex_digits : ℕ → List ℕ → Bytes
unfolding nibble
hex_digits zero us = []
hex_digits (suc j) us = nibble j us ∷ hex_digits j us

unfoldable pub highest : List ℕ → ℕ
highest [] = 0
highest (u ∷ us) = max u (highest us)

-- `"0x" + m.Text(16)` of a mask that is not 0.
unfoldable pub mask_text : List ℕ → Bytes
unfolding hex_digits highest
mask_text us = codes "0x" ++ hex_digits (highest us / 4 + 1) us

-- `fmt.Sprintf("%d/%d", s.Seats, s.SeatsPerCard)`.
unfoldable pub share_text : Slot → ℕ → Bytes
unfolding itoa
share_text sl per_card = itoa sl.seats ++ codes "/" ++ itoa per_card

-- The card's id for ROCm; a UUID of bytes is ASCII.
unfoldable pub amd_card : Device → Bytes
unfolding itoa to_lower trim_prefix
amd_card dev = elim (trim_prefix (to_lower (codes dev.uuid)) (codes "0x")) [
  | [] ↦ itoa dev.index
  | c ∷ u ↦ codes "GPU-" ++ c ∷ u
]

abbrev pub mask_vars : Option (List ℕ) → Vars
mask_vars none = []
mask_vars (some us) = (codes "HSA_CU_MASK", codes "0:" ++ mask_text us) ∷ []

abbrev pub shim_vars : Bytes → Vars
shim_vars [] = []
shim_vars (c ∷ path) = (codes "LD_PRELOAD", c ∷ path) ∷ []

-- AMDBackend.JobEnv with the path of its shim.
unfoldable pub amd_env : Bytes → Device → Slot → ℕ → Vars
unfolding amd_card itoa_ℤ share_text mask_text
amd_env shim dev sl per_card =
    (codes "ROCR_VISIBLE_DEVICES", amd_card dev)
    ∷ (codes "HIP_VISIBLE_DEVICES", codes "0")
    ∷ (codes "GMUX_MEM_LIMIT_MIB", itoa_ℤ sl.mem_mib)
    ∷ (codes "GMUX_SHARE", share_text sl per_card)
    ∷ (mask_vars (cu_mask dev per_card sl) ++ shim_vars shim)

-- `mpsDirs`, with filepath.Join of a state directory without a slash at its end.
unfoldable pub mps_dir : Bytes → Bytes → Device → Bytes
unfolding itoa
mps_dir leaf state dev = state ++ codes "/mps/" ++ itoa dev.index ++ codes "/" ++ leaf

-- NVIDIABackend.JobEnv.
unfoldable pub nvidia_env : Bytes → Device → Slot → ℕ → Vars
unfolding mps_dir itoa_ℤ share_text
nvidia_env state dev sl per_card =
    (codes "CUDA_VISIBLE_DEVICES", itoa dev.index)
    ∷ (codes "CUDA_MPS_PIPE_DIRECTORY", mps_dir (codes "pipe") state dev)
    ∷ (codes "CUDA_MPS_LOG_DIRECTORY", mps_dir (codes "log") state dev)
    ∷ (codes "CUDA_MPS_ACTIVE_THREAD_PERCENTAGE", itoa sl.compute_percent)
    ∷ (codes "CUDA_MPS_PINNED_DEVICE_MEM_LIMIT", codes "0=" ++ itoa_ℤ sl.mem_mib ++ codes "M")
    ∷ (codes "GMUX_SHARE", share_text sl per_card)
    ∷ []

-- IntelBackend.JobEnv.
unfoldable pub intel_env : Device → Slot → ℕ → Vars
unfolding itoa share_text
intel_env dev sl per_card =
    (codes "ZE_AFFINITY_MASK", itoa dev.index) ∷ (codes "GMUX_SHARE", share_text sl per_card) ∷ []

-- FakeBackend.JobEnv.
unfoldable pub fake_env : Device → Slot → ℕ → Vars
unfolding itoa itoa_ℤ share_text
fake_env dev sl per_card =
    (codes "GMUX_FAKE_GPU", itoa dev.index)
    ∷ (codes "GMUX_COMPUTE_PERCENT", itoa sl.compute_percent)
    ∷ (codes "GMUX_MEM_LIMIT_MIB", itoa_ℤ sl.mem_mib)
    ∷ (codes "GMUX_SHARE", share_text sl per_card)
    ∷ []

pub data Backend : Type 0 where
  amd : Bytes → Backend
  nvidia : Bytes → Backend
  intel fake : Backend

unfoldable pub job_env : Backend → Device → Slot → ℕ → Vars
unfolding amd_env nvidia_env intel_env fake_env
job_env (amd shim) = amd_env shim
job_env (nvidia state) = nvidia_env state
job_env intel = intel_env
job_env fake = fake_env

-- The loop of `startLocked` over the slots, each with its card: `env[k] = v` for each variable.
unfoldable pub slots_env : ℕ → List (Backend × Device × Slot) → Vars → Vars
unfolding job_env set_all
slots_env per_card [] m = m
slots_env per_card ((b, dev, sl) ∷ slots) m =
    slots_env per_card slots (set_all (job_env b dev sl per_card) m)
