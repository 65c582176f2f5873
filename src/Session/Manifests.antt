-- ===== src/Session/Manifests.antt =====
-- internal/session/session.go: after Apply the workspace is the manifest.
use gmux.Session.Exact.{
  start, pruned-IsHonest, pruned-IsManifest, Ready-all, AppliesAll, apply_files-AppliesAll,
  IsHonest-read,
}
use gmux.Session.Workspaces.{IsManifest, IsHonest}
use gmux.Session.Apply.{
  kept, written, lost, Kept, kept_record, Progress, Tree, Applied, clean_path, Kept, Space, apply,
  conclude, Disk,
}
use gmux.Session.Blobs.{IsVerified}
use gmux.Fence.Bytes.{Bytes}
use gmux.Prelude.{
  ◌∙◌, Bool-cases, Option, subst, Bool, ◌⊎◌, ◌≡◌, ◌≢◌, List, true, none, some, ok, err, ℕ, refl,
  All, Distinct, if◌then◌else◌, inl, inr,
}
use gmux.Session.{not_written, bad_id, safe_id, File, Store, Failure, workspace, put}

workspace-cases :
    {D : Type 0} (digest : D → Bytes) (id : Bytes) (made : Bool) (now : ℕ) (s : Store D)
    → ((t : Store D) × (workspace digest id true made now s ≡ ok t) × (t.blobs ≡ s.blobs))
      ⊎ ((e : Failure) × (workspace digest id true made now s ≡ err e))
unfolding workspace
workspace-cases digest id made now s = elim (Bool-cases (safe_id id)) [
  | inr bad ↦ inr (bad_id, rw bad refl)
  | inl safe ↦ elim (Bool-cases made) [
    | inr no' ↦ inr (not_written, rw (safe, no') refl)
    | inl yes' ↦ inl (
      record s { spaces = put id true s.spaces; seen = put id (some now) s.seen },
      rw (safe, yes') refl,
      refl,
    )
  ]
]

pub IsVerified-same :
    {D : Type 0} (digest : D → Bytes) (s t : Store D)
    → t.blobs ≡ s.blobs
    → IsVerified digest s
    → IsVerified digest t
unfolding IsVerified
IsVerified-same {D} digest s t same good sha d e =
    good sha d (subst (λ (b : Bytes → Option D). b sha ≡ some d) same e)

module _ {D : Type 0} (digest : D → Bytes) (size : D → ℕ) (disk : Disk D)
    (works : (k : Bytes) → disk.chmods k ≡ true)
    (removes : (k : Bytes) → disk.removes k ≡ true) where
  -- What an answer of Apply promises.
  abbrev pub Answers : List File → Option Failure × Store D × Space D → Type 0
  Answers files (some e, t, after) = Unit {0}
  Answers files (none, t, after) =
      IsManifest digest size after.files files
      × (disk.kept_applied ≢ kept → (k : Bytes) → IsHonest digest size after.applied after.files k)

  kept_record-IsHonest :
      (k : Kept) (old next : Applied) (tree : Tree D)
      → k ≢ kept
      → ((q : Bytes) → IsHonest digest size next tree q)
      → (q : Bytes) → IsHonest digest size (kept_record digest size k old next) tree q
  unfolding IsHonest
  kept_record-IsHonest kept old next tree new h = absurd (new refl)
  kept_record-IsHonest written old next tree new h = h
  kept_record-IsHonest lost old next tree new h = λ q a e known there long late. absurd (cc (known))

  concluded :
      (id : Bytes) (files : List File) (s : Store D) (space : Space D) (applied : Applied)
      (good : IsVerified digest s) (failure : Option Failure) (q : Progress D)
      → (failure ≡ none
          → AppliesAll digest size disk applied s good works files
              (start digest size disk applied s good works space.files)
              q)
      → Answers files (conclude digest size disk id true s space failure q)
  unfolding conclude
  concluded id files s space applied good (some e) q h = tt
  concluded id files s space applied good none q h =
      let all = h refl in
      (
        pruned-IsManifest digest size disk applied s good works files space.files q removes all,
        (λ new. kept_record-IsHonest disk.kept_applied space.applied q.next _ new (λ k.
            pruned-IsHonest digest size disk applied s good works q.wanted q.tree q.next k
              all.recorded)),
      )

  -- Apply with prune, unless it fails, makes the workspace exactly the files of the manifest, with
  -- their digests and modes, and what it has written down of them is true again unless its record
  -- could not be renewed; if the paths of the manifest are clean and distinct, the store's blobs
  -- stand under their digests, the old record is true of the workspace, and no change of a mode
  -- and no removal fails.
  pub apply-Answers :
      (id : Bytes) (files : List File) (s : Store D) (space : Space D)
      → IsVerified digest s
      → Distinct (λ f. f.path) files
      → All (λ f. clean_path f.path ≡ f.path) files
      → ((k : Bytes) → IsHonest digest size space.applied space.files k)
      → Answers files (apply digest size disk id files true s space)
  unfolding apply
  apply-Answers id files s space good apart flat honest =
      elim (workspace-cases digest id disk.space_made disk.now s) [
        | inr (e, bad) ↦ rw (bad, apply) tt
        | inl (t, made, same) ↦
            let good' : IsVerified digest t = IsVerified-same digest s t same good in
            let applied : Applied = if disk.read_applied then space.applied else (λ rel. none) in
            let honest' : (k : Bytes) → IsHonest digest size applied space.files k = λ k.
              IsHonest-read digest size disk applied t good' works disk.read_applied space.applied
                space.files k (honest k) in
            rw (made, apply)
              (concluded id files t space applied good' _ _ (λ fine.
                apply_files-AppliesAll digest size disk applied t good' works files _ apart
                  (Ready-all digest size disk applied t good' works space.files files flat honest')
                  (λ k a no'. absurd (cc (no'))) fine))
      ]

module _ {D : Type 0} (digest : D → Bytes) (size : D → ℕ) (disk : Disk D) where
  conclude-blobs :
      (id : Bytes) (pruned : Bool) (s : Store D) (space : Space D) (e : Option Failure)
      (p : Progress D)
      → (conclude digest size disk id pruned s space e p).1.blobs ≡ s.blobs
  unfolding conclude
  conclude-blobs id pruned s space none p = refl
  conclude-blobs id pruned s space (some e) p = refl

  -- Apply changes no blob.
  pub apply-blobs :
      (id : Bytes) (files : List File) (pruned : Bool) (s : Store D) (space : Space D)
      → (apply digest size disk id files pruned s space).1.blobs ≡ s.blobs
  unfolding apply
  apply-blobs id files pruned s space =
      elim (workspace-cases digest id disk.space_made disk.now s) [
        | inr (e, bad) ↦ rw (bad, apply) refl
        | inl (t, made, same) ↦ rw (made, apply) (conclude-blobs id pruned t space _ _ ∙ same)
      ]
