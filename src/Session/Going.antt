-- ===== src/Session/Going.antt =====
-- internal/session/session.go: what Apply needs to come to its end.
use gmux.Prelude.{
  subst, sym, if◌then◌else◌, ℕ, ◌≡◌, refl, Bool, true, ◌&&◌, Option, none, some, List, [], ◌∷◌, ok,
  All, All-imp, Bool-cases, Option-cases, arith, inl, inr,
}
use gmux.Fence.Bytes.{Bytes}
use gmux.Session.{
  File, Store, safe_rel, Failure, valid_sha, has_blob, is_some, safe_id, workspace, put,
}
use gmux.Session.Apply.{
  Disk, Space, Applied, Progress, copied, unchanged, copy_blob, apply_file, apply_step, apply_files,
  conclude, apply, clean_path,
}

-- The disk makes the directories and writes the files that it is asked for.
pub record Obeys {D : Type 0} (disk : Disk D) : Type 0 where
  pub space : disk.space_made ≡ true
  pub dirs : (k : Bytes) → disk.dir_made k ≡ true
  pub copies : (k : Bytes) → (t : ℕ) × (seen : Bool) × (disk.copies k ≡ copied t seen)

module _ {D : Type 0} (digest : D → Bytes) (size : D → ℕ) (disk : Disk D) (obeys : Obeys disk) where
  -- A file whose path is safe and whose blob is there.
  abbrev pub IsReady : Store D → File → Type 0
  IsReady s f = (safe_rel f.path ≡ ok f.path) × (has_blob digest f.sha s ≡ true)

  blob-there :
      (s : Store D) (sha : Bytes) → has_blob digest sha s ≡ true → (d : D) × (s.blobs sha ≡ some d)
  unfolding has_blob
  blob-there s sha h = elim (Option-cases (s.blobs sha)) [
    | inr (d, e) ↦ (d, e)
    | inl gone ↦ absurd (ground (arith, h, gone))
  ]

  apply_file-goes :
      (applied : Applied) (s : Store D) (f : File) (p : Progress D)
      → has_blob digest f.sha s ≡ true
      → (apply_file digest size disk applied s f f.path p).0 ≡ none
  unfolding apply_file copy_blob
  apply_file-goes applied s f p there =
      let (d, e) = blob-there s f.sha there in
      let (t, seen, written) = obeys.copies (clean_path f.path) in
      elim (Bool-cases (unchanged digest size (applied f.path) f (p.tree (clean_path f.path)))) [
        | inl same ↦ rw same refl
        | inr other ↦ rw (other, obeys.dirs (clean_path f.path), e, written) refl
      ]

  apply_step-goes :
      (applied : Applied) (s : Store D) (f : File) (p : Progress D)
      → IsReady s f
      → (apply_step digest size disk applied s f p).0 ≡ none
  unfolding apply_step
  apply_step-goes applied s f p (safe, there) =
      rw (safe, there, apply_step) (apply_file-goes applied s f p there)

  apply_files-goes :
      (applied : Applied) (s : Store D) (files : List File) (p : Progress D)
      → All (IsReady s) files
      → (apply_files digest size disk applied s files p).0 ≡ none
  unfolding apply_files
  apply_files-goes applied s [] p h = refl
  apply_files-goes applied s (f ∷ files) p h =
      rw (apply_step-goes applied s f p h.0, apply_files)
        (apply_files-goes applied s files (apply_step digest size disk applied s f p).1 h.1)

  workspace-made :
      (id : Bytes) (s : Store D)
      → safe_id id ≡ true
      → (t : Store D) × (workspace digest id true disk.space_made disk.now s ≡ ok t)
        × (t.blobs ≡ s.blobs)
  unfolding workspace
  workspace-made id s safe = (
    record s { spaces = put id true s.spaces; seen = put id (some disk.now) s.seen },
    rw (safe, obeys.space) refl,
    refl,
  )

  IsReady-same :
      (s t : Store D) (files : List File)
      → t.blobs ≡ s.blobs
      → All (IsReady s) files
      → All (IsReady t) files
  unfolding has_blob
  IsReady-same s t files same h =
      All-imp files
        (λ f r. (
          r.0,
          subst (λ (b : Bytes → Option D). (valid_sha f.sha && is_some digest (b f.sha)) ≡ true)
              (sym same) r.1,
        ))
        h

  conclude-goes :
      (id : Bytes) (pruned : Bool) (s : Store D) (space : Space D) (e : Option Failure)
      (p : Progress D)
      → e ≡ none
      → (conclude digest size disk id pruned s space e p).0 ≡ none
  unfolding conclude
  conclude-goes id pruned s space none p h = refl
  conclude-goes id pruned s space (some e) p h = h

  -- Apply comes to its end without an error if the session's id is good, the paths are safe, the
  -- blobs are there, and the disk does what it is asked for.
  pub apply-goes :
      (id : Bytes) (files : List File) (pruned : Bool) (s : Store D) (space : Space D)
      → safe_id id ≡ true
      → All (IsReady s) files
      → (apply digest size disk id files pruned s space).0 ≡ none
  unfolding apply
  apply-goes id files pruned s space safe h =
      let (t, made, same) = workspace-made id s safe in
      rw (made, apply)
        (conclude-goes id pruned t space _ _ (
          apply_files-goes (if disk.read_applied then space.applied else (λ rel. none)) t files
            (record { tree = space.files; next = λ rel. none; wanted = [] })
            (IsReady-same s t files same h)))
