-- ===== src/Session/Apply.antt =====
-- internal/session/session.go: how Apply turns a manifest into the files of a workspace. A tree has
-- the files below the workspace by their clean paths; what the disk answers is an input.
use gmux.Prelude.{
  ℕ, ◌==◌, Bool, true, false, not, ◌&&◌, List, [], ◌∷◌, ◌++◌, Option, none, some, if◌then◌else◌, ok,
  err,
}
use gmux.Fence.Bytes.{Bytes, eq_bytes}
use gmux.Session.{
  File, Store, Failure, missing_blob, not_written, safe_rel, put, is_empty, has_blob, workspace,
  among,
}

-- The components of a path, without those that name nothing: "" and ".".
abbrev pub component : Bytes → List Bytes → List Bytes
component [] parts = parts
component (c ∷ s) parts = if c == 46 && is_empty s then parts else (c ∷ s) ∷ parts

-- The components of a path, where the bytes of its first component that were read come first.
unfoldable pub components : Bytes → Bytes → List Bytes
components part [] = component part []
components part (c ∷ s) = elim (c == 47) [
  | true ↦ component part (components [] s)
  | false ↦ components (part ++ c ∷ []) s
]

unfoldable pub join : List Bytes → Bytes
join [] = []
join (p ∷ []) = p
join (p ∷ q ∷ ps) = p ++ 47 ∷ join (q ∷ ps)

-- `filepath.Join(ws, rel)` below ws, for a path without "..".
unfoldable pub clean_path : Bytes → Bytes
unfolding components join
clean_path rel = join (components [] rel)

pub record FileEntry (D : Type 0) : Type 0 where
  pub content : D
  pub x : Bool
  pub mtime : ℕ

abbrev pub Tree : Type 0 → Type 0
Tree D = Bytes → Option (FileEntry D)

-- `appliedFile`.
pub record AppliedFile : Type 0 where
  pub sha : Bytes
  pub size : ℕ
  pub mtime : ℕ

abbrev pub Applied : Type 0
Applied = Bytes → Option AppliedFile

-- The workspace of a session, and its applied.json.
pub record Space (D : Type 0) : Type 0 where
  pub files : Tree D
  pub applied : Applied

-- How `copyBlob` ends: the blob cannot be opened; the file cannot be opened or is not written whole,
-- and this is left at its path; it is written, at this time, and can be looked at after.
pub data Copy (D : Type 0) : Type 0 where
  unread : Copy D
  broken : Option (FileEntry D) → Copy D
  copied : ℕ → Bool → Copy D

-- What becomes of applied.json when it is written.
pub data Kept : Type 0 where
  kept written lost : Kept

pub record Disk (D : Type 0) : Type 0 where
  pub space_made : Bool
  pub read_applied : Bool
  pub dir_made : Bytes → Bool
  pub copies : Bytes → Copy D
  pub chmods : Bytes → Bool
  pub removes : Bytes → Bool
  pub kept_applied : Kept
  pub now : ℕ

-- `next`, `wanted` and the files, while the loop goes over the manifest.
pub record Progress (D : Type 0) : Type 0 where
  pub tree : Tree D
  pub next : Applied
  pub wanted : List Bytes

module _ {D : Type 0} (digest : D → Bytes) (size : D → ℕ) where
  -- The file is as the last Apply left it.
  unfoldable pub unchanged : Option AppliedFile → File → Option (FileEntry D) → Bool
  unchanged none f e = false
  unchanged (some prev) f none = false
  unchanged (some prev) f (some e) =
      eq_bytes prev.sha f.sha && (size e.content == prev.size && e.mtime == prev.mtime)

  -- `os.Chmod`, whose error is dropped.
  unfoldable pub chmod : Bool → Bool → Option (FileEntry D) → Option (FileEntry D)
  chmod works x none = none
  chmod works x (some e) = if works then some (record e { x = x }) else some e

  -- The end of the body of the loop, with the content of the blob.
  unfoldable pub copy_blob :
      Copy D → File → Bytes → Option D → Progress D → Option Failure × Progress D
  copy_blob c f rel none p = (some missing_blob, p)
  copy_blob unread f rel (some d) p = (some not_written, p)
  copy_blob (broken left) f rel (some d) p =
      (some not_written, record p { tree = put (clean_path rel) left p.tree })
  copy_blob (copied t seen) f rel (some d) p = (
    none,
    record {
      tree = put (clean_path rel) (some (record { content = d; x = f.x; mtime = t })) p.tree;
      next =
          if seen
          then put rel (some (record { sha = f.sha; size = size d; mtime = t })) p.next
          else p.next;
      wanted = p.wanted;
    },
  )

  -- The body of the loop for a safe path whose blob is there.
  unfoldable pub apply_file :
      Disk D → Applied → Store D → File → Bytes → Progress D → Option Failure × Progress D
  unfolding unchanged chmod copy_blob
  apply_file disk applied s f rel p =
      let dst = clean_path rel in
      let q : Progress D = record p { wanted = rel ∷ p.wanted } in
      if unchanged (applied rel) f (p.tree dst)
      then (
        none,
        record {
          tree = put dst (chmod (disk.chmods dst) f.x (p.tree dst)) p.tree;
          next = put rel (applied rel) p.next;
          wanted = q.wanted;
        },
      )
      else if not (disk.dir_made dst)
      then (some not_written, q)
      else copy_blob (disk.copies dst) f rel (s.blobs f.sha) q

  unfoldable pub apply_step :
      Disk D → Applied → Store D → File → Progress D → Option Failure × Progress D
  unfolding apply_file
  apply_step disk applied s f p = elim (safe_rel f.path) [
    | err e ↦ (some e, p)
    | ok rel ↦
        if not (has_blob digest f.sha s)
        then (some missing_blob, p)
        else apply_file disk applied s f rel p
  ]

  -- The loop, which returns at the first error.
  unfoldable pub apply_files :
      Disk D → Applied → Store D → List File → Progress D → Option Failure × Progress D
  unfolding apply_step
  apply_files disk applied s [] p = (none, p)
  apply_files disk applied s (f ∷ files) p =
      let (failure, q) = apply_step disk applied s f p in
      elim failure [ some e ↦ (some e, q) | none ↦ apply_files disk applied s files q ]

  -- The walk that removes what is not wanted.
  unfoldable pub prune : (Bytes → Bool) → List Bytes → Tree D → Tree D
  prune removes wanted tree q =
      if among q wanted then tree q else if removes q then none else tree q

  abbrev pub kept_record : Kept → Applied → Applied → Applied
  kept_record kept old next = old
  kept_record written old next = next
  kept_record lost old next = λ rel. none

  -- The end of `Apply`, after the loop.
  unfoldable pub conclude :
      Disk D
      → Bytes
      → Bool
      → Store D
      → Space D
      → Option Failure
      → Progress D
      → Option Failure × Store D × Space D
  unfolding prune
  conclude disk id pruned s space (some e) p = (some e, s, record space { files = p.tree })
  conclude disk id pruned s space none p = (
    none,
    record s { seen = put id (some disk.now) s.seen },
    record {
      files = if pruned then prune disk.removes p.wanted p.tree else p.tree;
      applied = kept_record disk.kept_applied space.applied p.next;
    },
  )

  -- `Apply` in the workspace of the session id.
  unfoldable pub apply :
      Disk D → Bytes → List File → Bool → Store D → Space D → Option Failure × Store D × Space D
  unfolding apply_files conclude
  apply disk id files pruned s space = elim (workspace digest id true disk.space_made disk.now s) [
    | err e ↦ (some e, s, space)
    | ok t ↦
        let applied : Applied = if disk.read_applied then space.applied else (λ rel. none) in
        let start : Progress D = record { tree = space.files; next = λ rel. none; wanted = [] } in
        let (failure, p) = apply_files disk applied t files start in
        conclude disk id pruned t space failure p
  ]
