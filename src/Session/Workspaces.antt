-- ===== src/Session/Workspaces.antt =====
-- internal/session/session.go: what one round of Apply's loop does to the workspace.
use gmux.Session.Blobs.{IsVerified}
use gmux.Fence.Bytes.{has_prefix, eq_bytes→eq, eq_bytes_refl, eq_bytes, Bytes}
use gmux.Prelude.{
  map, false, In, ◌||◌, ◌⊎◌, sym, ◌∙◌, Option, ◌∷◌, List, [], refl, err, inr, inl, none, true,
  false, ok, some, ◌≡◌, ℕ, Bool-cases, Option-cases, arith,
}
use gmux.Session.{
  among, unsafe_path, contains_dots, has_blob, is_empty, missing_blob, put, not_written, safe_rel,
  File, Store, Failure,
}
use gmux.Session.Apply.{
  unread, broken, copied, apply_step, chmod, copied, broken, unchanged, apply_file, clean_path,
  Copy, copy_blob, Disk, Applied, AppliedFile, FileEntry, Progress, Tree,
}

safe_rel-cases : (rel : Bytes) → (safe_rel rel ≡ ok rel) ⊎ ((e : Failure) × (safe_rel rel ≡ err e))
unfolding safe_rel
safe_rel-cases rel =
    elim (Bool-cases (is_empty rel || (has_prefix rel (47 ∷ []) || contains_dots rel))) [
      | inl bad ↦ inr (unsafe_path, rw bad refl)
      | inr safe ↦ inl (rw safe refl)
    ]

abbrev pub paths : List File → List Bytes
paths = map (λ f. f.path)

module _ {D : Type 0} (digest : D → Bytes) (size : D → ℕ) where
  -- A file of the tree whose size and time are as applied.json has them has the content it names.
  unfoldable pub IsHonest : Applied → Tree D → Bytes → Type 0
  IsHonest applied tree k =
      (a : AppliedFile) (e : FileEntry D)
      → applied k ≡ some a
      → tree k ≡ some e
      → size e.content ≡ a.size
      → e.mtime ≡ a.mtime
      → digest e.content ≡ a.sha

  -- The workspace has the file as the manifest has it.
  pub record Shows (tree : Tree D) (f : File) : Type 0 where
    pub entry : FileEntry D
    pub there : tree f.path ≡ some entry
    pub same : digest entry.content ≡ f.sha
    pub mode : entry.x ≡ f.x

  -- The workspace has the files of the manifest, and no other.
  pub record IsManifest (tree : Tree D) (files : List File) : Type 0 where
    pub shown : (f : File) → In f files → Shows tree f
    pub only : (k : Bytes) → among k (paths files) ≡ false → tree k ≡ none

  -- What a round without an error does.
  pub record Applies (f : File) (p q : Progress D) : Type 0 where
    pub shown : Shows q.tree f
    pub elsewhere : (k : Bytes) → eq_bytes k f.path ≡ false → q.tree k ≡ p.tree k
    pub listed : q.wanted ≡ f.path ∷ p.wanted
    pub recorded : (k : Bytes) → eq_bytes k f.path ≡ false → q.next k ≡ p.next k
    pub fresh : (a : AppliedFile) → p.next f.path ≡ none → q.next f.path ≡ some a → a.sha ≡ f.sha

  -- Writing the entry at the file's path, and its record if there is one.
  put-Applies :
      (f : File) (p : Progress D) (e : FileEntry D) (a : Option AppliedFile)
      → digest e.content ≡ f.sha
      → e.x ≡ f.x
      → ((b : AppliedFile) → a ≡ some b → b.sha ≡ f.sha)
      → Applies f p (record {
        tree = put f.path (some e) p.tree;
        next = put f.path a p.next;
        wanted = f.path ∷ p.wanted;
      })
  put-Applies f p e a own mode named = record {
    shown = record { entry = e; there = rw (eq_bytes_refl f.path) refl; same = own; mode = mode };
    elsewhere = λ k apart. rw apart refl;
    listed = refl;
    recorded = λ k apart. rw apart refl;
    fresh = λ b old now. named b (rw (eq_bytes_refl f.path) at now);
  }

  copy_blob-Applies :
      (c : Copy D) (f : File) (d : D) (p : Progress D)
      → clean_path f.path ≡ f.path
      → digest d ≡ f.sha
      → (copy_blob digest size c f f.path (some d) (record p { wanted = f.path ∷ p.wanted })).0
        ≡ none
      → Applies f p
          (copy_blob digest size c f f.path (some d) (record p { wanted = f.path ∷ p.wanted })).1
  unfolding copy_blob
  copy_blob-Applies unread f d p flat own e = cc (e)
  copy_blob-Applies (broken left) f d p flat own e = cc (e)
  copy_blob-Applies (copied t true) f d p flat own e = rw flat (
      put-Applies f p (record { content = d; x = f.x; mtime = t })
        (some (record { sha = f.sha; size = size d; mtime = t })) own refl
        (λ b same. ground (arith, same)))
  copy_blob-Applies (copied t false) f d p flat own e = rw flat (record {
    shown = record {
      entry = record { content = d; x = f.x; mtime = t };
      there = rw (eq_bytes_refl f.path) refl;
      same = own;
      mode = refl;
    };
    elsewhere = λ k apart. rw apart refl;
    listed = refl;
    recorded = λ k apart. refl;
    fresh = λ a old now. absurd (let no' : none ≡ some a = sym old ∙ now in cc);
  })

  unchanged-true :
      (o : Option AppliedFile) (f : File) (t : Option (FileEntry D))
      → unchanged digest size o f t ≡ true
      → (a : AppliedFile) × (e : FileEntry D) × (o ≡ some a)
        × (t ≡ some e)
        × (a.sha ≡ f.sha)
        × (size e.content ≡ a.size)
        × (e.mtime ≡ a.mtime)
  unfolding unchanged
  unchanged-true none f t h = cc (h)
  unchanged-true (some a) f none h = cc (h)
  unchanged-true (some a) f (some e) h = (
    a,
    e,
    refl,
    refl,
    eq_bytes→eq a.sha f.sha (ground (arith, h)),
    ground (arith, h),
    ground (arith, h),
  )

  apply_file-Applies :
      (disk : Disk D) (applied : Applied) (s : Store D) (f : File) (p : Progress D)
      → IsVerified digest s
      → disk.chmods f.path ≡ true
      → clean_path f.path ≡ f.path
      → IsHonest applied p.tree f.path
      → (apply_file digest size disk applied s f f.path p).0 ≡ none
      → Applies f p (apply_file digest size disk applied s f f.path p).1
  unfolding apply_file chmod copy_blob IsVerified IsHonest
  apply_file-Applies disk applied s f p good works flat honest e =
      elim (Bool-cases (unchanged digest size (applied f.path) f (p.tree (clean_path f.path)))) [
        | inl same ↦
            let (a, en, known, there, named, long, late) =
              unchanged-true (applied f.path) f (p.tree (clean_path f.path)) same in
            let at : p.tree f.path ≡ some en = rw flat at there in
            rw (same, flat, at, known, works)
              (put-Applies f p (record en { x = f.x }) (some a)
                (honest a en known at long late ∙ named) refl (λ b one. cc (named, one)))
        | inr other ↦ elim (Bool-cases (disk.dir_made (clean_path f.path))) [
          | inr no' ↦ absurd (let gone : some not_written ≡ none = rw (other, no') at e in cc)
          | inl made ↦ elim (Option-cases (s.blobs f.sha)) [
            | inl gone ↦
                absurd (let fails : some missing_blob ≡ none = rw (other, made, gone) at e in cc)
            | inr (d, there) ↦
                rw (other, made, there)
                  (copy_blob-Applies (disk.copies (clean_path f.path)) f d p flat
                    (good f.sha d there).0 (rw (other, made, there) at e))
          ]
        ]
      ]

  pub apply_step-Applies :
      (disk : Disk D) (applied : Applied) (s : Store D) (f : File) (p : Progress D)
      → IsVerified digest s
      → disk.chmods f.path ≡ true
      → clean_path f.path ≡ f.path
      → IsHonest applied p.tree f.path
      → (apply_step digest size disk applied s f p).0 ≡ none
      → Applies f p (apply_step digest size disk applied s f p).1
  unfolding apply_step
  apply_step-Applies disk applied s f p good works flat honest e = elim (safe_rel-cases f.path) [
    | inr (why, bad) ↦ absurd (let gone : some why ≡ none = rw (bad, apply_step) at e in cc)
    | inl safe ↦ elim (Bool-cases (has_blob digest f.sha s)) [
      | inr gone ↦
          absurd (let fails : some missing_blob ≡ none = rw (safe, gone, apply_step) at e in cc)
      | inl there ↦
          rw (safe, there, apply_step)
            (apply_file-Applies disk applied s f p good works flat honest
              (rw (safe, there, apply_step) at e))
    ]
  ]
