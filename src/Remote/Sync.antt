-- ===== src/Remote/Sync.antt =====
-- internal/remote/client.go and internal/api/remote.go: Sync, the client's calls and what the host
-- answers. What happens on the way and to the client's files is an input.
use gmux.Prelude.{ℕ, Bool, true, false, not, List, [], ◌∷◌, Option, none, some, if◌then◌else◌}
use gmux.Fence.Bytes.{Bytes}
use gmux.Maps.{find, store}
use gmux.Session.{Temporary, File, Store, Failure, missing, put_blob_from}
use gmux.Session.Apply.{Disk, Space, apply}
use gmux.Remote.Cache.{HashCache, save}
use gmux.Remote.Walk.{Nodes, build_manifest}

-- A request does not reach the host, its answer does not reach the client, or both do.
pub data Trip : Type 0 where
  unsent unanswered answered : Trip

-- `sends` is what of the file at a path the host gets, `none` if that breaks off.
pub record Wire (D : Type 0) : Type 0 where
  pub manifest_answered : Bool
  pub opens : Bytes → Bool
  pub sends : Bytes → Option D
  pub uploads : Bytes → Trip
  pub temporary : Bytes → Temporary
  pub applies : Trip

-- `bySHA`: the path of a file for each digest.
unfoldable pub by_sha : List File → List (Bytes × Bytes) → List (Bytes × Bytes)
by_sha [] m = m
by_sha (f ∷ files) m = by_sha files (store f.sha f.path m)

-- What the client has of a call: that it went well, and the state of the host after it.
abbrev pub Call : Type 0 → Type 0
Call S = Bool × S

abbrev pub blob_status : {S : Type 0} → Option Failure × S → Call S
blob_status (some e, s) = (false, s)
blob_status (none, s) = (true, s)

module _ {D : Type 0} (digest : D → Bytes) (size : D → ℕ) (wire : Wire D) where
  -- `PUT /v1/blobs/{sha}`: an error of PutBlobFrom is status 400.
  unfoldable pub blob : Bytes → Option D → Store D → Call (Store D)
  blob sha received s = blob_status (put_blob_from digest sha received (wire.temporary sha) s)

  -- The answer that the client gets of a call, and the host's state.
  unfoldable pub over_wire : {S : Type 0} → Trip → S → Call S → Call S
  over_wire unsent before after = (false, before)
  over_wire unanswered before (fine, after) = (false, after)
  over_wire answered before after = after

  unfoldable pub upload : List (Bytes × Bytes) → Bytes → Store D → Call (Store D)
  unfolding blob over_wire find
  upload paths sha s = elim (find sha paths) [
    | none ↦ (false, s)
    | some path ↦
        if wire.opens path
        then over_wire (wire.uploads sha) s (blob sha (wire.sends path) s)
        else (false, s)
  ]

  unfoldable pub upload_all : List (Bytes × Bytes) → List Bytes → Store D → Call (Store D)
  unfolding upload
  upload_all paths [] s = (true, s)
  upload_all paths (sha ∷ shas) s =
      let (fine, t) = upload paths sha s in if fine then upload_all paths shas t else (false, t)

  -- `POST /v1/sessions/{id}/apply` with prune: an error of Apply is status 400.
  unfoldable pub reply : Option Failure × Store D × Space D → Call (Store D × Space D)
  reply (some e, t, after) = (false, (t, after))
  reply (none, t, after) = (true, (t, after))

  unfoldable pub apply_call :
      Disk D → Bytes → List File → Store D → Space D → Call (Store D × Space D)
  unfolding reply
  apply_call disk id files s space = reply (apply digest size disk id files true s space)

  -- The calls of `Sync` on the manifest of the directory.
  unfoldable pub send : Disk D → Bytes → List File → Store D → Space D → Call (Store D × Space D)
  unfolding upload_all apply_call over_wire by_sha
  send disk id files s space =
      if not wire.manifest_answered
      then (false, (s, space))
      else let (fine, t) = upload_all (by_sha files []) (missing digest files s) s in
        if fine
        then over_wire wire.applies (t, space) (apply_call disk id files t space)
        else (false, (t, space))

  -- `Sync` of a directory, with the client's cache.
  unfoldable pub sync :
      Disk D
      → Bytes
      → Bytes
      → Nodes D
      → Option HashCache
      → Store D
      → Space D
      → Option HashCache × Call (Store D × Space D)
  unfolding send
  sync disk root id entries cache s space =
      let (fine, sc) = build_manifest digest root entries cache in
      (save sc.cache, if fine then send disk id sc.out s space else (false, (s, space)))
