-- ===== src/Remote/Mirror.antt =====
-- internal/remote/client.go with internal/session/session.go: after Sync the workspace on the host is
-- the client's directory.
use gmux.Maps.{find}
use gmux.Fence.Bytes.{Bytes}
use gmux.Prelude.{
  All-sort_stable, Distinct-sort_stable, ℕ, ◌≡◌, true, List, [], ◌∷◌, Option, none, some,
  Bool-cases, Option-cases, inl, inr, sort_stable, All, Distinct,
}
use gmux.Session.{File, Store, Failure, missing, put_blob_from}
use gmux.Session.Blobs.{IsVerified, Stores, put_blob_from-Stores}
use gmux.Session.Apply.{Disk, Space, apply, clean_path}
use gmux.Session.Workspaces.{IsManifest, IsHonest}
use gmux.Session.Manifests.{IsVerified-same, Answers, apply-Answers, apply-blobs}
use gmux.Remote.Cache.{Identity, HashCache}
use gmux.Remote.Walk.{Nodes, before_file, build_manifest}
use gmux.Remote.Listing.{save-IsTrue, IsTrue, TellsAll, listing_all, build_manifest_lem}
use gmux.Remote.Sync.{
  blob_status, reply, Wire, Trip, unsent, unanswered, answered, Call, blob, over_wire, upload,
  upload_all, apply_call, send, sync, by_sha,
}

module _ {D : Type 0} (digest : D → Bytes) (size : D → ℕ) (wire : Wire D) where
  status-IsVerified :
      (sha : Bytes) (s : Store D) (r : Option Failure × Store D)
      → Stores digest sha s r
      → IsVerified digest (blob_status r).1
  status-IsVerified sha s (some e, t) h = h.0
  status-IsVerified sha s (none, t) h = h.0

  blob-IsVerified :
      (sha : Bytes) (received : Option D) (s : Store D)
      → IsVerified digest s
      → IsVerified digest (blob digest size wire sha received s).1
  unfolding blob
  blob-IsVerified sha received s good =
      status-IsVerified sha s (put_blob_from digest sha received (wire.temporary sha) s)
        (put_blob_from-Stores digest sha received (wire.temporary sha) s good)

  over_wire_keeps :
      {S : Type 0} (P : S → Type 0) (trip : Trip) (before : S) (after : Call S)
      → P before
      → P after.1
      → P (over_wire digest size wire trip before after).1
  unfolding over_wire
  over_wire_keeps P unsent before (b, t) h k = h
  over_wire_keeps P unanswered before (b, t) h k = k
  over_wire_keeps P answered before (b, t) h k = k

  upload-IsVerified :
      (paths : List (Bytes × Bytes)) (sha : Bytes) (s : Store D)
      → IsVerified digest s
      → IsVerified digest (upload digest size wire paths sha s).1
  unfolding upload
  upload-IsVerified paths sha s good = elim (Option-cases (find sha paths)) [
    | inl no' ↦ rw (no', upload) good
    | inr (path, there) ↦ elim (Bool-cases (wire.opens path)) [
      | inr shut ↦ rw (there, shut, upload) good
      | inl open' ↦
          rw (there, open', upload)
            (over_wire_keeps (IsVerified digest) (wire.uploads sha) s
              (blob digest size wire sha (wire.sends path) s) good
              (blob-IsVerified sha (wire.sends path) s good))
    ]
  ]

  upload_all-IsVerified :
      (paths : List (Bytes × Bytes)) (shas : List Bytes) (s : Store D)
      → IsVerified digest s
      → IsVerified digest (upload_all digest size wire paths shas s).1
  unfolding upload_all
  upload_all-IsVerified paths [] s good = good
  upload_all-IsVerified paths (sha ∷ shas) s good =
      let next = upload-IsVerified paths sha s good in
      elim (Bool-cases (upload digest size wire paths sha s).0) [
        | inl fine ↦ rw (fine, upload_all) (upload_all-IsVerified paths shas _ next)
        | inr bad ↦ rw (bad, upload_all) next
      ]

  -- What a call promises: on the host every blob stands under its digest, and if all went well the
  -- workspace is the manifest.
  abbrev pub Promise : List File → Call (Store D × Space D) → Type 0
  Promise files (b, (t, after)) =
      IsVerified digest t × (b ≡ true → IsManifest digest size after.files files)

  over_wire-Promise :
      (files : List File) (trip : Trip) (before : Store D × Space D)
      (after : Call (Store D × Space D))
      → IsVerified digest before.0
      → Promise files after
      → Promise files (over_wire digest size wire trip before after)
  unfolding over_wire
  over_wire-Promise files unsent (s, space) (b, (t, next)) good h = (good, λ e. absurd (cc (e)))
  over_wire-Promise files unanswered (s, space) (b, (t, next)) good h = (h.0, λ e. absurd (cc (e)))
  over_wire-Promise files answered (s, space) (b, (t, next)) good h = h

  module _ (disk : Disk D) (works : (k : Bytes) → disk.chmods k ≡ true)
      (removes : (k : Bytes) → disk.removes k ≡ true) where
    reply-Promise :
        (files : List File) (r : Option Failure × Store D × Space D)
        → IsVerified digest r.1
        → Answers digest size disk works removes files r
        → Promise files (reply digest size wire r)
    unfolding reply
    reply-Promise files (some e, t, after) good h = (good, λ b. absurd (cc (b)))
    reply-Promise files (none, t, after) good h = (good, λ b. h.0)

    apply_call-Promise :
        (id : Bytes) (files : List File) (s : Store D) (space : Space D)
        → IsVerified digest s
        → Distinct (λ f. f.path) files
        → All (λ f. clean_path f.path ≡ f.path) files
        → ((k : Bytes) → IsHonest digest size space.applied space.files k)
        → Promise files (apply_call digest size wire disk id files s space)
    unfolding apply_call
    apply_call-Promise id files s space good apart flat honest =
        reply-Promise files (apply digest size disk id files true s space)
          (IsVerified-same digest s _ (apply-blobs digest size disk id files true s space) good)
          (apply-Answers digest size disk works removes id files s space good apart flat honest)

    send-Promise :
        (id : Bytes) (files : List File) (s : Store D) (space : Space D)
        → IsVerified digest s
        → Distinct (λ f. f.path) files
        → All (λ f. clean_path f.path ≡ f.path) files
        → ((k : Bytes) → IsHonest digest size space.applied space.files k)
        → Promise files (send digest size wire disk id files s space)
    unfolding send
    send-Promise id files s space good apart flat honest =
        elim (Bool-cases wire.manifest_answered) [
          | inr no' ↦ rw (no', send) (good, λ b. absurd (cc (b)))
          | inl yes' ↦
              let paths = by_sha files [] in
              let shas = missing digest files s in
              let t = (upload_all digest size wire paths shas s).1 in
              let good' = upload_all-IsVerified paths shas s good in
              elim (Bool-cases (upload_all digest size wire paths shas s).0) [
                | inr bad ↦ rw (yes', bad, send) (good', λ b. absurd (cc (b)))
                | inl fine ↦
                    rw (yes', fine, send)
                      (over_wire-Promise files wire.applies (t, space)
                        (apply_call digest size wire disk id files t space) good'
                        (apply_call-Promise id files t space good' apart flat honest))
              ]
        ]

    -- After Sync, if it reports no error, the workspace on the host has exactly the client's
    -- files, with their digests and modes; and whatever fails on the way, the store's blobs stand
    -- under their digests and the client's cache is true; if the identity of a file tells its
    -- content, the paths are clean and distinct, cache, store and record were true before, and no
    -- change of a mode and no removal fails on the host.
    pub sync_lem :
        (root : Bytes) (reads : Bytes → Identity → Bytes) (id : Bytes) (entries : Nodes D)
        (cache : Option HashCache) (s : Store D) (space : Space D)
        → TellsAll digest root reads [] entries
        → IsTrue digest root reads cache
        → Distinct (λ f. f.path) (listing_all digest root reads [] entries)
        → All (λ f. clean_path f.path ≡ f.path) (listing_all digest root reads [] entries)
        → IsVerified digest s
        → ((k : Bytes) → IsHonest digest size space.applied space.files k)
        → let r = sync digest size wire disk root id entries cache s space in
          IsTrue digest root reads r.0
          × Promise (sort_stable before_file (listing_all digest root reads [] entries)) r.1
    unfolding sync
    sync_lem root reads id entries cache s space tells truth apart flat good honest =
        let files = listing_all digest root reads [] entries in
        let (gathered, truth') = build_manifest_lem digest root reads entries cache tells truth in
        (
          save-IsTrue digest root reads _ truth',
          elim (Bool-cases (build_manifest digest root entries cache).0) [
            | inr bad ↦ rw (bad, sync) (good, λ b. absurd (cc (b)))
            | inl fine ↦
                rw (fine, gathered fine, sync)
                  (send-Promise id (sort_stable before_file files) s space good
                    (Distinct-sort_stable before_file (λ f. f.path) files apart)
                    (All-sort_stable before_file (λ f. clean_path f.path ≡ f.path) files flat)
                    honest)
          ],
        )
