-- ===== src/Remote/Arrival.antt =====
-- internal/remote/client.go with internal/session/session.go: Sync comes to its end.
use gmux.Prelude.{
  ℕ, ◌≡◌, ◌≢◌, ◌⊎◌, refl, sym, ◌∙◌, subst, true, Option, none, some, List, [], ◌∷◌, ok, All,
  All-imp, All-In, In, In-All, Bool-cases, arith, inl, inr,
}
use gmux.Fence.Bytes.{Bytes, eq_bytes, eq_bytes_refl, eq_bytes→eq}
use gmux.Maps.{find, store, find-store, ne_of_eq_bytes}
use gmux.Session.{
  made, File, Store, Failure, put_blob_from, put, valid_sha, safe_rel, safe_id, has_blob, missing,
}
use gmux.Session.Blobs.{missing_lem}
use gmux.Session.Apply.{Disk, Space, apply}
use gmux.Session.Going.{Obeys, IsReady, apply-goes}
use gmux.Remote.Cache.{HashCache}
use gmux.Remote.Walk.{Nodes, build_manifest}
use gmux.Remote.Sync.{
  Wire, answered, Call, by_sha, blob, over_wire, upload, upload_all, reply, apply_call, send, sync,
}

-- The file of the manifest whose path is kept for a digest.
Holder : List File → List (Bytes × Bytes) → Bytes → Type 0
Holder files m sha = (f : File) × In f files × (f.sha ≡ sha) × (find sha m ≡ some f.path)

Holder-wider :
    (g : File) (files : List File) (m : List (Bytes × Bytes)) (sha : Bytes)
    → Holder files m sha
    → Holder (g ∷ files) m sha
unfolding Holder
Holder-wider g files m sha (f, i, same, at) = (f, inr i, same, at)

not_first :
    (g : File) (files : List File) (sha : Bytes)
    → g.sha ≢ sha
    → ((f : File) → In f files → f.sha ≢ sha)
    → (f : File) → In f (g ∷ files)
    → f.sha ≢ sha
not_first g files sha apart others f (inl e) = subst (λ (h : File). h.sha ≢ sha) (sym e) apart
not_first g files sha apart others f (inr i) = others f i

by_sha-find :
    (files : List File) (m : List (Bytes × Bytes)) (sha : Bytes)
    → Holder files (by_sha files m) sha
      ⊎ ((find sha (by_sha files m) ≡ find sha m) × ((f : File) → In f files → f.sha ≢ sha))
unfolding by_sha Holder
by_sha-find [] m sha = inr (refl, λ f i. absurd i)
by_sha-find (g ∷ files) m sha = elim (by_sha-find files (store g.sha g.path m) sha) [
  | inl h ↦ inl (Holder-wider g files (by_sha (g ∷ files) m) sha h)
  | inr (same, others) ↦
      let at = same ∙ find-store g.sha sha g.path m in
      elim (Bool-cases (eq_bytes g.sha sha)) [
        | inl own ↦ inl (g, inl refl, eq_bytes→eq g.sha sha own, at ∙ rw own refl)
        | inr apart ↦ inr (
          at ∙ rw apart refl,
          λ f i. not_first g files sha (ne_of_eq_bytes g.sha sha apart) others f i,
        )
      ]
]

module _ {D : Type 0} (digest : D → Bytes) (size : D → ℕ) (wire : Wire D) where
  -- A file with a safe path and the digest of what is sent of it.
  abbrev pub IsSendable : File → Type 0
  IsSendable f =
      (safe_rel f.path ≡ ok f.path)
      × (valid_sha f.sha ≡ true)
      × (d : D) × (wire.sends f.path ≡ some d)
      × (digest d ≡ f.sha)

  -- Every request is answered, and the host can write the blobs.
  pub record Works : Type 0 where
    pub manifest : wire.manifest_answered ≡ true
    pub opens : (path : Bytes) → wire.opens path ≡ true
    pub uploads : (sha : Bytes) → wire.uploads sha ≡ answered
    pub temporary : (sha : Bytes) → wire.temporary sha ≡ made true
    pub applies : wire.applies ≡ answered

  module _ (works : Works) where
    abbrev with_blob : Bytes → D → Store D → Store D
    with_blob sha d s = record s { blobs = put sha (some d) s.blobs }

    Deliverable : List (Bytes × Bytes) → Bytes → Type 0
    Deliverable paths sha =
        (path : Bytes) × (d : D) × (find sha paths ≡ some path)
        × (wire.sends path ≡ some d)
        × (digest d ≡ sha)
        × (valid_sha sha ≡ true)

    received-arrives :
        (sha : Bytes) (d : D) (s : Store D)
        → digest d ≡ sha
        → valid_sha sha ≡ true
        → put_blob_from digest sha (some d) (wire.temporary sha) s ≡ (none, with_blob sha d s)
    unfolding put_blob_from
    received-arrives sha d s own valid =
        let same : eq_bytes (digest d) sha ≡ true = rw own (eq_bytes_refl sha) in
        rw (valid, works.temporary sha, same) refl

    blob-arrives :
        (sha : Bytes) (d : D) (s : Store D)
        → digest d ≡ sha
        → valid_sha sha ≡ true
        → blob digest size wire sha (some d) s ≡ (true, with_blob sha d s)
    unfolding blob
    blob-arrives sha d s own valid = rw (received-arrives sha d s own valid, blob) refl

    upload-arrives :
        (paths : List (Bytes × Bytes)) (sha : Bytes) (s : Store D)
        → Deliverable paths sha
        → (d : D) × (valid_sha sha ≡ true)
          × (upload digest size wire paths sha s ≡ (true, with_blob sha d s))
    unfolding upload over_wire Deliverable
    upload-arrives paths sha s (path, d, at, sent, own, valid) = (
      d,
      valid,
      rw (at, upload, works.opens path, works.uploads sha, sent) (blob-arrives sha d s own valid),
    )

    has_blob-own :
        (sha : Bytes) (d : D) (s : Store D)
        → valid_sha sha ≡ true
        → has_blob digest sha (with_blob sha d s) ≡ true
    unfolding has_blob
    has_blob-own sha d s valid = rw (valid, eq_bytes_refl sha) refl

    has_blob-other :
        (k sha : Bytes) (d : D) (s : Store D)
        → has_blob digest k s ≡ true
        → has_blob digest k (with_blob sha d s) ≡ true
    unfolding has_blob
    has_blob-other k sha d s h = elim (Bool-cases (eq_bytes k sha)) [
      | inl same ↦ rw same (ground (arith, h))
      | inr apart ↦ rw apart h
    ]

    -- The uploads go well, every digest of the list has its blob, and no other blob is lost.
    record Uploaded (shas : List Bytes) (s : Store D) (r : Call (Store D)) : Type 0 where
      pub fine : r.0 ≡ true
      pub keeps : (k : Bytes) → has_blob digest k s ≡ true → has_blob digest k r.1 ≡ true
      pub brings : All (λ sha. has_blob digest sha r.1 ≡ true) shas

    upload_all-Uploaded :
        (paths : List (Bytes × Bytes)) (shas : List Bytes) (s : Store D)
        → All (Deliverable paths) shas
        → Uploaded shas s (upload_all digest size wire paths shas s)
    unfolding upload_all
    upload_all-Uploaded paths [] s h = record { fine = refl; keeps = λ k there. there; brings = tt }
    upload_all-Uploaded paths (sha ∷ shas) s h =
        let (d, valid, e) = upload-arrives paths sha s h.0 in
        let rest = upload_all-Uploaded paths shas (with_blob sha d s) h.1 in
        rw (e, upload_all)
          (record {
            fine = rest.fine;
            keeps = λ k there. rest.keeps k (has_blob-other k sha d s there);
            brings = (rest.keeps sha (has_blob-own sha d s valid), rest.brings);
          })

    missing-Deliverable :
        (files : List File) (s : Store D)
        → All IsSendable files
        → All (Deliverable (by_sha files [])) (missing digest files s)
    unfolding Deliverable Holder find
    missing-Deliverable files s h =
        All-imp (missing digest files s)
          (λ sha m.
            let (valid0, f, i, own) = m.0 in
            elim (by_sha-find files [] sha) [
              | inr (gone, others) ↦ absurd (others f i own)
              | inl (g, j, same, at) ↦
                  let (safe, valid, d, sent, content) = All-In IsSendable files h j in
                  (g.path, d, at, sent, content ∙ same, valid0)
            ])
          (missing_lem digest files s).0

    Uploaded-IsReady :
        (disk : Disk D) (obeys : Obeys disk) (files : List File) (s : Store D) (r : Call (Store D))
        → All IsSendable files
        → Uploaded (missing digest files s) s r
        → All (IsReady digest size disk obeys r.1) files
    Uploaded-IsReady disk obeys files s r h up = In-All files (λ f i.
        let (safe, valid, d, sent, own) = All-In IsSendable files h i in
        (
          safe,
          elim (Bool-cases (has_blob digest f.sha s)) [
            | inl there ↦ up.keeps f.sha there
            | inr gone ↦
                All-In (λ sha. has_blob digest sha r.1 ≡ true) (missing digest files s) up.brings
                  ((missing_lem digest files s).1 f i valid gone)
          ],
        ))

    reply-goes :
        (r : Option Failure × Store D × Space D) → r.0 ≡ none → (reply digest size wire r).0 ≡ true
    unfolding reply
    reply-goes (none, t, after) e = refl
    reply-goes (some why, t, after) e = cc (e)

    over_wire-answered :
        {S : Type 0} (before : S) (after : Call S)
        → over_wire digest size wire wire.applies before after ≡ after
    unfolding over_wire
    over_wire-answered before after = rw (works.applies, over_wire) refl

    send-true :
        (disk : Disk D) (obeys : Obeys disk) (id : Bytes) (files : List File) (s : Store D)
        (space : Space D)
        → safe_id id ≡ true
        → All IsSendable files
        → (send digest size wire disk id files s space).0 ≡ true
    unfolding send apply_call
    send-true disk obeys id files s space safe h =
        let paths = by_sha files [] in
        let r = upload_all digest size wire paths (missing digest files s) s in
        let up =
          upload_all-Uploaded paths (missing digest files s) s (missing-Deliverable files s h) in
        rw
          (
            works.manifest,
            send,
            up.fine,
            over_wire-answered (r.1, space) (apply_call digest size wire disk id files r.1 space),
          )
          (reply-goes (apply digest size disk id files true r.1 space) (
            apply-goes digest size disk obeys id files true r.1 space safe
              (Uploaded-IsReady disk obeys files s r h up)))

    -- Sync reports no error if buildManifest has none, the session's id is good, each file of the
    -- manifest has a safe path and a digest that what is sent of it has, every request is answered,
    -- and the host's disk makes the directories and writes the files that it is asked for.
    pub sync-true :
        (disk : Disk D)
        → Obeys disk
        → (root id : Bytes) (entries : Nodes D) (cache : Option HashCache) (s : Store D)
          (space : Space D)
        → safe_id id ≡ true
        → (build_manifest digest root entries cache).0 ≡ true
        → All IsSendable (build_manifest digest root entries cache).1.out
        → (sync digest size wire disk root id entries cache s space).1.0 ≡ true
    unfolding sync
    sync-true disk obeys root id entries cache s space safe fine h =
        rw (fine, sync)
          (send-true disk obeys id (build_manifest digest root entries cache).1.out s space safe h)
