-- ===== src/Session/Blobs.antt =====
-- session.go: what the store of blobs promises.
use gmux.Prelude.{
  ◌++◌, refl, none, some, arith, Option-cases, Option, Bool, not, ◌&&◌, In-sort_stable,
  All-sort_stable, All-imp, All, subst, ◌≡◌, sym, inl, inr, true, false, List, [], ◌∷◌, Bool-cases,
  In,
}
use gmux.Fence.Bytes.{eq_bytes_refl, Bytes, eq_bytes, eq_bytes→eq}
use gmux.Session.{
  unwritten, unmoved, moved, unmade, made, unwritten, made, receive_blob, write_blob, name_blob,
  Temporary, Written, Failure, put_blob, put_blob_from, bytes_before, wanted, absent, put, missing,
  File, Store, valid_sha, among, has_blob,
}

among-In : (sha : Bytes) (shas : List Bytes) → among sha shas ≡ true → In sha shas
unfolding among
among-In sha [] e = absurd (cc (e))
among-In sha (t ∷ ts) e = elim (Bool-cases (eq_bytes t sha)) [
  | inl same ↦ inl (sym (eq_bytes→eq t sha same))
  | inr apart ↦ inr (among-In sha ts (ground (arith, e, apart)))
]

-- A digest that is valid and that a manifest names.
abbrev pub IsWanted : List File → Bytes → Type 0
IsWanted files sha = (valid_sha sha ≡ true) × (f : File) × In f files × (f.sha ≡ sha)

wider : (f : File) (files : List File) (sha : Bytes) → IsWanted files sha → IsWanted (f ∷ files) sha
wider f files sha (valid, g, i, same) = (valid, g, inr i, same)

wanted-IsWanted : (files : List File) → All (IsWanted files) (wanted files)
unfolding wanted
wanted-IsWanted [] = tt
wanted-IsWanted (f ∷ files) =
    let rest = All-imp (wanted files) (λ sha h. wider f files sha h) (wanted-IsWanted files) in
    elim (Bool-cases (valid_sha f.sha && not (among f.sha (wanted files)))) [
      | inl new ↦ rw (new, wanted) ((ground (arith, new), f, inl refl, refl), rest)
      | inr old ↦ rw (old, wanted) rest
    ]

wanted_all :
    (f : File) (files : List File) → In f files → valid_sha f.sha ≡ true → In f.sha (wanted files)
unfolding wanted
wanted_all f [] i valid = i
wanted_all f (g ∷ files) (inl same) valid = elim (Bool-cases (among g.sha (wanted files))) [
  | inl old ↦
      let there = among-In g.sha (wanted files) old in
      rw (same, old, wanted)
        (elim (Bool-cases (valid_sha g.sha)) [ inl v ↦ rw v there | inr v ↦ rw v there ])
  | inr new ↦
      let own : valid_sha g.sha ≡ true = subst (λ (h : File). valid_sha h.sha ≡ true) same valid in
      rw (same, new, own, wanted) (inl refl)
]
wanted_all f (g ∷ files) (inr i) valid =
    let there = wanted_all f files i valid in
    elim (Bool-cases (valid_sha g.sha && not (among g.sha (wanted files)))) [
      | inl new ↦ rw (new, wanted) (inr there)
      | inr old ↦ rw (old, wanted) there
    ]

module _ {D : Type 0} (digest : D → Bytes) where
  -- A digest that a manifest wants, and that the store has no blob of.
  abbrev pub IsMissing : Store D → List File → Bytes → Type 0
  IsMissing s files sha = IsWanted files sha × (has_blob digest sha s ≡ false)

  absent-IsMissing :
      (s : Store D) (files : List File) (shas : List Bytes)
      → All (IsWanted files) shas
      → All (IsMissing s files) (absent digest s shas)
  unfolding absent
  absent-IsMissing s files [] h = tt
  absent-IsMissing s files (sha ∷ shas) h = elim (Bool-cases (has_blob digest sha s)) [
    | inl there ↦ rw (there, absent) (absent-IsMissing s files shas h.1)
    | inr gone ↦ rw (gone, absent) ((h.0, gone), absent-IsMissing s files shas h.1)
  ]

  absent_all :
      (s : Store D) (sha : Bytes) (shas : List Bytes)
      → In sha shas
      → has_blob digest sha s ≡ false
      → In sha (absent digest s shas)
  unfolding absent
  absent_all s sha [] i gone = i
  absent_all s sha (t ∷ shas) (inl same) gone =
      let own : has_blob digest t s ≡ false = subst (λ u. has_blob digest u s ≡ false) same gone in
      rw (own, absent) (inl same)
  absent_all s sha (t ∷ shas) (inr i) gone = elim (Bool-cases (has_blob digest t s)) [
    | inl there ↦ rw (there, absent) (absent_all s sha shas i gone)
    | inr none_here ↦ rw (none_here, absent) (inr (absent_all s sha shas i gone))
  ]

  -- Missing gives exactly the valid digests that a file of the manifest has and the store has no
  -- blob of.
  pub missing_lem :
      (files : List File) (s : Store D)
      → All (IsMissing s files) (missing digest files s)
        × ((f : File)
            → In f files
            → valid_sha f.sha ≡ true
            → has_blob digest f.sha s ≡ false
            → In f.sha (missing digest files s))
  unfolding missing
  missing_lem files s = (
    All-sort_stable bytes_before (IsMissing s files) (absent digest s (wanted files))
        (absent-IsMissing s files (wanted files) (wanted-IsWanted files)),
    (λ f i valid gone.
        In-sort_stable bytes_before f.sha (absent digest s (wanted files))
          (absent_all s f.sha (wanted files) (wanted_all f files i valid) gone)),
  )

  -- Every blob of a store stands under its own digest.
  unfoldable pub IsVerified : Store D → Type 0
  IsVerified s =
      (sha : Bytes) (d : D) → s.blobs sha ≡ some d → (digest d ≡ sha) × (valid_sha sha ≡ true)

  put-IsVerified :
      (s : Store D) (sha : Bytes) (data' : D)
      → IsVerified s
      → digest data' ≡ sha
      → valid_sha sha ≡ true
      → IsVerified (record s { blobs = put sha (some data') s.blobs })
  unfolding IsVerified
  put-IsVerified s sha data' good own valid i d e = elim (Bool-cases (eq_bytes i sha)) [
    | inl same ↦
        let here : some data' ≡ some d = rw same at e in
        let eq : i ≡ sha = eq_bytes→eq i sha same in
        let content : data' ≡ d = cc (here) in
        (cc (own, eq, content), subst (λ t. valid_sha t ≡ true) (sym eq) valid)
    | inr apart ↦ good i d (rw apart at e)
  ]

  -- What a call that stores a blob promises: every blob stands under its digest, all blobs but the
  -- one that was sent are as before, and this one is there, or, after an error, as before too.
  abbrev pub Stores : Bytes → Store D → Option Failure × Store D → Type 0
  Stores sha s (some e, t) = IsVerified t × (t.blobs ≡ s.blobs)
  Stores sha s (none, t) =
      IsVerified t
      × (has_blob digest sha t ≡ true)
      × ((k : Bytes) → eq_bytes k sha ≡ false → t.blobs k ≡ s.blobs k)

  stored :
      (s : Store D) (sha : Bytes) (data' : D)
      → IsVerified s
      → valid_sha sha ≡ true
      → eq_bytes (digest data') sha ≡ true
      → Stores sha s (none, record s { blobs = put sha (some data') s.blobs })
  unfolding has_blob
  stored s sha data' good valid same = (
    put-IsVerified s sha data' good (eq_bytes→eq (digest data') sha same) valid,
    rw (valid, eq_bytes_refl sha) refl,
    λ k other. rw other refl,
  )

  left-IsVerified :
      (s : Store D) (part : List D) → IsVerified s → IsVerified (record s { left = part })
  unfolding IsVerified
  left-IsVerified s part good = good

  write_blob-Stores :
      (sha : Bytes) (data' : D) (w : Written D) (s : Store D)
      → IsVerified s
      → valid_sha sha ≡ true
      → eq_bytes (digest data') sha ≡ true
      → Stores sha s (write_blob digest sha data' w s)
  write_blob-Stores sha data' (unwritten part) s good valid same =
      (left-IsVerified s (part ++ s.left) good, refl)
  write_blob-Stores sha data' unmoved s good valid same =
      (left-IsVerified s (data' ∷ s.left) good, refl)
  write_blob-Stores sha data' moved s good valid same = stored s sha data' good valid same

  name_blob-Stores :
      (sha : Bytes) (data' : D) (renames : Bool) (s : Store D)
      → IsVerified s
      → valid_sha sha ≡ true
      → eq_bytes (digest data') sha ≡ true
      → Stores sha s (name_blob digest sha data' renames s)
  name_blob-Stores sha data' false s good valid same =
      (left-IsVerified s (data' ∷ s.left) good, refl)
  name_blob-Stores sha data' true s good valid same = stored s sha data' good valid same

  receive_blob-Stores :
      (sha : Bytes) (received : Option D) (temp : Temporary) (s : Store D)
      → IsVerified s
      → valid_sha sha ≡ true
      → Stores sha s (receive_blob digest sha received temp s)
  receive_blob-Stores sha none temp s good valid = (good, refl)
  receive_blob-Stores sha (some data') unmade s good valid = (good, refl)
  receive_blob-Stores sha (some data') (made renames) s good valid =
      elim (Bool-cases (eq_bytes (digest data') sha)) [
        | inr other ↦ rw other (good, refl)
        | inl same ↦ rw same (name_blob-Stores sha data' renames s good valid same)
      ]

  -- PutBlob keeps every blob under its own digest and leaves all blobs but the one that was sent as
  -- they were; if it does not fail the store has this blob, which it may have had before, and if it
  -- fails, also in writing or renaming its temporary file, this one is as it was too.
  pub put_blob-Stores :
      (sha : Bytes) (data' : D) (w : Written D) (s : Store D)
      → IsVerified s
      → Stores sha s (put_blob digest sha data' w s)
  unfolding put_blob has_blob
  put_blob-Stores sha data' w s good = elim (Bool-cases (valid_sha sha)) [
    | inr bad ↦ rw (bad, put_blob) (good, refl)
    | inl valid ↦ elim (Bool-cases (eq_bytes (digest data') sha)) [
      | inr other ↦ rw (valid, other, put_blob) (good, refl)
      | inl same ↦ elim (Option-cases (s.blobs sha)) [
        | inr (d, there) ↦
            rw (valid, same, there, put_blob) (good, rw (valid, there) refl, λ k apart. refl)
        | inl gone ↦
            rw (valid, same, gone, put_blob) (write_blob-Stores sha data' w s good valid same)
      ]
    ]
  ]

  -- PutBlobFrom keeps every blob under its own digest and leaves all blobs but the one that was sent
  -- as they were; if it does not fail the store has this blob, and if it fails, also when the stream
  -- breaks off or the temporary file cannot be renamed, this one is as it was too.
  pub put_blob_from-Stores :
      (sha : Bytes) (received : Option D) (temp : Temporary) (s : Store D)
      → IsVerified s
      → Stores sha s (put_blob_from digest sha received temp s)
  unfolding put_blob_from
  put_blob_from-Stores sha received temp s good = elim (Bool-cases (valid_sha sha)) [
    | inr bad ↦ rw (bad, put_blob_from) (good, refl)
    | inl valid ↦ rw (valid, put_blob_from) (receive_blob-Stores sha received temp s good valid)
  ]
