-- ===== src/Remote/Listing.antt =====
-- internal/remote: with the cache or without, the manifest has every file with its digest.
use gmux.Prelude.{
  length, ltb, ◌≡◌, refl, sym, ◌∙◌, ap, Bool, true, false, List, [], ◌∷◌, ◌++◌, Option, none, some,
  if◌then◌else◌, Bool-cases, Option-cases, inl, inr, arith, append_assoc, append-nil, sort_stable,
}
use gmux.Fence.Bytes.{Bytes, eq_bytes, eq_bytes→eq}
use gmux.Session.{File}
use gmux.Maps.{find, find-store}
use gmux.Remote.Cache.{
  save, Identity, CacheEntry, HashCache, Info, Hashed, same_identity, cached, remember, hash_file,
}
use gmux.Remote.Walk.{
  visited, Node, Nodes, regular, directory, unreadable, other, nil, node, is_skipped, below, Scan,
  file_of, visit_file, walk, walk_all, before_file, build_manifest,
}

same_identity→eq : (a b : Identity) → same_identity a b ≡ true → a ≡ b
unfolding same_identity
same_identity→eq a b h = ground (arith, h)

module _ {D : Type 0} (digest : D → Bytes) (root : Bytes) (reads : Bytes → Identity → Bytes) where
  -- Every entry has the digest of the file that had its identity.
  abbrev pub IsTrue : Option HashCache → Type 0
  IsTrue none = Unit {0}
  IsTrue (some h) =
      (path : Bytes) (e : CacheEntry) → find path h.m ≡ some e → e.sha ≡ reads path e.identity

  abbrev pub at : Bytes → Bytes
  at rel = root ++ 47 ∷ rel

  -- The identity of each file tells its content.
  unfoldable mutual
    pub Tells : Bytes → Node D → Type 0
    Tells rel (regular fi) = (d : D) → fi.content ≡ some d → digest d ≡ reads (at rel) fi.identity
    Tells rel (directory entries) = TellsAll rel entries
    Tells rel unreadable = Unit {0}
    Tells rel other = Unit {0}

    pub TellsAll : Bytes → Nodes D → Type 0
    TellsAll dir nil = Unit {0}
    TellsAll dir (node name n rest) = Tells (below dir name) n × TellsAll dir rest

  -- The regular files, but for those in directories that are passed over, with their digests.
  unfoldable mutual
    unfolding is_skipped

    pub listing : Bytes → Bytes → Node D → List File
    listing name rel (regular fi) = file_of rel (reads (at rel) fi.identity) fi ∷ []
    listing name rel (directory entries) = if is_skipped name then [] else listing_all rel entries
    listing name rel unreadable = []
    listing name rel other = []

    pub listing_all : Bytes → Nodes D → List File
    listing_all dir nil = []
    listing_all dir (node name n rest) = listing name (below dir name) n ++ listing_all dir rest

  cached-reads :
      (cache : Option HashCache) (path : Bytes) (id : Identity) (sum : Bytes)
      → IsTrue cache
      → cached digest cache path id ≡ some sum
      → sum ≡ reads path id
  unfolding cached
  cached-reads none path id sum h e = cc (e)
  cached-reads (some c) path id sum h e = elim (Option-cases (find path c.m)) [
    | inl no' ↦ absurd (let gone : none ≡ some sum = rw (no', cached) at e in cc)
    | inr (en, there) ↦ elim (Bool-cases (same_identity en.identity id)) [
      | inr changed ↦ absurd (let gone : none ≡ some sum = rw (there, changed, cached) at e in cc)
      | inl same ↦
          let own : some en.sha ≡ some sum = rw (there, same, cached) at e in
          let one : en.identity ≡ id = same_identity→eq en.identity id same in
          let truth = h path en there in cc (own, one, truth)
    ]
  ]

  remember-IsTrue :
      (cache : Option HashCache) (path : Bytes) (id : Identity) (sum : Bytes)
      → sum ≡ reads path id
      → IsTrue cache
      → IsTrue (remember digest path id sum cache)
  unfolding remember
  remember-IsTrue none path id sum own h = tt
  remember-IsTrue (some c) path id sum own h = λ j e there. elim (Bool-cases (eq_bytes path j)) [
    | inl same ↦
        let here : path ≡ j = eq_bytes→eq path j same in
        let put : some (record { identity = id; sha = sum }) ≡ some e =
          rw (find-store path j (record { identity = id; sha = sum }) c.m, same) at there in
        let one : record { identity = id; sha = sum } ≡ e = cc (put) in rw (← here, ← one) own
    | inr apart ↦
        h j e (rw (find-store path j (record { identity = id; sha = sum }) c.m, apart) at there)
  ]

  -- What a part of the walk promises.
  record Gathers (files : List File) (sc : Scan) (r : Bool × Scan) : Type 0 where
    pub gathered : r.0 ≡ true → r.1.out ≡ sc.out ++ files
    pub truth : IsTrue r.1.cache

  hash_file-known :
      (cache : Option HashCache) (path : Bytes) (fi : Info D) (sum : Bytes)
      → cached digest cache path fi.identity ≡ some sum
      → hash_file digest cache path fi ≡ (some (record { sum = sum; hashed = false }), cache)
  unfolding hash_file
  hash_file-known cache path fi sum e = rw (e, hash_file) refl

  hash_file-read :
      (cache : Option HashCache) (path : Bytes) (fi : Info D)
      → cached digest cache path fi.identity ≡ none
      → hash_file digest cache path fi
        ≡ elim fi.content as (λ _. Option Hashed × Option HashCache) [
          | none ↦ (none, cache)
          | some d ↦ (
            some (record { sum = digest d; hashed = true }),
            remember digest path fi.identity (digest d) cache,
          )
        ]
  unfolding hash_file
  hash_file-read cache path fi e = rw (e, hash_file) refl

  visit_file-Gathers :
      (rel : Bytes) (fi : Info D) (sc : Scan)
      → ((d : D) → fi.content ≡ some d → digest d ≡ reads (at rel) fi.identity)
      → IsTrue sc.cache
      → Gathers
          (file_of rel (reads (at rel) fi.identity) fi ∷ [])
          sc
          (visit_file digest root rel fi sc)
  unfolding visit_file visited
  visit_file-Gathers rel fi sc tells h =
      elim (Option-cases (cached digest sc.cache (at rel) fi.identity)) [
        | inr (sum, known) ↦
            let own = cached-reads sc.cache (at rel) fi.identity sum h known in
            rw (hash_file-known sc.cache (at rel) fi sum known, visit_file, visited)
              (record { gathered = λ e. rw own refl; truth = h })
        | inl unknown ↦ elim (Option-cases fi.content) [
          | inl no' ↦
              let fails : hash_file digest sc.cache (at rel) fi ≡ (none, sc.cache) =
                hash_file-read sc.cache (at rel) fi unknown ∙ rw no' refl in
              rw (fails, visit_file, visited)
                (record { gathered = λ e. absurd (cc (e)); truth = h })
          | inr (d, content) ↦
              let hashed : hash_file digest sc.cache (at rel) fi ≡ (
                some (record { sum = digest d; hashed = true }),
                remember digest (at rel) fi.identity (digest d) sc.cache,
              ) =
                hash_file-read sc.cache (at rel) fi unknown ∙ rw content refl in
              rw (hashed, visit_file, visited)
                (record {
                  gathered = λ e. rw (tells d content) refl;
                  truth =
                      remember-IsTrue sc.cache (at rel) fi.identity (digest d) (tells d content) h;
                })
        ]
      ]

  walk-directory :
      (name rel : Bytes) (entries : Nodes D) (sc : Scan)
      → walk digest root name rel (directory entries) sc
        ≡ (if is_skipped name then (true, sc) else walk_all digest root rel entries sc)
  unfolding walk
  walk-directory name rel entries sc = refl

  walk_all-node :
      (dir name : Bytes) (n : Node D) (rest : Nodes D) (sc : Scan)
      → let r = walk digest root name (below dir name) n sc in
        walk_all digest root dir (node name n rest) sc
        ≡ (if r.0 then walk_all digest root dir rest r.1 else (false, r.1))
  unfolding walk_all
  walk_all-node dir name n rest sc = refl

  Gathers-none : (sc : Scan) (b : Bool) → IsTrue sc.cache → Gathers [] sc (b, sc)
  Gathers-none sc b h = record { gathered = λ e. sym (append-nil sc.out); truth = h }

  mutual
    unfolding walk walk_all listing listing_all Tells TellsAll

    walk-Gathers :
        (name rel : Bytes) (n : Node D) (sc : Scan)
        → Tells rel n
        → IsTrue sc.cache
        → Gathers (listing name rel n) sc (walk digest root name rel n sc)
    walk-Gathers name rel (regular fi) sc t h = visit_file-Gathers rel fi sc t h
    walk-Gathers name rel (directory entries) sc t h = elim (Bool-cases (is_skipped name)) [
      | inl skipped ↦ rw (walk-directory name rel entries sc, skipped) (Gathers-none sc true h)
      | inr entered ↦
          rw (walk-directory name rel entries sc, entered) (walk_all-Gathers rel entries sc t h)
    ]
    walk-Gathers name rel unreadable sc t h = record { gathered = λ e. absurd (cc (e)); truth = h }
    walk-Gathers name rel other sc t h = Gathers-none sc true h

    walk_all-Gathers :
        (dir : Bytes) (ns : Nodes D) (sc : Scan)
        → TellsAll dir ns
        → IsTrue sc.cache
        → Gathers (listing_all dir ns) sc (walk_all digest root dir ns sc)
    walk_all-Gathers dir nil sc t h = Gathers-none sc true h
    walk_all-Gathers dir (node name n rest) sc t h =
        let first = walk-Gathers name (below dir name) n sc t.0 h in
        let next = (walk digest root name (below dir name) n sc).1 in
        elim (Bool-cases (walk digest root name (below dir name) n sc).0) [
          | inr bad ↦
              rw (walk_all-node dir name n rest sc, bad)
                (record { gathered = λ e. absurd (cc (e)); truth = first.truth })
          | inl fine ↦
              let second = walk_all-Gathers dir rest next t.1 first.truth in
              rw (walk_all-node dir name n rest sc, fine)
                (record {
                  gathered = λ e.
                      second.gathered e
                      ∙ ap (λ (o : List File). o ++ listing_all dir rest) (first.gathered fine)
                      ∙ append_assoc sc.out _ _;
                  truth = second.truth;
                })
        ]

  -- If the identity of a file tells its content and the cache is true, buildManifest without an
  -- error gives the sorted listing of the regular files outside .git and .gmux with their digests,
  -- whatever the cache has, and with or without an error it leaves the cache true.
  pub build_manifest_lem :
      (entries : Nodes D) (cache : Option HashCache)
      → TellsAll [] entries
      → IsTrue cache
      → ((build_manifest digest root entries cache).0 ≡ true
          → (build_manifest digest root entries cache).1.out
            ≡ sort_stable before_file (listing_all [] entries))
        × IsTrue (build_manifest digest root entries cache).1.cache
  unfolding build_manifest
  build_manifest_lem entries cache t h =
      let all = walk_all-Gathers [] entries (record { out = []; count = 0; cache = cache }) t h in
      ((λ e. ap (sort_stable before_file) (all.gathered e)), all.truth)

  pub save-IsTrue : (cache : Option HashCache) → IsTrue cache → IsTrue (save cache)
  unfolding save find
  save-IsTrue none h = tt
  save-IsTrue (some c) h = elim (Bool-cases c.dirty) [
    | inr clean' ↦ rw (clean', save) h
    | inl dirty' ↦ elim (Bool-cases (ltb 200000 (length c.m))) [
      | inl long ↦ rw (dirty', long, save) (λ path e there. absurd (cc (there)))
      | inr short ↦ rw (dirty', short, save) h
    ]
  ]
