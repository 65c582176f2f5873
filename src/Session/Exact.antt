-- ===== src/Session/Exact.antt =====
-- internal/session/session.go: after Apply the workspace is the manifest.
use gmux.Maps.{eq_bytes-ne, eq_bytes-sym}
use gmux.Session.Blobs.{IsVerified}
use gmux.Fence.Bytes.{eq_bytes_refl, eq_bytes→eq, eq_bytes, Bytes}
use gmux.Prelude.{
  All-imp, ap, Bool, sym, ◌∙◌, ◌≢◌, ◌≡◌, ◌∷◌, ◌||◌, List, [], true, false, none, some, ℕ,
  Bool-cases, Option-cases, arith, refl, if◌then◌else◌, inl, inr, In, All, Distinct,
}
use gmux.Session.{File, Store, among}
use gmux.Session.Apply.{
  apply_step, prune, apply_files, clean_path, Disk, Applied, AppliedFile, FileEntry, Progress, Tree,
}
use gmux.Session.Workspaces.{IsManifest, paths, IsHonest, Shows, Applies, apply_step-Applies}

or_false : (a b : Bool) → (a || b) ≡ false → (a ≡ false) × (b ≡ false)
or_false a b h = (ground (arith, h), ground (arith, h))

module _ {D : Type 0} (digest : D → Bytes) (size : D → ℕ) (disk : Disk D) (applied : Applied)
    (s : Store D) (good : IsVerified digest s) (works : (k : Bytes) → disk.chmods k ≡ true) where
  -- What applied.json will say of a file is true of the workspace.
  abbrev pub Recorded : Tree D → Applied → Type 0
  Recorded tree next =
      (k : Bytes) (a : AppliedFile)
      → next k ≡ some a
      → (e : FileEntry D) × (tree k ≡ some e) × (digest e.content ≡ a.sha)

  pub record AppliesAll (files : List File) (p q : Progress D) : Type 0 where
    pub shown : (f : File) → In f files → Shows digest size q.tree f
    pub elsewhere : (k : Bytes) → among k (paths files) ≡ false → q.tree k ≡ p.tree k
    pub listed : (k : Bytes) → among k q.wanted ≡ (among k (paths files) || among k p.wanted)
    pub recorded : Recorded q.tree q.next

  -- What the loop needs of the files to come.
  pub record Ready (p : Progress D) (f : File) : Type 0 where
    pub flat : clean_path f.path ≡ f.path
    pub honest : IsHonest digest size applied p.tree f.path
    pub fresh : p.next f.path ≡ none

  Recorded-step :
      (f : File) (p q : Progress D)
      → Recorded p.tree p.next
      → p.next f.path ≡ none
      → Applies digest size f p q
      → Recorded q.tree q.next
  Recorded-step f p q old fresh step k a e = elim (Bool-cases (eq_bytes k f.path)) [
    | inl here ↦
        let at : k ≡ f.path = eq_bytes→eq k f.path here in
        (
          step.shown.entry,
          rw at step.shown.there,
          step.shown.same ∙ sym (step.fresh a fresh (rw at at e)),
        )
    | inr apart ↦
        let (en, there, own) = old k a (sym (step.recorded k apart) ∙ e) in
        (en, step.elsewhere k apart ∙ there, own)
  ]

  Ready-step :
      (f : File) (p q : Progress D) (files : List File)
      → All (λ g. g.path ≢ f.path) files
      → Applies digest size f p q
      → All (Ready p) files
      → All (Ready q) files
  unfolding IsHonest
  Ready-step f p q [] apart step h = tt
  Ready-step f p q (g ∷ files) apart step h =
      let far = eq_bytes-ne g.path f.path apart.0 in
      (
        record {
          flat = h.0.flat;
          honest =
              λ a e known there. h.0.honest a e known (sym (step.elsewhere g.path far) ∙ there);
          fresh = step.recorded g.path far ∙ h.0.fresh;
        },
        Ready-step f p q files apart.1 step h.1,
      )

  among-eq : (k t : Bytes) (ts : List Bytes) → among k (t ∷ ts) ≡ (eq_bytes k t || among k ts)
  unfolding among
  among-eq k t ts = rw (eq_bytes-sym t k)

  Shows-at :
      (f : File) (p q : Progress D)
      → Shows digest size p.tree f
      → q.tree f.path ≡ p.tree f.path
      → Shows digest size q.tree f
  Shows-at f p q h same = record {
    entry = h.entry;
    there = same ∙ h.there;
    same = h.same;
    mode = h.mode;
  }

  among-elsewhere :
      (f : File) (files : List File)
      → All (λ g. g.path ≢ f.path) files
      → among f.path (paths files) ≡ false
  unfolding among
  among-elsewhere f [] h = refl
  among-elsewhere f (g ∷ files) h = rw (eq_bytes-ne g.path f.path h.0) (among-elsewhere f files h.1)

  chained :
      (f : File) (files : List File) (p q r : Progress D)
      → All (λ g. g.path ≢ f.path) files
      → Applies digest size f p q
      → AppliesAll files q r
      → AppliesAll (f ∷ files) p r
  chained f files p q r apart step rest = record {
    shown = λ g i. shown_after g i;
    elsewhere = λ k far.
        let (near, rest') =
          or_false (eq_bytes k f.path) _ (sym (among-eq k f.path (paths files)) ∙ far) in
        rest.elsewhere k rest' ∙ step.elsewhere k near;
    listed = λ k. ground (
      arith,
      rest.listed k,
      among-eq k f.path (paths files),
      among-eq k f.path p.wanted,
      ap (among k) step.listed,
    );
    recorded = rest.recorded;
  }
    where
      shown_after : (g : File) → In g (f ∷ files) → Shows digest size r.tree g
      shown_after g (inl same) =
          rw same
            (Shows-at f q r step.shown (rest.elsewhere f.path (among-elsewhere f files apart)))
      shown_after g (inr i) = rest.shown g i

  pub apply_files-AppliesAll :
      (files : List File) (p : Progress D)
      → Distinct (λ f. f.path) files
      → All (Ready p) files
      → Recorded p.tree p.next
      → (apply_files digest size disk applied s files p).0 ≡ none
      → AppliesAll files p (apply_files digest size disk applied s files p).1
  unfolding apply_files among
  apply_files-AppliesAll [] p apart ready old e = record {
    shown = λ f i. absurd i;
    elsewhere = λ k far. refl;
    listed = λ k. refl;
    recorded = old;
  }
  apply_files-AppliesAll (f ∷ files) p apart ready old e =
      elim (Option-cases (apply_step digest size disk applied s f p).0) [
        | inr (why, bad) ↦ absurd (let gone : some why ≡ none = rw (bad, apply_files) at e in cc)
        | inl fine ↦
            let q = (apply_step digest size disk applied s f p).1 in
            let step =
              apply_step-Applies digest size disk applied s f p good (works f.path) ready.0.flat
                ready.0.honest fine in
            let elsewhere' : All (λ g. g.path ≢ f.path) files =
              All-imp files (λ g h same. h (sym same)) apart.0 in
            let rest =
              apply_files-AppliesAll files q apart.1
                (Ready-step f p q files elsewhere' step ready.1)
                (Recorded-step f p q old ready.0.fresh step) (rw (fine, apply_files) at e) in
            rw (fine, apply_files) (chained f files p q _ elsewhere' step rest)
      ]

  among-In : (f : File) (files : List File) → In f files → among f.path (paths files) ≡ true
  unfolding among
  among-In f [] i = absurd i
  among-In f (g ∷ files) (inl same) = rw (same, eq_bytes_refl g.path) refl
  among-In f (g ∷ files) (inr i) = ground (arith, among-In f files i)

  abbrev pub start : Tree D → Progress D
  start tree = record { tree = tree; next = λ rel. none; wanted = [] }

  pub Ready-all :
      (tree : Tree D) (files : List File)
      → All (λ f. clean_path f.path ≡ f.path) files
      → ((k : Bytes) → IsHonest digest size applied tree k)
      → All (Ready (start tree)) files
  Ready-all tree [] flat honest = tt
  Ready-all tree (f ∷ files) flat honest = (
    record { flat = flat.0; honest = honest f.path; fresh = refl },
    Ready-all tree files flat.1 honest,
  )

  pub pruned-IsManifest :
      (files : List File) (tree : Tree D) (q : Progress D)
      → ((k : Bytes) → disk.removes k ≡ true)
      → AppliesAll files (start tree) q
      → IsManifest digest size (prune digest size disk.removes q.wanted q.tree) files
  unfolding prune among
  pruned-IsManifest files tree q removes all = record {
    shown = λ f i.
        let listed : among f.path q.wanted ≡ true =
          all.listed f.path ∙ rw (among-In f files i) refl in
        Shows-at f q (record q { tree = prune digest size disk.removes q.wanted q.tree })
          (all.shown f i) (rw (listed, prune) refl);
    only = λ k far.
        let gone : among k q.wanted ≡ false = all.listed k ∙ rw far refl in
        rw (gone, removes k, prune) refl;
  }

  pub pruned-IsHonest :
      (wanted : List Bytes) (tree : Tree D) (next : Applied) (k : Bytes)
      → Recorded tree next
      → IsHonest digest size next (prune digest size disk.removes wanted tree) k
  unfolding IsHonest prune
  pruned-IsHonest wanted tree next k h a e known there long late =
      let (en, was, own) = h k a known in
      elim (Option-cases (prune digest size disk.removes wanted tree k)) [
        | inl gone ↦ absurd (let no' : none ≡ some e = sym gone ∙ there in cc)
        | inr (x, left) ↦ ground (arith, there, was, own)
      ]

  pub IsHonest-read :
      (b : Bool) (old : Applied) (tree : Tree D) (k : Bytes)
      → IsHonest digest size old tree k
      → IsHonest digest size (if b then old else (λ rel. none)) tree k
  unfolding IsHonest
  IsHonest-read true old tree k h = h
  IsHonest-read false old tree k h = λ a e known there long late. absurd (cc (known))
