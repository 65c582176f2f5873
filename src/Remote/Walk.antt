-- ===== src/Remote/Walk.antt =====
-- internal/remote/client.go: the manifest of a directory.
use gmux.Prelude.{
  ℕ, ◌+◌, Bool, true, false, ◌||◌, List, [], ◌∷◌, ◌++◌, Option, none, some, if◌then◌else◌,
  sort_stable,
}
use gmux.Fence.Bytes.{Bytes, eq_bytes}
use gmux.Session.{File, bytes_before}
use gmux.Remote.Cache.{Info, HashCache, Hashed, hash_file}

-- A directory tree, entries in the order of WalkDir: a directory that cannot be read is an error of
-- the walk, and what is no regular file or cannot be looked at is passed over.
mutual
  pub data Node (D : Type 0) : Type 0 where
    regular : Info D → Node D
    directory : Nodes D → Node D
    unreadable : Node D
    other : Node D

  pub data Nodes (D : Type 0) : Type 0 where
    nil : Nodes D
    node : Bytes → Node D → Nodes D → Nodes D

-- ".git" and ".gmux".
unfoldable pub is_skipped : Bytes → Bool
unfolding eq_bytes
is_skipped name =
    eq_bytes name (46 ∷ 103 ∷ 105 ∷ 116 ∷ []) || eq_bytes name (46 ∷ 103 ∷ 109 ∷ 117 ∷ 120 ∷ [])

-- `filepath.Rel(root, p)` of the entry with this name in the directory at this path.
abbrev pub below : Bytes → Bytes → Bytes
below [] name = name
below (c ∷ dir) name = (c ∷ dir) ++ 47 ∷ name

-- What the walk has gathered.
pub record Scan : Type 0 where
  pub out : List File
  pub count : ℕ
  pub cache : Option HashCache

abbrev pub file_of : {D : Type 0} → Bytes → Bytes → Info D → File
file_of rel sum fi = record { path = rel; sha = sum; size = fi.identity.size; x = fi.executable }

abbrev pub before_file : File → File → Bool
before_file f g = bytes_before f.path g.path

-- What the callback does with the answer of `hashFile`. `true` stands for no error.
unfoldable pub visited :
    {D : Type 0} → Bytes → Info D → Scan → Option Hashed × Option HashCache → Bool × Scan
visited rel fi sc (none, cache) = (false, record sc { cache = cache })
visited rel fi sc (some h, cache) = (
  true,
  record {
    out = sc.out ++ file_of rel h.sum fi ∷ [];
    count = if h.hashed then sc.count + 1 else sc.count;
    cache = cache;
  },
)

module _ {D : Type 0} (digest : D → Bytes) (root : Bytes) where
  -- The callback for a regular file.
  unfoldable pub visit_file : Bytes → Info D → Scan → Bool × Scan
  unfolding hash_file visited
  visit_file rel fi sc = visited rel fi sc (hash_file digest sc.cache (root ++ 47 ∷ rel) fi)

  -- `filepath.WalkDir`, which stops at the first error.
  unfoldable mutual
    unfolding visit_file is_skipped

    pub walk : Bytes → Bytes → Node D → Scan → Bool × Scan
    walk name rel (regular fi) sc = visit_file rel fi sc
    walk name rel (directory entries) sc =
        if is_skipped name then (true, sc) else walk_all rel entries sc
    walk name rel unreadable sc = (false, sc)
    walk name rel other sc = (true, sc)

    pub walk_all : Bytes → Nodes D → Scan → Bool × Scan
    walk_all dir nil sc = (true, sc)
    walk_all dir (node name n rest) sc =
        let (fine, next) = walk name (below dir name) n sc in
        if fine then walk_all dir rest next else (false, next)

  -- `buildManifest` of the entries of a directory that is not itself passed over.
  unfoldable pub build_manifest : Nodes D → Option HashCache → Bool × Scan
  unfolding walk_all
  build_manifest entries cache =
      let (fine, sc) = walk_all [] entries (record { out = []; count = 0; cache = cache }) in
      (fine, record sc { out = sort_stable before_file sc.out })
