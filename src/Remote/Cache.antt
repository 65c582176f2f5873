-- ===== src/Remote/Cache.antt =====
-- internal/remote/hashcache.go: the digests of files by their identity.
use gmux.Prelude.{
  ℕ, ◌==◌, Bool, true, false, not, ◌&&◌, List, [], Option, none, some, if◌then◌else◌, ltb, length,
}
use gmux.Fence.Bytes.{Bytes}
use gmux.Maps.{find, store}

-- Device, inode, size and modification time of a file.
pub record Identity : Type 0 where
  pub dev : ℕ
  pub ino : ℕ
  pub size : ℕ
  pub mtime : ℕ

-- `cacheEntry`.
pub record CacheEntry : Type 0 where
  pub identity : Identity
  pub sha : Bytes

pub record HashCache : Type 0 where
  pub m : List (Bytes × CacheEntry)
  pub dirty : Bool

unfoldable pub same_identity : Identity → Identity → Bool
same_identity a b = (a.dev == b.dev && a.ino == b.ino) && (a.size == b.size && a.mtime == b.mtime)

pub record Hashed : Type 0 where
  pub sum : Bytes
  pub hashed : Bool

-- A file as the walk meets it. Its content is `none` if it cannot be opened and read.
pub record Info (D : Type 0) : Type 0 where
  pub identity : Identity
  pub executable : Bool
  pub content : Option D

module _ {D : Type 0} (digest : D → Bytes) where
  -- The entry of the cache for the path, if the file is still the one that it was made of.
  unfoldable pub cached : Option HashCache → Bytes → Identity → Option Bytes
  unfolding find same_identity
  cached none path id = none
  cached (some h) path id = elim (find path h.m) [
    | none ↦ none
    | some e ↦ if same_identity e.identity id then some e.sha else none
  ]

  unfoldable pub remember : Bytes → Identity → Bytes → Option HashCache → Option HashCache
  unfolding store
  remember path id sum none = none
  remember path id sum (some h) =
      some (record { m = store path (record { identity = id; sha = sum }) h.m; dirty = true })

  -- `hashFile`, where `none` is an error.
  unfoldable pub hash_file : Option HashCache → Bytes → Info D → Option Hashed × Option HashCache
  unfolding cached remember
  hash_file h path fi = elim (cached h path fi.identity) [
    | some sum ↦ (some (record { sum = sum; hashed = false }), h)
    | none ↦ elim fi.content [
      | none ↦ (none, h)
      | some d ↦
          (some (record { sum = digest d; hashed = true }), remember path fi.identity (digest d) h)
    ]
  ]

-- `save`, but for the file that it writes.
unfoldable pub save : Option HashCache → Option HashCache
save none = none
save (some h) =
    if not h.dirty
    then some h
    else some (record { m = if ltb 200000 (length h.m) then [] else h.m; dirty = false })
