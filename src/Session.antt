-- ===== src/Session.antt =====
-- internal/session/session.go: the store of blobs that hosts a client's files. File contents are of
-- a type with the digest that sha256 and hex give them, a parameter of the model; strings are lists
-- of bytes and the maps are functions.
use gmux.Prelude.{
  ℕ, ◌+◌, ◌==◌, ◌≡◌, Bool, true, false, not, ◌&&◌, ◌||◌, List, [], ◌∷◌, ◌++◌, Option, none, some,
  if◌then◌else◌, ltb, leb, length, Result, ok, err, sort_stable,
}
use gmux.Fence.Bytes.{Bytes, eq_bytes, has_prefix}
pub mod Blobs
pub mod Apply
pub mod Workspaces
pub mod Exact
pub mod Manifests
pub mod Going

pub record File : Type 0 where
  pub path : Bytes
  pub sha : Bytes
  pub size : ℕ
  pub x : Bool

-- `left` has what stands in temporary files beside the blobs, under names that are no digests.
pub record Store (D : Type 0) : Type 0 where
  pub blobs : Bytes → Option D
  pub left : List D
  pub spaces : Bytes → Bool
  pub seen : Bytes → Option ℕ

-- How the file of a blob is written: the temporary file is not written whole, and this is left of it;
-- it is, but it cannot be renamed; or it gets the blob's name.
pub data Written (D : Type 0) : Type 0 where
  unwritten : List D → Written D
  unmoved moved : Written D

-- For an upload, whose temporary file is removed if its stream breaks off: the temporary file cannot
-- be made, or it can, and this says whether it can be renamed.
pub data Temporary : Type 0 where
  unmade : Temporary
  made : Bool → Temporary

pub data Failure : Type 0 where
  bad_sha mismatch bad_id not_written unsafe_path missing_blob : Failure

-- A character of a digest: 0 to 9 or a to f.
abbrev is_hex : ℕ → Bool
is_hex c = (leb 48 c && leb c 57) || (leb 97 c && leb c 102)

unfoldable pub all_hex : Bytes → Bool
all_hex [] = true
all_hex (c ∷ s) = is_hex c && all_hex s

-- `validSHA`.
unfoldable pub valid_sha : Bytes → Bool
unfolding all_hex
valid_sha s = length s == 64 && all_hex s

abbrev is_separator : ℕ → Bool
is_separator c = c == 47 || (c == 92 || c == 46)

unfoldable pub contains_separator : Bytes → Bool
contains_separator [] = false
contains_separator (c ∷ s) = is_separator c || contains_separator s

abbrev pub is_empty : Bytes → Bool
is_empty [] = true
is_empty (c ∷ s) = false

-- `safeID`, true for a nil error.
unfoldable pub safe_id : Bytes → Bool
unfolding contains_separator
safe_id id = not (is_empty id || contains_separator id)

unfoldable pub contains_dots : Bytes → Bool
contains_dots [] = false
contains_dots (c ∷ s) = has_prefix (c ∷ s) (46 ∷ 46 ∷ []) || contains_dots s

-- `safeRel`, on a system whose separator is the slash.
unfoldable pub safe_rel : Bytes → Result Failure Bytes
unfolding contains_dots
safe_rel rel =
    if is_empty rel || (has_prefix rel (47 ∷ []) || contains_dots rel)
    then err unsafe_path
    else ok rel

abbrev pub put : {A : Type 0} → Bytes → A → (Bytes → A) → Bytes → A
put k v f i = if eq_bytes i k then v else f i

-- The order of strings.
unfoldable pub bytes_before : Bytes → Bytes → Bool
bytes_before [] [] = false
bytes_before [] (y ∷ ys) = true
bytes_before (x ∷ xs) [] = false
bytes_before (x ∷ xs) (y ∷ ys) = ltb x y || (x == y && bytes_before xs ys)

unfoldable pub among : Bytes → List Bytes → Bool
among s [] = false
among s (t ∷ ts) = eq_bytes t s || among s ts

-- The digests that a manifest wants, each once.
unfoldable pub wanted : List File → List Bytes
unfolding among
wanted [] = []
wanted (f ∷ files) =
    let rest = wanted files in
    if valid_sha f.sha && not (among f.sha rest) then f.sha ∷ rest else rest

module _ {D : Type 0} (digest : D → Bytes) where
  abbrev pub is_some : Option D → Bool
  is_some none = false
  is_some (some d) = true

  -- `HasBlob`.
  unfoldable pub has_blob : Bytes → Store D → Bool
  has_blob sha s = valid_sha sha && is_some (s.blobs sha)

  unfoldable pub absent : Store D → List Bytes → List Bytes
  unfolding has_blob
  absent s [] = []
  absent s (sha ∷ shas) = if not (has_blob sha s) then sha ∷ absent s shas else absent s shas

  -- `Missing`.
  unfoldable pub missing : List File → Store D → List Bytes
  unfolding absent
  missing files s = sort_stable bytes_before (absent s (wanted files))

  abbrev pub write_blob : Bytes → D → Written D → Store D → Option Failure × Store D
  write_blob sha data' (unwritten part) s = (some not_written, record s { left = part ++ s.left })
  write_blob sha data' unmoved s = (some not_written, record s { left = data' ∷ s.left })
  write_blob sha data' moved s = (none, record s { blobs = put sha (some data') s.blobs })

  -- `PutBlob`.
  unfoldable pub put_blob : Bytes → D → Written D → Store D → Option Failure × Store D
  put_blob sha data' w s =
      if not (valid_sha sha)
      then (some bad_sha, s)
      else if not (eq_bytes (digest data') sha)
      then (some mismatch, s)
      else elim (s.blobs sha) [ some d ↦ (none, s) | none ↦ write_blob sha data' w s ]

  abbrev pub name_blob : Bytes → D → Bool → Store D → Option Failure × Store D
  name_blob sha data' false s = (some not_written, record s { left = data' ∷ s.left })
  name_blob sha data' true s = (none, record s { blobs = put sha (some data') s.blobs })

  abbrev pub receive_blob : Bytes → Option D → Temporary → Store D → Option Failure × Store D
  receive_blob sha none temp s = (some not_written, s)
  receive_blob sha (some data') unmade s = (some not_written, s)
  receive_blob sha (some data') (made renames) s =
      if not (eq_bytes (digest data') sha)
      then (some mismatch, s)
      else name_blob sha data' renames s

  -- `PutBlobFrom`, with what the stream gave into the temporary file, or `none` if the stream or the
  -- writing broke off.
  unfoldable pub put_blob_from : Bytes → Option D → Temporary → Store D → Option Failure × Store D
  put_blob_from sha received temp s =
      if not (valid_sha sha) then (some bad_sha, s) else receive_blob sha received temp s

  -- `Workspace`, which makes the directory if asked and if it can.
  unfoldable pub workspace : Bytes → Bool → Bool → ℕ → Store D → Result Failure (Store D)
  workspace id create writable now s =
      if not (safe_id id)
      then err bad_id
      else if not create
      then ok s
      else if writable
      then ok (record s { spaces = put id true s.spaces; seen = put id (some now) s.seen })
      else err not_written

  -- `Delete`.
  unfoldable pub delete_session : Bytes → Store D → Result Failure (Store D)
  delete_session id s =
      if not (safe_id id)
      then err bad_id
      else ok (record s { spaces = put id false s.spaces; seen = put id none s.seen })
