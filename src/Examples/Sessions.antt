-- ===== src/Examples/Sessions.antt =====
-- internal/session/session.go on small inputs.
use gmux.Prelude.{
  ℕ, ◌==◌, ◌≡◌, refl, true, false, [], ◌∷◌, none, some, if◌then◌else◌, replicate, err, All, In,
  sort_stable, insert_sorted,
}
use gmux.Fence.Bytes.{Bytes, eq_bytes, has_prefix}
use gmux.Session.{
  made, moved, File, Store, all_hex, valid_sha, contains_separator, safe_id, contains_dots,
  safe_rel, bytes_before, among, wanted, has_blob, absent, missing, put_blob, put_blob_from,
  workspace, bad_id, unsafe_path,
}
use gmux.Session.Blobs.{
  IsVerified, IsMissing, Stores, missing_lem, put_blob-Stores, put_blob_from-Stores,
}

program : Unit {0}
unfolding eq_bytes has_prefix all_hex valid_sha contains_separator safe_id contains_dots safe_rel
    bytes_before among wanted has_blob absent missing put_blob put_blob_from workspace sort_stable
    insert_sorted
program = tt

-- A digest for contents that are numbers: 64 zeros for 0, and 64 times "a" for every other.
abbrev digest : ℕ → Bytes
digest n = replicate 64 (if n == 0 then 48 else 97)

abbrev file : ℕ → File
file n = record { path = 102 ∷ []; sha = digest n; size = 1; x = false }

abbrev empty : Store ℕ
empty = record { blobs = λ sha. none; left = []; spaces = λ id. false; seen = λ id. none }

empty-IsVerified : IsVerified digest empty
unfolding IsVerified
empty-IsVerified sha d e = absurd (cc (e))

uploads : missing digest (file 1 ∷ file 0 ∷ file 1 ∷ []) empty ≡ digest 0 ∷ digest 1 ∷ []
unfolding program
uploads = refl

dotted : workspace digest (46 ∷ []) true true 1 empty ≡ err bad_id
unfolding program
dotted = refl

upwards : safe_rel (97 ∷ 47 ∷ 46 ∷ 46 ∷ []) ≡ err unsafe_path
unfolding program
upwards = refl

missing_lem_example :
    All (IsMissing digest empty (file 1 ∷ [])) (missing digest (file 1 ∷ []) empty)
    × ((f : File)
        → In f (file 1 ∷ [])
        → valid_sha f.sha ≡ true
        → has_blob digest f.sha empty ≡ false
        → In f.sha (missing digest (file 1 ∷ []) empty))
missing_lem_example = missing_lem digest (file 1 ∷ []) empty

put_blob-Stores_example : Stores digest (digest 1) empty (put_blob digest (digest 1) 1 moved empty)
put_blob-Stores_example = put_blob-Stores digest (digest 1) 1 moved empty empty-IsVerified

-- The upload is whole, but its file cannot be renamed.
put_blob_from-Stores_example :
    Stores digest (digest 0) empty (put_blob_from digest (digest 0) (some 0) (made false) empty)
put_blob_from-Stores_example =
    put_blob_from-Stores digest (digest 0) (some 0) (made false) empty empty-IsVerified
