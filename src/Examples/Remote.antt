-- ===== src/Examples/Remote.antt =====
-- internal/remote on a small directory, which is sent to a host.
use gmux.Prelude.{
  inr, sym, inl, ap, Bool, Bool-cases, ℕ, ◌==◌, ◌≡◌, refl, true, false, [], ◌∷◌, some, none, All,
  List, Option, codes, replicate, if◌then◌else◌, sort_stable, insert_sorted, Distinct,
}
use gmux.Fence.Bytes.{Bytes, eq_bytes, has_prefix}
use gmux.Session.{
  made, File, Store, all_hex, valid_sha, contains_separator, safe_id, contains_dots, safe_rel,
  bytes_before, among, wanted, has_blob, absent, missing, put_blob_from, workspace,
}
use gmux.Session.Blobs.{IsVerified}
use gmux.Session.Apply.{
  Disk, Space, copied, written, components, join, clean_path, unchanged, chmod, copy_blob,
  apply_file, apply_step, apply_files, prune, conclude, apply,
}
use gmux.Session.Workspaces.{IsHonest}
use gmux.Session.Manifests.{apply-Answers, Answers}
use gmux.Remote.Cache.{Identity, Info, HashCache, same_identity, cached, remember, hash_file, save}
use gmux.Remote.Walk.{
  Nodes, regular, directory, nil, node, is_skipped, visited, visit_file, walk, walk_all,
  before_file, build_manifest,
}
use gmux.Remote.Listing.{TellsAll, Tells, IsTrue, listing_all, build_manifest_lem}
use gmux.Remote.Sync.{
  Wire, answered, by_sha, blob, over_wire, upload, upload_all, reply, apply_call, send, sync,
}
use gmux.Remote.Mirror.{Promise, sync_lem}
use gmux.Maps.{find, store}
use gmux.Remote.Arrival.{IsSendable, Works, sync-true}
use gmux.Session.Going.{Obeys}

program : Unit {0}
unfolding eq_bytes has_prefix all_hex valid_sha contains_separator safe_id contains_dots safe_rel
    bytes_before among wanted has_blob absent missing put_blob_from workspace sort_stable
    insert_sorted components join clean_path unchanged chmod copy_blob apply_file apply_step
    apply_files prune conclude apply same_identity cached remember hash_file save is_skipped visited
    visit_file walk walk_all build_manifest listing_all by_sha blob over_wire upload upload_all
    reply apply_call send sync find store
program = tt

-- A digest for contents that are numbers: 64 zeros for 0, and 64 times "a" for every other.
abbrev digest : ℕ → Bytes
digest n = replicate 64 (if n == 0 then 48 else 97)

abbrev identity : ℕ → Identity
identity n = record { dev = 1; ino = n; size = 1; mtime = 5 }

abbrev info : ℕ → Info ℕ
info n = record { identity = identity n; executable = false; content = some n }

-- A file, a file in a directory, and one that is passed over_wire.
abbrev project : Nodes ℕ
project = node (codes "b") (regular (info 1)) (
    node (codes ".git") (directory (node (codes "x") (regular (info 0)) nil))
      (node (codes "a") (directory (node (codes "c") (regular (info 0)) nil)) nil))

-- The digest of the file with the identity.
abbrev reads : Bytes → Identity → Bytes
reads path id = digest id.ino

abbrev remembered : Option HashCache
remembered = some (record {
  m = (codes "/p/b", record { identity = identity 1; sha = digest 1 }) ∷ [];
  dirty = false;
})

abbrev disk : Disk ℕ
disk = record {
  space_made = true;
  read_applied = true;
  dir_made = λ k. true;
  copies = λ k. copied 9 true;
  chmods = λ k. true;
  removes = λ k. true;
  kept_applied = written;
  now = 9;
}

abbrev wire : Wire ℕ
wire = record {
  manifest_answered = true;
  opens = λ k. true;
  sends = λ k. some (if eq_bytes k (codes "b") then 1 else 0);
  uploads = λ k. answered;
  temporary = λ k. made true;
  applies = answered;
}

abbrev empty : Store ℕ
empty = record { blobs = λ sha. none; left = []; spaces = λ id. false; seen = λ id. none }

empty-IsVerified : IsVerified digest empty
unfolding IsVerified
empty-IsVerified sha d e = absurd (cc (e))

-- A workspace with a file that the client does not have.
abbrev space : Space ℕ
space = record {
  files = λ k.
      if eq_bytes k (codes "old")
      then some (record { content = 1; x = false; mtime = 2 })
      else none;
  applied = λ k. none;
}

space-IsHonest : (k : Bytes) → IsHonest digest (λ d. 1) space.applied space.files k
unfolding IsHonest
space-IsHonest k a e known there long late = absurd (cc (known))

remembered-IsTrue : IsTrue digest (codes "/p") reads remembered
unfolding find
remembered-IsTrue path e there = elim (Bool-cases (eq_bytes (codes "/p/b") path)) [
  | inl same ↦
      let here : some (record { identity = identity 1; sha = digest 1 }) ≡ some e =
        rw (same, find) at there in
      let one : record { identity = identity 1; sha = digest 1 } ≡ e = cc (here) in rw (← one) refl
  | inr apart ↦ absurd (let gone : none ≡ some e = rw (apart, find) at there in cc)
]

told : (n d : ℕ) → some n ≡ some d → digest d ≡ digest n
told n d e = let same : n ≡ d = cc (e) in ap digest (sym same)

project-TellsAll : TellsAll digest (codes "/p") reads [] project
unfolding program Tells
project-TellsAll = (told 1, ((told 0, tt), ((told 0, tt), tt)))

build_manifest_lem_example :
    ((build_manifest digest (codes "/p") project remembered).0 ≡ true
      → (build_manifest digest (codes "/p") project remembered).1.out
        ≡ sort_stable before_file (listing_all digest (codes "/p") reads [] project))
    × IsTrue digest
        (codes "/p")
        reads
        (build_manifest digest (codes "/p") project remembered).1.cache
build_manifest_lem_example =
    build_manifest_lem digest (codes "/p") reads project remembered project-TellsAll
      remembered-IsTrue

abbrev files : List File
files =
    record { path = codes "b"; sha = digest 1; size = 1; x = false }
    ∷ record { path = codes "a/c"; sha = digest 0; size = 1; x = false }
    ∷ []

files-apart : Distinct (λ f. f.path) (listing_all digest (codes "/p") reads [] project)
unfolding program
files-apart = (((λ e. cc (e)), tt), (tt, tt))

files-clean :
    All (λ f. clean_path f.path ≡ f.path) (listing_all digest (codes "/p") reads [] project)
unfolding program
files-clean = (refl, (refl, tt))

always : (k : Bytes) → ◌≡◌ {A = Bool} true true
always k = refl

abbrev session : Bytes
session = codes "s1"

apply-Answers_example :
    Answers digest
      (λ d. 1)
      disk
      always
      always
      files
      (apply digest (λ d. 1) disk session files true empty space)
unfolding program
apply-Answers_example =
    apply-Answers digest (λ d. 1) disk always always session files empty space empty-IsVerified
      files-apart files-clean space-IsHonest

sync_lem_example :
    IsTrue digest
      (codes "/p")
      reads
      (sync digest (λ d. 1) wire disk (codes "/p") session project remembered empty space).0
    × Promise digest
        (λ d. 1)
        wire
        (sort_stable before_file (listing_all digest (codes "/p") reads [] project))
        (sync digest (λ d. 1) wire disk (codes "/p") session project remembered empty space).1
sync_lem_example =
    sync_lem digest (λ d. 1) wire disk always always (codes "/p") reads session project remembered
      empty space project-TellsAll remembered-IsTrue files-apart files-clean empty-IsVerified
      space-IsHonest

-- It goes well, and the old file is gone.
went_well :
    (sync digest (λ d. 1) wire disk (codes "/p") session project remembered empty space).1.0 ≡ true
unfolding program
went_well = refl

disk-Obeys : Obeys disk
disk-Obeys = record { space = refl; dirs = always; copies = λ k. (9, true, refl) }

wire-Works : Works digest (λ d. 1) wire
wire-Works = record {
  manifest = refl;
  opens = always;
  uploads = λ sha. refl;
  temporary = λ k. refl;
  applies = refl;
}

sendable :
    All
      (IsSendable digest (λ d. 1) wire)
      (build_manifest digest (codes "/p") project remembered).1.out
unfolding program
sendable = ((refl, refl, 0, refl, refl), ((refl, refl, 1, refl, refl), tt))

sound_id : safe_id session ≡ true
unfolding program
sound_id = refl

walk_fine : (build_manifest digest (codes "/p") project remembered).0 ≡ true
unfolding program
walk_fine = refl

sync-true_example :
    (sync digest (λ d. 1) wire disk (codes "/p") session project remembered empty space).1.0 ≡ true
sync-true_example =
    sync-true digest (λ d. 1) wire wire-Works disk disk-Obeys (codes "/p") session project
      remembered empty space sound_id walk_fine sendable
