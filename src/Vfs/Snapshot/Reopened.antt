-- ===== src/Vfs/Snapshot/Reopened.antt =====
-- A store that is opened on an exported snapshot holds the same records, with their versions at 0.
use mathlib.Core.Path.{subst, sym}
use wiredkv.Prelude.{
  ℕ, ◌^◌, ◌<◌, ◌≡◌, refl, ap, ◌∙◌, arith, List, [], ◌∷◌, ◌++◌, Option, none, some, false, ◌==◌,
  nat_eq, list_eq, ok, err, All, ==→≡, bad_name, Bool-cases, inl, inr,
}
use wiredkv.Prelude.Bytes.{Bytes}
use wiredkv.Prelude.Map.{lookup}
use wiredkv.Vfs.Hash.{IsHashes, inode_num}
use wiredkv.Vfs.Segment.{Segment, size}
use wiredkv.Vfs.Codec.{INode}
use wiredkv.Vfs.Codec.IndexTrip.{IsINode}
use wiredkv.Vfs.FileName.{format_data_file_name, parse_data_file_name}
use wiredkv.Vfs.FileName.RoundTrip.{
  parse_data_file_name-format_data_file_name, parse_data_file_name-index,
}
use wiredkv.Vfs.Disk.{contents, is_exist}
use wiredkv.Vfs.Disk.Laws.{IsHealthy, open_existing_healthy}
use wiredkv.Vfs.Fs.{fresh_env, Env, LogStructuredFs, IndexMap, find_inode}
use wiredkv.Vfs.Lfs.{index_file_name, data_file_metadata}
use wiredkv.Vfs.Lfs.Fresh.{empty_shards}
use wiredkv.Vfs.Lfs.Stored.{Stored, StoredAs, Extends, Stored-Extends}
use wiredkv.Vfs.Lfs.Refinement.Step.{Matches-Extends}
use wiredkv.Vfs.Lfs.Append.{changed_index}
use wiredkv.Vfs.Lfs.WellFormed.{WellFormed}
use wiredkv.Vfs.Lfs.Refinement.{Records, Matches, Represents}
use wiredkv.Vfs.Snapshot.{recovery_index, recover_snapshot, replayed}
use wiredkv.Vfs.Snapshot.Entries.{Entry, entries, entries_found}
use wiredkv.Vfs.Snapshot.Export.{laid_entries}
use wiredkv.Vfs.Snapshot.Trip.{reset, AreTyped, reset_found, recover_snapshot-IsSnapshotOf}

Stored-IsINode :
    (env : Env) (s : LogStructuredFs) (inum : ℕ) (n : INode)
    → IsHashes env.hashes
    → Stored env s inum n
    → (inum < 2 ^ 64) × IsINode n
unfolding inode_num size
Stored-IsINode env s inum n hv st =
    let v = st.stored.valid in
    (
      omega (arith, st.owner, hv.sum64_fits st.seg.key),
      record {
        region_fits = st.region_fits;
        position_fits = st.position_fits;
        length_fits = omega (arith, st.length_is, v.size_fits);
        expired_fits = omega (arith, st.expired_is, v.expired_fits);
        created_fits = omega (arith, st.created_is, v.created_fits);
      },
    )

-- In a well-formed store every entry has the types that the snapshot keeps.
WellFormed-AreTyped :
    (env : Env) (s : LogStructuredFs)
    → IsHashes env.hashes
    → WellFormed env s
    → AreTyped (entries s.indexs)
WellFormed-AreTyped env s hv w = each (entries s.indexs) (entries_found s w.placed)
  where
    each : (es : List Entry) → All (λ (e : Entry). find_inode s e.0 ≡ some e.1) es → AreTyped es
    each [] a = tt
    each ((i, n) ∷ es) (p, a) = (Stored-IsINode env s i n hv (w.stored i n p), each es a)

-- The index file is no region file.
pub index_file_name-other :
    (id : ℕ) → id < 10 ^ 9 → (index_file_name == format_data_file_name id) ≡ false
index_file_name-other id small = elim (Bool-cases (index_file_name == format_data_file_name id)) [
  | inl same ↦
      let e : index_file_name ≡ format_data_file_name id = ==→≡ _ _ same in
      let bad : parse_data_file_name index_file_name ≡ err bad_name = parse_data_file_name-index in
      let good = parse_data_file_name-format_data_file_name id (omega (arith, small)) in
      absurd (let q = ap parse_data_file_name e in cc)
  | inr other ↦ other
]

-- The versions are not kept in a snapshot.
abbrev pub reset_record : Option (ℕ × Segment) → Option (ℕ × Segment)
reset_record none = none
reset_record (some (version, seg)) = some (0, seg)

abbrev pub reset_records : Records → Records
reset_records m j = reset_record (m j)

StoredAs-reset :
    (env : Env) (s : LogStructuredFs) (n : INode) (seg : Segment)
    → StoredAs env s n seg
    → StoredAs env s (reset n) seg
StoredAs-reset env s n seg st = record {
  file = st.file;
  pre = st.pre;
  post = st.post;
  region = st.region;
  bytes = st.bytes;
  position = st.position;
  valid = st.valid;
}

-- Opening with an index file there.
recovery_run :
    (env : Env) (now : ℕ) (t : LogStructuredFs) (file : Bytes)
    → IsHealthy t.disk
    → lookup index_file_name t.disk.files ≡ some file
    → recovery_index env now t ≡ replayed t (recover_snapshot env.hashes file t.indexs)
unfolding recovery_index is_exist contents
recovery_run env now t file healthy at =
    rw (open_existing_healthy index_file_name file t.disk healthy at) (rw at refl)

Stored-reset :
    (env : Env) (s : LogStructuredFs) (inum : ℕ) (n : INode)
    → Stored env s inum n
    → Stored env s inum (reset n)
Stored-reset env s inum n st = record {
  seg = st.seg;
  stored = StoredAs-reset env s n st.seg st.stored;
  region_fits = st.region_fits;
  position_fits = st.position_fits;
  owner = st.owner;
  length_is = st.length_is;
  expired_is = st.expired_is;
  created_is = st.created_is;
}

Matches-reset :
    (env : Env) (s : LogStructuredFs) (o : Option INode) (r : Option (ℕ × Segment))
    → Matches env s o r
    → Matches env s (reset_found o) (reset_record r)
Matches-reset env s none none h = h
Matches-reset env s none (some r) h = h
Matches-reset env s (some n) none h = h
Matches-reset env s (some n) (some (version, seg)) (same, times, st) =
    (refl, times, StoredAs-reset env s n seg st)

found_before :
    (o : Option INode) (n : INode)
    → reset_found o ≡ some n
    → (k : INode) × (o ≡ some k) × (n ≡ reset k)
found_before none n p = cc
found_before (some k) n p = (k, refl, cc)

-- What a store reads from the exported snapshot of `s`.
pub record Reopens (env : Env) (now : ℕ) (t : LogStructuredFs) (m : Records) : Type 0 where
  pub indexs : List (Option IndexMap)
  pub recovered : recovery_index (fresh_env env) now t ≡ (ok tt, record t { indexs = indexs })
  pub well_formed : WellFormed env (record t { indexs = indexs })
  pub represents : Represents env (record t { indexs = indexs }) (reset_records m)

-- A store with an empty index, over the files of `s` with its snapshot among them, restores it.
pub recovery_index-Reopens :
    (env : Env) (now : ℕ) (s t : LogStructuredFs) (m : Records)
    → IsHashes env.hashes
    → WellFormed env s
    → Represents env s m
    → WellFormed env t
    → Extends s t
    → lookup index_file_name t.disk.files
      ≡ some (data_file_metadata ++ laid_entries env.hashes (entries s.indexs))
    → t.indexs ≡ empty_shards
    → Reopens env now t m
recovery_index-Reopens env now s t m hv w rep wt e at empty =
    let file = data_file_metadata ++ laid_entries env.hashes (entries s.indexs) in
    let back =
      recover_snapshot-IsSnapshotOf env.hashes s t hv (WellFormed-AreTyped env s hv w) w.placed
        empty in
    let u : LogStructuredFs = record t { indexs = back.indexs } in
    let eu : Extends s u = record { regions = e.regions; files = e.files } in
    record {
      indexs = back.indexs;
      recovered =
          recovery_run (fresh_env env) now t file wt.healthy at ∙ ap (replayed t) back.returned;
      well_formed = changed_index env t wt back.indexs back.shards back.placed (λ j n p.
          let (k, q, r) = found_before (find_inode s j) n (sym (back.found j) ∙ p) in
          let st = Stored-Extends (Stored-reset env s j k (w.stored j k q)) e in
          subst (Stored env t j) (sym r) st);
      represents = record {
        each = λ j. rw (back.found j) (
            Matches-Extends env s u (reset_found (find_inode s j)) (reset_record (m j)) eu
              (Matches-reset env s (find_inode s j) (m j) (rep.each j)));
      };
    }
