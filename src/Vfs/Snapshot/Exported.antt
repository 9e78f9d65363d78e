-- ===== src/Vfs/Snapshot/Exported.antt =====
-- The export of the snapshot and the closing of a store change no record.
use wiredkv.Prelude.{
  ℕ, ◌≡◌, ◌⊎◌, sym, ap, ◌∙◌, ◌++◌, Option, none, some, ◌==◌, nat_eq, list_eq, Bool-cases, inl, inr,
  ==→≡,
}
use wiredkv.Prelude.Bytes.{Bytes}
use wiredkv.Prelude.Map.{lookup}
use wiredkv.Vfs.Segment.{Segment}
use wiredkv.Vfs.Codec.{INode}
use wiredkv.Vfs.FileName.{format_data_file_name}
use wiredkv.Vfs.Disk.{File}
use wiredkv.Vfs.Fs.{Env, LogStructuredFs, find_inode}
use wiredkv.Vfs.Lfs.{index_file_name, data_file_metadata}
use wiredkv.Vfs.Lfs.Stored.{Stored, StoredAs}
use wiredkv.Vfs.Lfs.WellFormed.{WellFormed}
use wiredkv.Vfs.Lfs.Refinement.{Records, Matches, Represents}
use wiredkv.Vfs.Snapshot.{export_snapshot_index}
use wiredkv.Vfs.Snapshot.Entries.{entries}
use wiredkv.Vfs.Snapshot.Export.{Exports, laid_entries}
use wiredkv.Vfs.Snapshot.Reopened.{index_file_name-other}

module _ (env : Env) (s : LogStructuredFs) (w : WellFormed env s)
    (x : Exports env s (export_snapshot_index env s)) where
  abbrev pub exported_fs : LogStructuredFs
  exported_fs = record s { disk = x.disk }

  region_unchanged :
      (id : ℕ) (f : File)
      → lookup id s.regions ≡ some f
      → lookup f x.disk.files ≡ lookup f s.disk.files
  region_unchanged id f p =
      let (small, name) = w.named id f p in
      x.others f (ap (λ g. index_file_name == g) name ∙ index_file_name-other id small)

  exported-StoredAs :
      (n : INode) (seg : Segment) → StoredAs env s n seg → StoredAs env exported_fs n seg
  exported-StoredAs n seg st = record {
    file = st.file;
    pre = st.pre;
    post = st.post;
    region = st.region;
    bytes = region_unchanged n.region_id st.file st.region ∙ st.bytes;
    position = st.position;
    valid = st.valid;
  }

  exported-Stored : (inum : ℕ) (n : INode) → Stored env s inum n → Stored env exported_fs inum n
  exported-Stored inum n st = record {
    seg = st.seg;
    stored = exported-StoredAs n st.seg st.stored;
    region_fits = st.region_fits;
    position_fits = st.position_fits;
    owner = st.owner;
    length_is = st.length_is;
    expired_is = st.expired_is;
    created_is = st.created_is;
  }

  exported-headed :
      (f : File) (b : Bytes)
      → lookup f x.disk.files ≡ some b
      → (rest : Bytes) × (b ≡ data_file_metadata ++ rest)
  exported-headed f b p = elim (Bool-cases (index_file_name == f)) [
    | inl same ↦
        let e : index_file_name ≡ f = ==→≡ index_file_name f same in
        let q : lookup index_file_name x.disk.files ≡ some b =
          ap (λ g. lookup g x.disk.files) e ∙ p in
        let r = sym x.text ∙ q in
        let written : b ≡ data_file_metadata ++ laid_entries env.hashes (entries s.indexs) = cc in
        (laid_entries env.hashes (entries s.indexs), written)
    | inr other ↦ w.headed f b (sym (x.others f other) ∙ p)
  ]

  exported-known :
      (f : File) (b : Bytes)
      → lookup f x.disk.files ≡ some b
      → (f ≡ index_file_name) ⊎ ((id : ℕ) × (lookup id s.regions ≡ some f))
  exported-known f b p = elim (Bool-cases (index_file_name == f)) [
    | inl same ↦ inl (sym (==→≡ index_file_name f same))
    | inr other ↦ w.known f b (sym (x.others f other) ∙ p)
  ]

  pub exported-WellFormed : WellFormed env exported_fs
  unfolding find_inode
  exported-WellFormed = record {
    shards = w.shards;
    placed = w.placed;
    healthy = x.healthy;
    file = w.file;
    text = w.text;
    active = w.active;
    current = w.current;
    written = region_unchanged s.region_id w.file w.current ∙ w.written;
    offset_is = w.offset_is;
    below = w.below;
    named = w.named;
    fresh = λ id above fits.
        x.others (format_data_file_name id) (index_file_name-other id fits) ∙ w.fresh id above fits;
    headed = exported-headed;
    known = exported-known;
    present = λ id f p. let (b, q) = w.present id f p in (b, region_unchanged id f p ∙ q);
    stored = λ inum n p. exported-Stored inum n (w.stored inum n p);
  }

  exported-Matches :
      (o : Option INode) (r : Option (ℕ × Segment))
      → Matches env s o r
      → Matches env exported_fs o r
  exported-Matches none none h = h
  exported-Matches none (some r) h = h
  exported-Matches (some n) none h = h
  exported-Matches (some n) (some (version, seg)) (same, times, st) =
      (same, times, exported-StoredAs n seg st)

  pub exported-Represents : (m : Records) → Represents env s m → Represents env exported_fs m
  unfolding find_inode
  exported-Represents m rep = record {
    each = λ j. exported-Matches (find_inode s j) (m j) (rep.each j);
  }
