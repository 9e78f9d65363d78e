-- ===== src/Vfs/Lfs/Stored.antt =====
-- Entries whose record stands in its region file, and steps that only add to files and regions.
use mathlib.Core.List.{append-nil, append_assoc}
use wiredkv.Prelude.{
  ℕ, ◌^◌, ◌<◌, ◌≡◌, sym, ap, ◌∙◌, arith, ◌++◌, [], some, length, list_eq, nat_eq, map_result,
}
use wiredkv.Prelude.Bytes.{Bytes}
use wiredkv.Prelude.Map.{lookup}
use wiredkv.Vfs.Hash.{IsHashes, inode_num}
use wiredkv.Vfs.Transformer.{decode}
use wiredkv.Vfs.Segment.{Segment, size}
use wiredkv.Vfs.Codec.{INode, serialized_segment}
use wiredkv.Vfs.Codec.SegmentTrip.{IsSegment, read_segment-serialized_segment}
use wiredkv.Vfs.Disk.{File, contents}
use wiredkv.Vfs.Fs.{Env, LogStructuredFs}
use wiredkv.Vfs.Lfs.{fetch_inode}

-- The record `seg` stands where `n` points.
pub record StoredAs (env : Env) (s : LogStructuredFs) (n : INode) (seg : Segment) : Type 0 where
  pub file : File
  pub pre : Bytes
  pub post : Bytes
  pub region : lookup n.region_id s.regions ≡ some file
  pub bytes : lookup file s.disk.files ≡ some (pre ++ (serialized_segment env.hashes seg ++ post))
  pub position : n.position ≡ length pre
  pub valid : IsSegment seg

-- Some record of the key with that inode number does, and it has the length and the times that the
-- entry notes, whose region and place fit in 64 bits.
pub record Stored (env : Env) (s : LogStructuredFs) (inum : ℕ) (n : INode) : Type 0 where
  pub seg : Segment
  pub stored : StoredAs env s n seg
  pub region_fits : n.region_id < 2 ^ 64
  pub position_fits : n.position < 2 ^ 64
  pub owner : inode_num env.hashes seg.key ≡ inum
  pub length_is : n.length ≡ size seg
  pub expired_is : n.expired_at ≡ seg.expired_at
  pub created_is : n.created_at ≡ seg.created_at

-- What a fetch reads for a stored record.
pub fetch_inode-StoredAs :
    (env : Env) (s : LogStructuredFs) (n : INode) (seg : Segment)
    → IsHashes env.hashes
    → StoredAs env s n seg
    → fetch_inode env n s
      ≡ map_result (λ d. (n.mvcc, record seg { value = d })) (decode env.transformer seg.value)
unfolding fetch_inode contents
fetch_inode-StoredAs env s n seg hv st =
    rw
      (
        st.region,
        st.bytes,
        st.position,
        read_segment-serialized_segment env.hashes env.transformer hv seg st.valid st.pre st.post,
      )
      (ground arith)

-- `t` has the regions of `s` and more, and each file of `s` with bytes added at its end at most.
pub record Extends (s t : LogStructuredFs) : Type 0 where
  pub regions : (id : ℕ) (f : File) → lookup id s.regions ≡ some f → lookup id t.regions ≡ some f
  pub files :
      (f : File) (c : Bytes)
      → lookup f s.disk.files ≡ some c
      → (more : Bytes) × (lookup f t.disk.files ≡ some (c ++ more))

pub Extends-refl : (s : LogStructuredFs) → Extends s s
Extends-refl s = record {
  regions = λ id f p. p;
  files = λ f c p. ([], p ∙ ap some (sym (append-nil c)));
}

pub Extends-trans : {s t u : LogStructuredFs} → Extends s t → Extends t u → Extends s u
Extends-trans e e' = record {
  regions = λ id f p. e'.regions id f (e.regions id f p);
  files = λ f c p.
      let (more, q) = e.files f c p in
      let (again, r) = e'.files f (c ++ more) q in
      (more ++ again, r ∙ ap some (append_assoc c more again));
}

pub StoredAs-Extends :
    {env : Env} {s t : LogStructuredFs} {n : INode} {seg : Segment}
    → StoredAs env s n seg
    → Extends s t
    → StoredAs env t n seg
StoredAs-Extends {env} {s} {t} {n} {seg} st e =
    let (more, q) = e.files st.file _ st.bytes in
    record {
      file = st.file;
      pre = st.pre;
      post = st.post ++ more;
      region = e.regions n.region_id st.file st.region;
      bytes = q ∙ simp append_assoc;
      position = st.position;
      valid = st.valid;
    }

pub Stored-Extends :
    {env : Env} {s t : LogStructuredFs} {inum : ℕ} {n : INode}
    → Stored env s inum n
    → Extends s t
    → Stored env t inum n
Stored-Extends st e = record {
  seg = st.seg;
  stored = StoredAs-Extends st.stored e;
  region_fits = st.region_fits;
  position_fits = st.position_fits;
  owner = st.owner;
  length_is = st.length_is;
  expired_is = st.expired_is;
  created_is = st.created_is;
}

-- A fetch of an entry is not changed by what is added.
pub fetch_inode-Extends :
    (env : Env) (s t : LogStructuredFs) (inum : ℕ) (n : INode)
    → IsHashes env.hashes
    → Stored env s inum n
    → Extends s t
    → fetch_inode env n t ≡ fetch_inode env n s
fetch_inode-Extends env s t inum n hv st e =
    fetch_inode-StoredAs env t n st.seg hv (StoredAs-Extends st.stored e)
    ∙ sym (fetch_inode-StoredAs env s n st.seg hv st.stored)
