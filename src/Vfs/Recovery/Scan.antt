-- ===== src/Vfs/Recovery/Scan.antt =====
-- A scan of a region file that is made of readable records ends, and restores what they say.
use mathlib.Core.List.{append-nil, append_assoc}
use wiredkv.Prelude.{
  ℕ, zero, suc, ◌+◌, ◌%◌, ◌^◌, ◌<◌, ◌≤◌, ◌≡◌, refl, sym, ap, ◌∙◌, arith, ◌++◌, List, [], ◌∷◌,
  Option, none, some, Result, ok, true, false, leb, le→leb, nat_eq, list_eq, length, length-append,
  Bool-cases, inl, inr, All,
}
use wiredkv.Prelude.Bytes.{Bytes}
use wiredkv.Prelude.Map.{lookup, insert, delete}
use wiredkv.Vfs.Hash.{IsHashes, inode_num}
use wiredkv.Vfs.Segment.{Segment, size, is_tombstone}
use wiredkv.Vfs.Codec.{serialized_segment, read_segment, segment_padding}
use wiredkv.Vfs.Codec.SegmentTrip.{
  IsSegment, read_segment-serialized_segment, length-serialized_segment,
}
use wiredkv.Vfs.Disk.{File}
use wiredkv.Vfs.Fs.{Env, LogStructuredFs, IndexMap, store_inode, delete_inode, update_shard}
use wiredkv.Vfs.Lfs.Index.{shard_present, find_inode-store_inode, find_inode-delete_inode}
use wiredkv.Vfs.Lfs.Stored.{StoredAs, Stored, StoredAs-Extends}
use wiredkv.Vfs.Lfs.WellFormed.{WellFormed}
use wiredkv.Vfs.Lfs.Append.{
  store_inode-WellFormed, delete_inode-WellFormed, store_inode-Extends, delete_inode-Extends,
}
use wiredkv.Vfs.Lfs.Refinement.{Records, Represents}
use wiredkv.Vfs.Lfs.Refinement.Step.{Represents-replace}
use wiredkv.Vfs.Recovery.{has_lapsed, recovered_inode, replay_segment, scan_region}
use wiredkv.Vfs.Recovery.Log.{laid_out, IsReadable, logged, all_logged}

-- The index that was restored, over the files of `s`.
pub record Restores (env : Env) (s : LogStructuredFs) (m : Records)
    (result : Result (List (Option IndexMap))) : Type 0 where
  pub indexs : List (Option IndexMap)
  pub returned : result ≡ ok indexs
  pub well_formed : WellFormed env (record s { indexs = indexs })
  pub represents : Represents env (record s { indexs = indexs }) m

-- A record that a scan has come to: it stands there, and its key has that inode number.
pub record Recovered (env : Env) (s : LogStructuredFs) (region_id offset inum : ℕ) (seg : Segment)
    : Type 0 where
  pub stored : StoredAs env s (recovered_inode region_id offset seg) seg
  pub owner : inode_num env.hashes seg.key ≡ inum
  pub region_fits : region_id < 2 ^ 64
  pub position_fits : offset < 2 ^ 64

Recovered-Stored :
    (env : Env) (s : LogStructuredFs) {region_id offset inum : ℕ} {seg : Segment}
    → Recovered env s region_id offset inum seg
    → Stored env s inum (recovered_inode region_id offset seg)
unfolding recovered_inode
Recovered-Stored env s {region_id} {offset} {inum} {seg} found = record {
  seg = seg;
  stored = found.stored;
  region_fits = found.region_fits;
  position_fits = found.position_fits;
  owner = found.owner;
  length_is = refl;
  expired_is = refl;
  created_is = refl;
}

module _ (env : Env) (now region_id : ℕ) where
  pub replay-Restores :
      (s : LogStructuredFs) (m : Records) (offset inum : ℕ) (seg : Segment) (d : Bytes)
      → WellFormed env s
      → Represents env s m
      → Recovered env s region_id offset inum seg
      → Restores env s
          (logged now inum seg m)
          (replay_segment now region_id offset (inum, record seg { value = d }) s.indexs)
  unfolding replay_segment is_tombstone has_lapsed recovered_inode size store_inode delete_inode
  replay-Restores s m offset inum seg d w rep found =
      let n = recovered_inode region_id offset seg in
      let (shard, e) = shard_present s.indexs inum w.shards in
      elim (Bool-cases (is_tombstone seg)) [
        | inl dead ↦
            rw (e, dead)
              (record {
                indexs = update_shard (delete inum) inum s.indexs;
                returned = refl;
                well_formed = delete_inode-WellFormed env s w inum;
                represents =
                    Represents-replace env s (delete_inode inum s) m inum none none
                      (delete_inode-Extends inum s) (find_inode-delete_inode s w.shards inum) tt
                      rep;
              })
        | inr data_record ↦ elim (Bool-cases (has_lapsed now seg)) [
          | inl old ↦
              rw (e, data_record, old)
                (record { indexs = s.indexs; returned = refl; well_formed = w; represents = rep })
          | inr live ↦
              rw (e, data_record, live)
                (record {
                  indexs = update_shard (insert inum n) inum s.indexs;
                  returned = refl;
                  well_formed =
                      store_inode-WellFormed env s w inum n (Recovered-Stored env s found);
                  represents =
                      Represents-replace env s (store_inode inum n s) m inum (some n)
                        (some (0, seg)) (store_inode-Extends inum n s)
                        (λ j. find_inode-store_inode s w.shards inum j n)
                        (refl, refl, StoredAs-Extends found.stored (store_inode-Extends inum n s))
                        rep;
                })
        ]
      ]

pub size_value : (seg : Segment) (d : Bytes) → size (record seg { value = d }) ≡ size seg
unfolding size
size_value seg d = refl

-- The room that a record takes in a file.
after_record :
    (env : Env) (seg : Segment) (pre rest : Bytes)
    → IsSegment seg
    → length (pre ++ (serialized_segment env.hashes seg ++ rest)) < 2 ^ 64
    → (30 ≤ size seg)
      × (length (pre ++ (serialized_segment env.hashes seg ++ rest))
          ≡ length pre + size seg + length rest)
      × ((length pre + size seg) % 2 ^ 64 ≡ length (pre ++ serialized_segment env.hashes seg))
unfolding size
after_record env seg pre rest v small =
    let ser = serialized_segment env.hashes seg in
    let whole = length-append pre (ser ++ rest) in
    let part = length-append ser rest in
    let front = length-append pre ser in
    let own = length-serialized_segment env.hashes seg v in
    let fits = v.size_fits in (omega arith, omega arith, omega arith)

module _ (env : Env) (hv : IsHashes env.hashes) (now region_id : ℕ) (f : File) where
  -- A file made of some bytes, readable records after them, and other bytes.
  pub record Holds (s : LogStructuredFs) (pre : Bytes) (segs : List Segment) (rest file : Bytes)
      : Type 0 where
    pub region : lookup region_id s.regions ≡ some f
    pub text : lookup f s.disk.files ≡ some file
    pub shape : file ≡ pre ++ (laid_out env.hashes segs ++ rest)
    pub small : length file < 2 ^ 64
    pub readable : All (IsReadable env.transformer) segs

  pub first_record :
      (s : LogStructuredFs) (pre : Bytes) (seg : Segment) (segs : List Segment) (rest file : Bytes)
      → Holds s pre (seg ∷ segs) rest file
      → file ≡ pre ++ (serialized_segment env.hashes seg ++ (laid_out env.hashes segs ++ rest))
  first_record s pre seg segs rest file holds =
      holds.shape
      ∙ ap (λ b. pre ++ b)
          (append_assoc (serialized_segment env.hashes seg) (laid_out env.hashes segs) rest)

  pub at_record :
      (s : LogStructuredFs) (pre : Bytes) (seg : Segment) (segs : List Segment) (rest file : Bytes)
      → WellFormed env s
      → Holds s pre (seg ∷ segs) rest file
      → Recovered env s region_id (length pre) (inode_num env.hashes seg.key) seg
  unfolding recovered_inode
  at_record s pre seg segs rest file w holds = record {
    stored = record {
      file = f;
      pre = pre;
      post = laid_out env.hashes segs ++ rest;
      region = holds.region;
      bytes = holds.text ∙ ap some (first_record s pre seg segs rest file holds);
      position = refl;
      valid = holds.readable.0.valid;
    };
    owner = refl;
    region_fits = omega (arith, (w.named region_id f holds.region).0);
    position_fits = omega (
      arith,
      length-append pre (serialized_segment env.hashes seg ++ (laid_out env.hashes segs ++ rest)),
      ap (λ (b : Bytes). length b) (first_record s pre seg segs rest file holds),
      holds.small,
    );
  }

  pub next-Holds :
      (s : LogStructuredFs) (pre : Bytes) (seg : Segment) (segs : List Segment) (rest file : Bytes)
      (indexs : List (Option IndexMap))
      → Holds s pre (seg ∷ segs) rest file
      → Holds
          (record s { indexs = indexs })
          (pre ++ serialized_segment env.hashes seg)
          segs
          rest
          file
  next-Holds s pre seg segs rest file indexs holds = record {
    region = holds.region;
    text = holds.text;
    shape =
        first_record s pre seg segs rest file holds
        ∙ sym (
            append_assoc pre (serialized_segment env.hashes seg)
              (laid_out env.hashes segs ++ rest));
    small = holds.small;
    readable = holds.readable.1;
  }

  pub read_here :
      (s : LogStructuredFs) (pre : Bytes) (seg : Segment) (segs : List Segment) (rest file : Bytes)
      (holds : Holds s pre (seg ∷ segs) rest file)
      → read_segment env.hashes env.transformer file (length pre) segment_padding
        ≡ ok (inode_num env.hashes seg.key, record seg { value = holds.readable.0.value })
  read_here s pre seg segs rest file holds = rw (
    first_record s pre seg segs rest file holds,
    read_segment-serialized_segment env.hashes env.transformer hv seg holds.readable.0.valid pre
        (laid_out env.hashes segs ++ rest),
    holds.readable.0.decodes,
  )

  pub more_to_read :
      (s : LogStructuredFs) (pre : Bytes) (seg : Segment) (segs : List Segment) (rest file : Bytes)
      → Holds s pre (seg ∷ segs) rest file
      → (leb (length file) (length pre) ≡ false)
        × ((length pre + size seg) % 2 ^ 64 ≡ length (pre ++ serialized_segment env.hashes seg))
  more_to_read s pre seg segs rest file holds =
      let more = laid_out env.hashes segs ++ rest in
      let e = first_record s pre seg segs rest file holds in
      let small : length (pre ++ (serialized_segment env.hashes seg ++ more)) < 2 ^ 64 =
        rw (← e) holds.small in
      let (some_bytes, whole, next) = after_record env seg pre more holds.readable.0.valid small in
      (rw e (ground (arith, some_bytes, whole)), next)

  pub scan_region-Restores :
      (segs : List Segment) (s : LogStructuredFs) (m : Records) (pre file : Bytes) (fuel : ℕ)
      → Holds s pre segs [] file
      → length segs < fuel
      → WellFormed env s
      → Represents env s m
      → Restores env s
          (all_logged env.hashes now segs m)
          (scan_region env now region_id file fuel (length pre) s.indexs)
  unfolding scan_region
  scan_region-Restores [] s m pre file zero holds enough w rep = absurd (omega arith)
  scan_region-Restores (seg ∷ segs) s m pre file zero holds enough w rep = absurd (omega arith)
  scan_region-Restores [] s m pre file (suc fuel) holds enough w rep =
      let stop : leb (length file) (length pre) ≡ true =
        rw (holds.shape, append-nil) (le→leb (length pre) (length pre) (omega arith)) in
      rw stop (record { indexs = s.indexs; returned = refl; well_formed = w; represents = rep })
  scan_region-Restores (seg ∷ segs) s m pre file (suc fuel) holds enough w rep =
      let (more, next) = more_to_read s pre seg segs [] file holds in
      let inum = inode_num env.hashes seg.key in
      let step =
        replay-Restores env now region_id s m (length pre) inum seg holds.readable.0.value w rep
          (at_record s pre seg segs [] file w holds) in
      let rest =
        scan_region-Restores segs (record s { indexs = step.indexs }) (logged now inum seg m)
          (pre ++ serialized_segment env.hashes seg) file fuel
          (next-Holds s pre seg segs [] file step.indexs holds) (omega arith) step.well_formed
          step.represents in
      rw
        (
          more,
          read_here s pre seg segs [] file holds,
          step.returned,
          size_value seg holds.readable.0.value,
          next,
        )
        (record {
          indexs = rest.indexs;
          returned = rest.returned;
          well_formed = rest.well_formed;
          represents = rest.represents;
        })
