-- ===== src/Vfs/Recovery/Journal/Added.antt =====
-- A record that is added at the end of the active region of vfs/lfs.go.
use mathlib.Core.List.{append_assoc}
use mathlib.Core.Path.{fun_ext, subst}
use wiredkv.Prelude.{
  ℕ, ◌+◌, ◌^◌, ◌<◌, ◌≡◌, sym, ap, ◌∙◌, arith, ◌++◌, List, [], ◌∷◌, none, some, false, list_eq,
  nat_eq, ◌==◌, Bool-cases, inl, inr, length, length-append, nat_beq_iff, ==-self, ==→≡,
}
use wiredkv.Prelude.Map.{lookup}
use wiredkv.Vfs.Hash.{inode_num}
use wiredkv.Vfs.Transformer.{new_transformer}
use wiredkv.Vfs.Segment.{Segment, size}
use wiredkv.Vfs.Codec.{serialized_segment}
use wiredkv.Vfs.Codec.SegmentTrip.{length-serialized_segment}
use wiredkv.Vfs.Disk.{File}
use wiredkv.Vfs.Fs.{fresh_env, Env, LogStructuredFs, advance}
use wiredkv.Vfs.Lfs.{data_file_metadata, index_file_name}
use wiredkv.Vfs.Lfs.WellFormed.{WellFormed}
use wiredkv.Vfs.Lfs.Append.{grown, lookup-grown}
use wiredkv.Vfs.Lfs.Refinement.{Records}
use wiredkv.Vfs.Lfs.Refinement.Sequence.{no_records}
use wiredkv.Vfs.Recovery.{sorted_ids}
use wiredkv.Vfs.Recovery.Log.{laid_out, IsReadable, logged}
use wiredkv.Vfs.Recovery.Regions.{IsLaidOut}
use wiredkv.Vfs.Recovery.Order.{sorted_ids-IsStrict}
use wiredkv.Vfs.Snapshot.Reopened.{reset_records}
use wiredkv.Vfs.Open.Reopened.{index-other}
use wiredkv.Vfs.Recovery.Journal.{
  Journal, IsLive, laid_out-append, All-append_one, with_record, regions_logged-with_record, newest,
  none_above, active_text, other_file,
}

module _ (env : Env) (later : ℕ) (s : LogStructuredFs) (w : WellFormed env s) (m : Records)
    (j : Journal env later s m) where
  module _ (seg : Segment) (r : IsReadable new_transformer seg)
      (room : s.offset + size seg < 2 ^ 64) where
    abbrev t : LogStructuredFs
    t = grown env s w seg r.valid room

    abbrev segs_of' : ℕ → List Segment
    segs_of' = with_record env.hashes later s.region_id seg j.segs_of

    longer_text :
        w.text ++ serialized_segment env.hashes seg
        ≡ data_file_metadata ++ laid_out env.hashes (j.segs_of s.region_id ++ seg ∷ [])
    longer_text =
        ap (λ b. b ++ serialized_segment env.hashes seg) (active_text env later s w m j)
        ∙ append_assoc data_file_metadata (laid_out env.hashes (j.segs_of s.region_id))
            (serialized_segment env.hashes seg)
        ∙ ap (λ b. data_file_metadata ++ b)
            (sym (laid_out-append env.hashes (j.segs_of s.region_id) seg))

    grown-newest : IsLaidOut (fresh_env env) t s.region_id (j.segs_of s.region_id ++ seg ∷ [])
    unfolding advance
    grown-newest = record {
      file = w.file;
      region = w.current;
      text =
          lookup-grown env s w seg r.valid room w.file ∙ rw (==-self w.file) (ap some longer_text);
      small =
          subst (λ b. length b < 2 ^ 64) longer_text
            (omega (
              arith,
              length-append w.text (serialized_segment env.hashes seg),
              length-serialized_segment env.hashes seg r.valid,
              w.offset_is,
              room,
            ));
      readable =
          All-append_one (IsReadable new_transformer) (j.segs_of s.region_id) seg
            (j.laid s.region_id w.file w.current).readable r;
    }

    grown-older :
        (id : ℕ) (f : File)
        → lookup id s.regions ≡ some f
        → (id == s.region_id) ≡ false
        → IsLaidOut (fresh_env env) t id (j.segs_of id)
    unfolding advance
    grown-older id f p other =
        let l = j.laid id f p in
        record {
          file = l.file;
          region = l.region;
          text =
              lookup-grown env s w seg r.valid room l.file
              ∙ rw (other_file env later s w m j id l.file l.region other) l.text;
          small = l.small;
          readable = l.readable;
        }

    grown-IsLaidOut :
        (id : ℕ) (f : File)
        → lookup id s.regions ≡ some f
        → IsLaidOut (fresh_env env) t id (segs_of' id)
    grown-IsLaidOut id f p = elim (Bool-cases (id == s.region_id)) [
      | inl same ↦ rw same (
          subst (λ k. IsLaidOut (fresh_env env) t k (j.segs_of k ++ seg ∷ []))
            (sym (==→≡ id s.region_id same)) grown-newest)
      | inr other ↦ rw other (grown-older id f p other)
    ]

    grown-no_index : lookup index_file_name t.disk.files ≡ none
    grown-no_index =
        let (small, name) = w.named s.region_id w.file w.current in
        let other : (w.file == index_file_name) ≡ false =
          ap (λ f. f == index_file_name) name ∙ index-other s.region_id small in
        lookup-grown env s w seg r.valid room index_file_name ∙ rw other j.no_index

    -- A record that is added: the map changes as its replay says.
    pub grown-Journal :
        (m' : Records)
        → ((inum : ℕ) → IsLive later (m' inum))
        → ((inum : ℕ)
            → logged later (inode_num env.hashes seg.key) seg (reset_records m) inum
              ≡ reset_records m' inum)
        → Journal env later t m'
    unfolding advance
    grown-Journal m' live step = record {
      segs_of = segs_of';
      distinct = j.distinct;
      no_index = grown-no_index;
      laid = grown-IsLaidOut;
      unborn = λ id above.
          let other : (id == s.region_id) ≡ false = ground (arith, nat_beq_iff id s.region_id) in
          rw other (j.unborn id above);
      live = live;
      replays =
          regions_logged-with_record env.hashes later s.region_id seg j.segs_of
            (sorted_ids s.regions) no_records (sorted_ids-IsStrict s.regions j.distinct)
            (newest env later s w m j) (none_above env later s w m j)
          ∙ ap (logged later (inode_num env.hashes seg.key) seg) j.replays
          ∙ fun_ext step;
    }
