-- ===== src/Vfs/Open/Torn.antt =====
-- A write that is cut short leaves a directory that vfs/lfs.go does not open again.
use mathlib.Core.List.{append_assoc}
use mathlib.Core.Path.{subst}
use wiredkv.Prelude.{
  ℕ, ◌+◌, ◌^◌, ◌<◌, ◌≡◌, ◌⊎◌, refl, sym, ap, ◌∙◌, arith, ◌++◌, List, [], ◌∷◌, true, none, some, err,
  Error, eof, io_failed, false, list_eq, nat_eq, ==-self, ==→≡, Bool-cases, inl, inr, ◌==◌, length,
  take, length-append, length-take_le,
}
use wiredkv.Prelude.Bytes.{Bytes}
use wiredkv.Prelude.Map.{lookup}
use wiredkv.Vfs.Hash.{IsHashes}
use wiredkv.Vfs.Transformer.{new_transformer}
use wiredkv.Vfs.Segment.{Segment, size}
use wiredkv.Vfs.Codec.{serialized_segment, read_segment, segment_padding}
use wiredkv.Vfs.Codec.SegmentTrip.{IsSegment, length-serialized_segment}
use wiredkv.Vfs.Codec.Torn.{read_segment-torn}
use wiredkv.Vfs.Disk.{File, Disk, short, append_file, write}
use wiredkv.Vfs.Disk.Laws.{IsHealthy}
use wiredkv.Vfs.Fs.{fresh_env, Env, LogStructuredFs, ◌>>=◌, ◌>>◌, advance}
use wiredkv.Vfs.Lfs.{data_file_metadata, index_file_name, put_segment, append_to_active_region}
use wiredkv.Vfs.Lfs.WellFormed.{WellFormed}
use wiredkv.Vfs.Lfs.Append.{longer, lookup-longer, longer-WellFormed}
use wiredkv.Vfs.Lfs.Refinement.{Records, Command}
use wiredkv.Vfs.Lfs.Refinement.Sequence.{AllAllowed, no_records}
use wiredkv.Vfs.Recovery.Log.{laid_out}
use wiredkv.Vfs.Recovery.Regions.{IsLaidOut}
use wiredkv.Vfs.Recovery.Stops.{Breaks}
use wiredkv.Vfs.Recovery.Journal.{Journal, active_text, other_file}
use wiredkv.Vfs.Open.{Options, open_fs}
use wiredkv.Vfs.Open.Broken.{open_fs-Breaks}
use wiredkv.Vfs.Open.Reopened.{index-other}
use wiredkv.Vfs.Open.Empty.{first_store, open_fs-WellFormed}
use wiredkv.Vfs.Open.Session.{store_after, records_after}
use wiredkv.Vfs.Open.Crashed.{AllOutlast, store_after-Journal, first-Journal}

module _ (env : Env) (hv : IsHashes env.hashes) (later : ℕ) (opt : Options) (s : LogStructuredFs)
    (m : Records) (w : WellFormed env s) (j : Journal env later s m)
    (small : s.region_id + 1 < 10 ^ 9) (b : Bytes) (n : ℕ) (size_is : length b ≡ n)
    (room : s.offset + n < 2 ^ 64) (some_bytes : 0 < n) (e : Error) where
  abbrev s' : LogStructuredFs
  s' = longer env s w b n size_is room

  abbrev segs : List Segment
  segs = j.segs_of s.region_id

  pub text_before : Bytes
  text_before = data_file_metadata ++ laid_out env.hashes segs

  longer_text : w.text ++ b ≡ data_file_metadata ++ (laid_out env.hashes segs ++ b)
  longer_text =
      ap (λ t. t ++ b) (active_text env later s w m j)
      ∙ append_assoc data_file_metadata (laid_out env.hashes segs) b

  longer-Breaks :
      read_segment env.hashes new_transformer
          (text_before ++ b)
          (length text_before)
          segment_padding
        ≡ err e
      → Breaks (fresh_env env) s' s.region_id segs e
  unfolding advance text_before
  longer-Breaks broken = record {
    file = w.file;
    rest = b;
    region = w.current;
    text =
        lookup-longer env s w b n size_is room w.file ∙ rw (==-self w.file) (ap some longer_text);
    small =
        subst (λ t. length t < 2 ^ 64) longer_text
          (omega (arith, length-append w.text b, w.offset_is, size_is, room));
    readable = (j.laid s.region_id w.file w.current).readable;
    more = omega (arith, size_is, some_bytes);
    broken =
        ap (λ t. read_segment env.hashes new_transformer t (length text_before) segment_padding)
          (sym (append_assoc data_file_metadata (laid_out env.hashes segs) b))
        ∙ broken;
  }

  longer-laid :
      (id : ℕ) (f : File)
      → lookup id s.regions ≡ some f
      → (id ≡ s.region_id) ⊎ IsLaidOut (fresh_env env) s' id (j.segs_of id)
  unfolding advance
  longer-laid id f p = elim (Bool-cases (id == s.region_id)) [
    | inl same ↦ inl (==→≡ id s.region_id same)
    | inr other ↦
        let l = j.laid id f p in
        inr (record {
          file = l.file;
          region = l.region;
          text =
              lookup-longer env s w b n size_is room l.file
              ∙ rw (other_file env later s w m j id l.file l.region other) l.text;
          small = l.small;
          readable = l.readable;
        })
  ]

  longer-no_index : lookup index_file_name s'.disk.files ≡ none
  longer-no_index =
      let (low, name) = w.named s.region_id w.file w.current in
      let other : (w.file == index_file_name) ≡ false =
        ap (λ f. f == index_file_name) name ∙ index-other s.region_id low in
      lookup-longer env s w b n size_is room index_file_name ∙ rw other j.no_index

  -- Bytes behind the last record that give an error when they are read as one.
  pub open_fs-longer :
      read_segment env.hashes new_transformer
          (text_before ++ b)
          (length text_before)
          segment_padding
        ≡ err e
      → (open_fs env later true opt (append_file w.file b s.disk)).0 ≡ err e
  unfolding advance
  open_fs-longer broken =
      open_fs-Breaks env hv later opt s' (longer-WellFormed env s w b n size_is room) small
        j.segs_of j.unborn longer-laid longer-no_index e (longer-Breaks broken)

-- The store on a disk whose next write is cut short after `k` bytes.
abbrev pub cut_short : ℕ → LogStructuredFs → LogStructuredFs
cut_short k s = record s { disk = record s.disk { outcomes = short k ∷ [] } }

put_torn :
    (env : Env) (s : LogStructuredFs) (w : WellFormed env s) (key : Bytes) (seg : Segment) (k : ℕ)
    → put_segment env key seg (cut_short k s) ≡ (
      err io_failed,
      record s {
        disk =
            append_file w.file
              (take k (serialized_segment env.hashes seg))
              (record s.disk { outcomes = [] });
      },
    )
unfolding put_segment append_to_active_region write ◌>>=◌ ◌>>◌
put_torn env s w key seg k = rw w.active refl

module _ (env : Env) (now later : ℕ) (opt : Options) (d : Disk) (healthy : IsHealthy d)
    (empty : d.files ≡ []) (cs : List Command) where
  -- The store after a session on a new directory.
  abbrev pub used : LogStructuredFs
  used = store_after env cs (first_store env now opt d healthy empty)

  -- Let a session on a new directory be as for `open_fs-Survives`. Let the write of a put after it, for
  -- whose record there is room, be cut short after some bytes, but not all. Then the put reports an
  -- error, and the directory that it leaves is not opened at `later`: the recovery fails at the end of
  -- the file.
  pub open_fs-put_segment :
      (key : Bytes) (seg : Segment) (k : ℕ)
      → IsHashes env.hashes
      → AllAllowed env (first_store env now opt d healthy empty) cs
      → AllOutlast later cs
      → used.region_id + 1 < 10 ^ 9
      → IsSegment seg
      → used.offset + size seg < 2 ^ 64
      → 0 < k
      → k < size seg
      → ((put_segment env key seg (cut_short k used)).0 ≡ err io_failed)
        × ((open_fs env later true opt (put_segment env key seg (cut_short k used)).1.disk).0
            ≡ err eof)
  open_fs-put_segment key seg k hv all lasting small v room some_bytes less =
      let (_, w0, rep0) = open_fs-WellFormed env now opt d healthy empty true in
      let first = first_store env now opt d healthy empty in
      let (w, j) =
        store_after-Journal env later cs first no_records hv w0 rep0
          (first-Journal env now later opt d healthy empty) all lasting in
      let b = take k (serialized_segment env.hashes seg) in
      let whole = length-serialized_segment env.hashes seg v in
      let part : length b ≡ k =
        length-take_le k (serialized_segment env.hashes seg) (omega (arith, whole)) in
      let stop =
        open_fs-longer env hv later opt used (records_after env cs no_records) w j small b k part
          (omega arith) some_bytes eof
          (read_segment-torn env.hashes new_transformer seg
            (text_before env hv later opt used (records_after env cs no_records) w j small b k part
              (omega arith) some_bytes eof)
            k v less) in
      let run = put_torn env used w key seg k in
      (
        ap (λ r. r.0) run,
        ap (λ r. (open_fs env later true opt r.1.disk).0) run
            ∙ ap
                (λ os.
                  (open_fs env later true opt
                    (append_file w.file b (record used.disk { outcomes = os }))).0)
                (sym w.healthy)
            ∙ stop,
      )
