-- ===== src/Vfs/Recovery/Commands.antt =====
-- Commands on the store of vfs/lfs.go keep its region files in step with what it stands for.
use mathlib.Core.Path.{subst}
use wiredkv.Prelude.{
  ℕ, ◌≤◌, ◌≡◌, refl, ap, ◌∙◌, arith, Option, none, some, false, nat_eq, nat_beq, nat_beq_iff, ◌==◌,
  Bool-cases, inl, inr,
}
use wiredkv.Prelude.Bytes.{Bytes}
use wiredkv.Vfs.Hash.{IsHashes, inode_num}
use wiredkv.Vfs.Codec.SegmentTrip.{IsSegment}
use wiredkv.Vfs.Transformer.{decode, new_transformer, active_encryptor, active_compressor}
use wiredkv.Vfs.Segment.{Segment, is_tombstone, new_tombstone_segment}
use wiredkv.Vfs.Codec.{INode}
use wiredkv.Vfs.Fs.{Env, LogStructuredFs, find_inode, store_inode, delete_inode, advance}
use wiredkv.Vfs.Lfs.{inode_at, moved_inode, is_expired}
use wiredkv.Vfs.Lfs.WellFormed.{WellFormed}
use wiredkv.Vfs.Lfs.Append.{grown, grown-WellFormed}
use wiredkv.Vfs.Lfs.View.{fetch_run}
use wiredkv.Vfs.Lfs.Put.{Fits, Points, put_points, put_final, final, indexed, indexed-WellFormed}
use wiredkv.Vfs.Lfs.Delete.{deleted_run}
use wiredkv.Vfs.Lfs.Cas.{
  next_version, updated_run, raised-WellFormed, raised-Fits, moved_points,
  update_segment_with_cas_refused,
}
use wiredkv.Vfs.Lfs.Refinement.{
  Records, Command, put, remove, update, fetch, exec, spec, replace, has_expired, Matches,
  Represents, Allowed,
}
use wiredkv.Vfs.Recovery.{has_lapsed}
use wiredkv.Vfs.Recovery.Log.{IsReadable, logged}
use wiredkv.Vfs.Recovery.Journal.{IsLive, Journal, changed_index-Journal}
use wiredkv.Vfs.Recovery.Journal.Added.{grown-Journal}
use wiredkv.Vfs.Recovery.Journal.Opened.{rotated-Journal}
use wiredkv.Vfs.Snapshot.Reopened.{reset_record, reset_records}

-- A record that a recovery at that time restores: it has a value, and has not expired then.
pub record IsLasting (later : ℕ) (seg : Segment) : Type 0 where
  pub no_tombstone : is_tombstone seg ≡ false
  pub unexpired : has_lapsed later seg ≡ false

-- What a command must be for its effect to outlast a crash before that time: records that last; a
-- fetch that is not later.
abbrev pub Outlasts : ℕ → Command → Type 0
Outlasts later (put key seg) = IsLasting later seg
Outlasts later (remove now key) = Unit {0}
Outlasts later (update key expected seg) = IsLasting later seg
Outlasts later (fetch now key) = now ≤ later

-- A new transformer decodes everything.
fresh-IsReadable : (seg : Segment) → IsSegment seg → IsReadable new_transformer seg
unfolding decode active_encryptor active_compressor
fresh-IsReadable seg v = record { valid = v; value = seg.value; decodes = refl }

replace-IsLive :
    (later inum : ℕ) (r : Option (ℕ × Segment)) (m : Records)
    → IsLive later r
    → ((k : ℕ) → IsLive later (m k))
    → (k : ℕ) → IsLive later (replace inum r m k)
replace-IsLive later inum r m new old k = elim (Bool-cases (inum == k)) [
  | inl same ↦ rw same new
  | inr other ↦ rw other (old k)
]

reset-replace :
    (inum : ℕ) (r : Option (ℕ × Segment)) (m : Records) (k : ℕ)
    → replace inum (reset_record r) (reset_records m) k ≡ reset_records (replace inum r m) k
reset-replace inum r m k = elim (Bool-cases (inum == k)) [
  | inl same ↦ rw same refl
  | inr other ↦ rw other refl
]

module _ (env : Env) (hv : IsHashes env.hashes) (later : ℕ) where
  -- The record is written, its entry stored, and a new region opened if the old one is full.
  final-Journal :
      (s : LogStructuredFs) (w : WellFormed env s) (m : Records)
      → Journal env later s m
      → (key : Bytes) (seg : Segment) (fits : Fits s key seg) (n : INode) (p : Points s n seg)
      → IsLasting later seg
      → (version : ℕ)
      → Journal env later
          (final env hv s w key seg fits n p)
          (replace (inode_num env.hashes key) (some (version, seg)) m)
  unfolding store_inode advance
  final-Journal s w m j key seg fits n p lasting version =
      let inum = inode_num env.hashes key in
      let r = fresh-IsReadable seg fits.valid in
      let t = grown env s w seg fits.valid fits.room in
      let step : (k : ℕ)
          → logged later (inode_num env.hashes seg.key) seg (reset_records m) k
            ≡ reset_records (replace inum (some (version, seg)) m) k =
        λ k.
          rw (lasting.no_tombstone, lasting.unexpired, ap (inode_num env.hashes) fits.key_is)
            (reset-replace inum (some (version, seg)) m k) in
      let j' =
        grown-Journal env later s w m j seg r fits.room (replace inum (some (version, seg)) m)
          (replace-IsLive later inum (some (version, seg)) m lasting.unexpired j.live) step in
      let i = indexed env hv s w key seg fits n p in
      rotated-Journal env later i (indexed-WellFormed env hv s w key seg fits n p) _
        (changed_index-Journal env later t (grown-WellFormed env s w seg fits.valid fits.room) _ j'
          i.indexs)
        fits.regions_left

  module _ (s : LogStructuredFs) (w : WellFormed env s) (m : Records) (rep : Represents env s m)
      (j : Journal env later s m) where
    put-Journal :
        (key : Bytes) (seg : Segment)
        → Fits s key seg
        → IsLasting later seg
        → Journal env later (exec env (put key seg) s).1 (spec env (put key seg) m).1
    unfolding exec spec
    put-Journal key seg fits lasting = rw (put_final env hv s w key seg fits) (
        final-Journal s w m j key seg fits (inode_at env seg s) (put_points env hv s w key seg fits)
          lasting 0)

    remove-Journal :
        (now : ℕ) (key : Bytes)
        → Allowed env s (remove now key)
        → Outlasts later (remove now key)
        → Journal env later (exec env (remove now key) s).1 (spec env (remove now key) m).1
    unfolding exec spec delete_inode is_tombstone new_tombstone_segment
    remove-Journal now key (v, room) lasting =
        let seg = new_tombstone_segment now key in
        let inum = inode_num env.hashes key in
        let r = fresh-IsReadable seg v in
        let t = grown env s w seg v room in
        let j' =
          grown-Journal env later s w m j seg r room (replace inum none m)
            (replace-IsLive later inum none m tt j.live) (reset-replace inum none m) in
        rw (deleted_run env hv s w now key v room)
          (changed_index-Journal env later t (grown-WellFormed env s w seg v room) _ j' _)

    update-Journal :
        (key : Bytes) (expected : ℕ) (seg : Segment) (o : Option INode) (r : Option (ℕ × Segment))
        → Fits s key seg
        → IsLasting later seg
        → find_inode s (inode_num env.hashes key) ≡ o
        → m (inode_num env.hashes key) ≡ r
        → Matches env s o r
        → Journal env later
            (exec env (update key expected seg) s).1
            (spec env (update key expected seg) m).1
    unfolding exec spec store_inode
    update-Journal key expected seg none none fits lasting at_key in_map h =
        rw (update_segment_with_cas_refused env s key expected seg w (λ n p. cc), in_map) j
    update-Journal key expected seg none (some r) fits lasting at_key in_map h = absurd h
    update-Journal key expected seg (some n) none fits lasting at_key in_map h = absurd h
    update-Journal key expected seg (some n) (some (version, old)) fits lasting at_key in_map
          (same, times, st) =
        elim (Bool-cases (nat_beq version expected)) [
          | inl equal ↦
              let e : n.mvcc ≡ expected = same ∙ (nat_beq_iff _ _).0 equal in
              rw (in_map, equal, ← e, updated_run env hv s w key seg fits n at_key)
                (final-Journal _ (raised-WellFormed env hv s w key seg fits n at_key) m
                  (changed_index-Journal env later s w m j _) key seg
                  (raised-Fits env hv s w key seg fits n at_key)
                  (moved_inode seg (next_version n.mvcc) s n)
                  (moved_points env hv s w key seg fits n at_key) lasting (next_version version))
          | inr other ↦
              rw
                (
                  in_map,
                  other,
                  update_segment_with_cas_refused env s key expected seg w
                      (λ n' p q. ground (arith, nat_beq_iff version expected, at_key, p, q, same)),
                )
                j
        ]

    fetch-Journal :
        (now : ℕ) (key : Bytes) (o : Option INode) (r : Option (ℕ × Segment))
        → now ≤ later
        → find_inode s (inode_num env.hashes key) ≡ o
        → m (inode_num env.hashes key) ≡ r
        → Matches env s o r
        → Journal env later (exec env (fetch now key) s).1 (spec env (fetch now key) m).1
    unfolding exec spec is_expired has_lapsed
    fetch-Journal now key none none early at_key in_map h =
        rw (fetch_run env now key s w.shards, at_key, in_map) j
    fetch-Journal now key none (some r) early at_key in_map h = absurd h
    fetch-Journal now key (some n) none early at_key in_map h = absurd h
    fetch-Journal now key (some n) (some (version, seg)) early at_key in_map (same, times, st) =
        let alive : IsLive later (some (version, seg)) =
          subst (IsLive later) in_map (j.live (inode_num env.hashes key)) in
        let fresh : has_expired now seg ≡ false = ground (arith, alive) in
        rw (fetch_run env now key s w.shards, at_key, in_map, times, fresh) j

    -- After a command that is allowed and outlasts, the files still give the map.
    pub exec-Journal :
        (c : Command)
        → Allowed env s c
        → Outlasts later c
        → Journal env later (exec env c s).1 (spec env c m).1
    exec-Journal (put key seg) fits lasting = put-Journal key seg fits lasting
    exec-Journal (remove now key) allowed lasting = remove-Journal now key allowed lasting
    exec-Journal (update key expected seg) fits lasting =
        update-Journal key expected seg (find_inode s (inode_num env.hashes key))
          (m (inode_num env.hashes key)) fits lasting refl refl
          (rep.each (inode_num env.hashes key))
    exec-Journal (fetch now key) allowed early =
        fetch-Journal now key (find_inode s (inode_num env.hashes key))
          (m (inode_num env.hashes key)) early refl refl (rep.each (inode_num env.hashes key))
