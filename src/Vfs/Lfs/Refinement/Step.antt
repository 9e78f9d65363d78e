-- ===== src/Vfs/Lfs/Refinement/Step.antt =====
-- One command on the storage engine does what it does on the map.
use mathlib.Core.Path.{subst}
use wiredkv.Prelude.{
  ℕ, ◌≡◌, ◌≢◌, refl, sym, ap, ◌∙◌, arith, Option, none, some, err, true, ◌==◌, nat_eq, nat_beq,
  nat_beq_iff, if◌then◌else◌, Bool-cases, inl, inr,
}
use wiredkv.Prelude.Bytes.{Bytes}
use wiredkv.Vfs.Hash.{IsHashes, inode_num}
use wiredkv.Vfs.Segment.{Segment}
use wiredkv.Vfs.Codec.{INode}
use wiredkv.Vfs.Fs.{Env, LogStructuredFs, find_inode, delete_inode}
use wiredkv.Vfs.Lfs.{inode_at, moved_inode, is_expired}
use wiredkv.Vfs.Lfs.Index.{find_inode-delete_inode}
use wiredkv.Vfs.Lfs.Stored.{StoredAs-Extends, Extends}
use wiredkv.Vfs.Lfs.WellFormed.{WellFormed}
use wiredkv.Vfs.Lfs.Append.{delete_inode-Extends}
use wiredkv.Vfs.Lfs.View.{view, view_of, view-StoredAs, fetch_run}
use wiredkv.Vfs.Lfs.Put.{
  Fits, final-StoredAs, final-Extends, find_final, put_final, put_points, put_segment-WellFormed,
}
use wiredkv.Vfs.Lfs.Delete.{
  deleted_run, find_deleted, deleted-Extends, delete_segment-WellFormed, fetch_segment-WellFormed,
}
use wiredkv.Vfs.Lfs.Cas.{
  next_version, updated_run, find_updated, updated-StoredAs, updated-Extends,
  update_segment_with_cas-WellFormed, update_segment_with_cas_refused, refusal,
}
use wiredkv.Vfs.Lfs.Refinement.{
  Records, Command, put, remove, update, fetch, changed, found, exec, spec, replace, has_expired,
  Matches, Represents, Allowed,
}

pub Matches-Extends :
    (env : Env) (s t : LogStructuredFs) (o : Option INode) (r : Option (ℕ × Segment))
    → Extends s t
    → Matches env s o r
    → Matches env t o r
Matches-Extends env s t none none e h = h
Matches-Extends env s t none (some r) e h = h
Matches-Extends env s t (some n) none e h = h
Matches-Extends env s t (some n) (some (version, seg)) e (same, times, st) =
    (same, times, StoredAs-Extends st e)

-- A step that replaces the entry of one number by one that matches.
pub Represents-replace :
    (env : Env) (s t : LogStructuredFs) (m : Records) (inum : ℕ) (o : Option INode)
    (r : Option (ℕ × Segment))
    → Extends s t
    → ((j : ℕ) → find_inode t j ≡ (if inum == j then o else find_inode s j))
    → Matches env t o r
    → Represents env s m
    → Represents env t (replace inum r m)
Represents-replace env s t m inum o r e step new rep = record {
  each = λ j. elim (Bool-cases (inum == j)) [
    | inl same ↦ rw (step j, same) new
    | inr other ↦ rw (step j, other) (Matches-Extends env s t (find_inode s j) (m j) e (rep.each j))
  ];
}

-- The step is the specified one, and the invariant and the representation hold after it.
abbrev pub Refines : Env → LogStructuredFs → Records → Command → Type 0
Refines env s m c =
    ((exec env c s).0 ≡ (spec env c m).0)
    × WellFormed env (exec env c s).1
    × Represents env (exec env c s).1 (spec env c m).1

module _ (env : Env) (hv : IsHashes env.hashes) (s : LogStructuredFs) (w : WellFormed env s)
    (m : Records) (rep : Represents env s m) where
  put-Refines : (key : Bytes) (seg : Segment) → Fits s key seg → Refines env s m (put key seg)
  unfolding exec spec inode_at
  put-Refines key seg fits =
      let n = inode_at env seg s in
      let p = put_points env hv s w key seg fits in
      let (done, after) = put_segment-WellFormed env hv s w key seg fits in
      (
        ap changed done,
        after,
        rw (put_final env hv s w key seg fits) (
            Represents-replace env s _ m (inode_num env.hashes key) (some n) (some (0, seg))
              (final-Extends env hv s w key seg fits n p) (find_final env hv s w key seg fits n p)
              (refl, refl, final-StoredAs env hv s w key seg fits n p) rep),
      )

  remove-Refines :
      (now : ℕ) (key : Bytes) → Allowed env s (remove now key) → Refines env s m (remove now key)
  unfolding exec spec
  remove-Refines now key (v, room) =
      let (done, after) = delete_segment-WellFormed env hv s w now key v room in
      (
        ap changed done,
        after,
        rw (deleted_run env hv s w now key v room) (
            Represents-replace env s _ m (inode_num env.hashes key) none none
              (deleted-Extends env hv s w now key v room) (find_deleted env hv s w now key v room)
              tt rep),
      )

  -- The update that is made, at the version of the entry.
  update_made :
      (key : Bytes) (seg : Segment) (n : INode) (version : ℕ) (old : Segment)
      → Fits s key seg
      → find_inode s (inode_num env.hashes key) ≡ some n
      → m (inode_num env.hashes key) ≡ some (version, old)
      → n.mvcc ≡ version
      → Refines env s m (update key n.mvcc seg)
  unfolding exec spec moved_inode
  update_made key seg n version old fits at_key in_map same =
      let (done, after) = update_segment_with_cas-WellFormed env hv s w key seg fits n at_key in
      let test : nat_beq version n.mvcc ≡ true = (nat_beq_iff _ _).1 (sym same) in
      rw (in_map, test)
        (
          ap changed done,
          after,
          rw (updated_run env hv s w key seg fits n at_key) (
              Represents-replace env s _ m (inode_num env.hashes key)
                (some (moved_inode seg (next_version n.mvcc) s n))
                (some (next_version version, seg))
                (updated-Extends env hv s w key seg fits n at_key)
                (find_updated env hv s w key seg fits n at_key)
                (ap next_version same, refl, updated-StoredAs env hv s w key seg fits n at_key)
                rep),
        )

  -- The update that is refused.
  update_refused :
      (key : Bytes) (expected : ℕ) (seg : Segment)
      → ((n : INode) → find_inode s (inode_num env.hashes key) ≡ some n → n.mvcc ≢ expected)
      → spec env (update key expected seg) m
        ≡ (changed (err (refusal (find_inode s (inode_num env.hashes key)))), m)
      → Refines env s m (update key expected seg)
  unfolding exec
  update_refused key expected seg unlike specified =
      rw (update_segment_with_cas_refused env s key expected seg w unlike, specified) (refl, w, rep)

  update_cases :
      (key : Bytes) (expected : ℕ) (seg : Segment) (o : Option INode) (r : Option (ℕ × Segment))
      → Fits s key seg
      → find_inode s (inode_num env.hashes key) ≡ o
      → m (inode_num env.hashes key) ≡ r
      → Matches env s o r
      → Refines env s m (update key expected seg)
  unfolding spec
  update_cases key expected seg none none fits at_key in_map h =
      update_refused key expected seg (λ n p. cc) (rw (in_map, at_key))
  update_cases key expected seg none (some r) fits at_key in_map h = absurd h
  update_cases key expected seg (some n) none fits at_key in_map h = absurd h
  update_cases key expected seg (some n) (some (version, old)) fits at_key in_map
        (same, times, st) =
      elim (Bool-cases (nat_beq version expected)) [
        | inl equal ↦
            let e : n.mvcc ≡ expected = same ∙ (nat_beq_iff _ _).0 equal in
            subst (λ x. Refines env s m (update key x seg)) e
              (update_made key seg n version old fits at_key in_map same)
        | inr other ↦
            update_refused key expected seg
              (λ n' p q. ground (arith, nat_beq_iff version expected, at_key, p, q, same))
              (rw (in_map, other, at_key))
      ]

  fetch_cases :
      (now : ℕ) (key : Bytes) (o : Option INode) (r : Option (ℕ × Segment))
      → find_inode s (inode_num env.hashes key) ≡ o
      → m (inode_num env.hashes key) ≡ r
      → Matches env s o r
      → ((exec env (fetch now key) s).0 ≡ (spec env (fetch now key) m).0)
        × Represents env (exec env (fetch now key) s).1 (spec env (fetch now key) m).1
  unfolding exec spec view is_expired
  fetch_cases now key none none at_key in_map h =
      rw (fetch_run env now key s w.shards, at_key, in_map) (refl, rep)
  fetch_cases now key none (some r) at_key in_map h = absurd h
  fetch_cases now key (some n) none at_key in_map h = absurd h
  fetch_cases now key (some n) (some (version, seg)) at_key in_map (same, times, st) =
      let inum = inode_num env.hashes key in
      let seen = view-StoredAs env hv now s inum n seg at_key st times in
      rw (fetch_run env now key s w.shards, in_map)
        (
          ap found (seen ∙ ap (λ v. view_of env now v seg) same),
          elim (Bool-cases (has_expired now seg)) [
            | inl old ↦
                rw (at_key, times, old)
                  (Represents-replace env s (delete_inode inum s) m inum none none
                    (delete_inode-Extends inum s) (find_inode-delete_inode s w.shards inum) tt rep)
            | inr live ↦ rw (at_key, times, live) rep
          ],
        )

  -- From a state that satisfies the invariant and represents a map, each command that is allowed
  -- gives the reply of the specification, and leaves a state that satisfies the invariant and
  -- represents the map that the specification leaves.
  pub exec-Refines : (c : Command) → Allowed env s c → Refines env s m c
  unfolding exec
  exec-Refines (put key seg) fits = put-Refines key seg fits
  exec-Refines (remove now key) allowed = remove-Refines now key allowed
  exec-Refines (update key expected seg) fits =
      update_cases key expected seg (find_inode s (inode_num env.hashes key))
        (m (inode_num env.hashes key)) fits refl refl (rep.each (inode_num env.hashes key))
  exec-Refines (fetch now key) allowed =
      let (reply, after) =
        fetch_cases now key (find_inode s (inode_num env.hashes key)) (m (inode_num env.hashes key))
          refl refl (rep.each (inode_num env.hashes key)) in
      (reply, fetch_segment-WellFormed env now key s w, after)
