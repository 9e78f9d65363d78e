-- ===== src/Vfs/Open/Newest.antt =====
-- The newest of the regions goes on as the active one.
use wiredkv.Prelude.{
  ℕ, ◌+◌, ◌^◌, ◌<◌, ◌≤◌, ◌≡◌, refl, sym, ap, ◌∙◌, arith, List, [], ◌∷◌, some, ok, nat_eq, list_eq,
  All, Bool-cases, inl, inr, length, leb,
}
use wiredkv.Prelude.Map.{Map, lookup}
use wiredkv.Vfs.Disk.{File, contents}
use wiredkv.Vfs.Disk.Laws.{IsHealthy}
use wiredkv.Vfs.Fs.{Env, LogStructuredFs, ◌>>=◌, ◌>>◌}
use wiredkv.Vfs.Lfs.Runs.{create_run}
use wiredkv.Vfs.Lfs.Rotated.{rotated}
use wiredkv.Vfs.Recovery.{sorted_ids}
use wiredkv.Vfs.Recovery.Regions.{IsAscending, sorted_ids-IsAscending}
use wiredkv.Vfs.Recovery.Order.{IsOneOf, HasRegion, All-step, sorted_ids-IsOneOf, sorted_ids-All}
use wiredkv.Vfs.Open.{last_id, resume_region, resume_newest}
use wiredkv.Vfs.Open.Directory.{checked_healthy}

module _ (n : ℕ) where
  -- The last of the ascending numbers is the greatest.
  last_id_lem :
      (k : ℕ) (ks : List ℕ)
      → IsAscending (k ∷ ks)
      → IsOneOf n (k ∷ ks)
      → All (λ j. j ≤ n) (k ∷ ks)
      → last_id k ks ≡ n
  last_id_lem k [] up one low = elim one [ inl e ↦ sym e | inr none_left ↦ elim none_left [ ] ]
  last_id_lem k (j ∷ js) ((first, _), up) (inl e) (_, low) =
      last_id_lem j js up (inl (omega (arith, e, first, low.0))) low
  last_id_lem k (j ∷ js) (_, up) (inr later) (_, low) = last_id_lem j js up later low

-- All regions that are found have a number below.
found_below :
    (n : ℕ) (m : Map ℕ File)
    → ((id : ℕ) (f : File) → lookup id m ≡ some f → id ≤ n)
    → All (λ k. k ≤ n) (sorted_ids m)
found_below n m low =
    All-step (HasRegion m) (λ k. k ≤ n) (sorted_ids m) (λ id (f, p). low id f p) (sorted_ids-All m)

resume_newest_run :
    (env : Env) (n : ℕ) (ids : List ℕ) (t : LogStructuredFs)
    → IsAscending ids
    → IsOneOf n ids
    → All (λ j. j ≤ n) ids
    → resume_newest env ids t ≡ resume_region env (lookup n t.regions) (record t { region_id = n })
unfolding resume_newest ◌>>=◌ ◌>>◌
resume_newest_run env n [] t up one low = elim one [ ]
resume_newest_run env n (k ∷ ks) t up one low = rw (last_id_lem n k ks up one low) refl

-- The store with that region active at its end.
abbrev pub resumed : File → LogStructuredFs → LogStructuredFs
resumed f t = record t { active = some f; offset = length (contents f t.disk) }

resume_region_run :
    (env : Env) (f : File) (t : LogStructuredFs)
    → IsHealthy t.disk
    → t.region_id + 1 < 10 ^ 9
    → resume_region env (some f) t ≡ (ok tt, rotated env (resumed f t))
unfolding resume_region ◌>>=◌ ◌>>◌
resume_region_run env f t healthy small =
    elim (Bool-cases (leb env.region_threshold (length (contents f t.disk)))) [
      | inl full ↦
          rw (checked_healthy (λ d. length (contents f d)) t.disk healthy, full)
            (create_run t healthy small)
      | inr room ↦
          rw (checked_healthy (λ d. length (contents f d)) t.disk healthy, room)
            (rw (checked_healthy (λ d. length (contents f d)) t.disk healthy) refl)
    ]

-- With the region `n` the newest that was found.
pub resume_newest-rotated :
    (env : Env) (n : ℕ) (f : File) (t : LogStructuredFs)
    → IsHealthy t.disk
    → n + 1 < 10 ^ 9
    → lookup n t.regions ≡ some f
    → ((id : ℕ) (g : File) → lookup id t.regions ≡ some g → id ≤ n)
    → resume_newest env (sorted_ids t.regions) t
      ≡ (ok tt, rotated env (resumed f (record t { region_id = n })))
resume_newest-rotated env n f t healthy small at low =
    resume_newest_run env n (sorted_ids t.regions) t (sorted_ids-IsAscending t.regions)
      (sorted_ids-IsOneOf n f t.regions at) (found_below n t.regions low)
    ∙ ap (λ o. resume_region env o (record t { region_id = n })) at
    ∙ resume_region_run env f (record t { region_id = n }) healthy small
