-- ===== src/Tests/Workers.antt =====
-- Goroutines of the region collector, started and stopped.
use wiredkv.Prelude.{◌≡◌, refl, arith, err, panicked, ok, Option, some, false, ◌∷◌, []}
use wiredkv.Prelude.Map.{lookup, insert}
use wiredkv.Vfs.Fs.{gc_init, gc_active, gc_inactive}
use wiredkv.Vfs.Disk.{File}
use wiredkv.Vfs.Lfs.Fresh.{new_fs}
use wiredkv.Vfs.Collector.{◌>>=◌, ◌>>◌, lock, cleanup_dirty_region}
use wiredkv.Tests.Sample.{sample_env, new_store}
use wiredkv.Vfs.Collector.Worker.{
  Workers, looping, selecting, ticked, collecting, active, returned, moved, start_region_gc,
  stop_region_gc, select, tick, call, begin, end, finish, Reach, opened, start, works,
}
use wiredkv.Vfs.Collector.Worker.Exit.{Ends, stop_region_gc-Ends}

abbrev same_name : File → Option File
same_name f = some f

abbrev started_once : Workers
started_once = record {
  gcstate = gc_init;
  gcdone = some 0;
  channels = (0, record { buffered = false; closed = false }) ∷ [];
  phases = (0, looping) ∷ [];
  started = 1;
  store = new_store;
}

-- The store after a collection of so few regions.
abbrev collected_once : Workers
collected_once = record started_once {
  gcstate = gc_inactive;
  store = record new_store { gcstate = gc_active };
}

started_once-Reach : Reach sample_env same_name started_once
unfolding start_region_gc insert
started_once-Reach = start (opened new_store)

nothing_done :
    cleanup_dirty_region sample_env 17 same_name 0 (record { fs = new_store; mu = false })
    ≡ (ok tt, record { fs = record new_store { gcstate = gc_active }; mu = false })
unfolding cleanup_dirty_region lock ◌>>=◌ ◌>>◌ new_fs insert
nothing_done = refl

collected_once-Reach : Reach sample_env same_name collected_once
unfolding lookup insert
collected_once-Reach =
    let a = moved 0 (selecting 0) started_once in
    let b = moved 0 ticked started_once in
    let c = moved 0 collecting started_once in
    let d = record (moved 0 active started_once) { gcstate = gc_active } in
    let e = record (moved 0 returned collected_once) { gcstate = gc_active } in
    let first = works 0 started_once-Reach (select started_once 0 refl refl) in
    let second = works 0 first (tick a 0 refl) in
    let third = works 0 second (call b refl (λ q. absurd (ground (arith, q)))) in
    let fourth = works 0 third (begin c refl) in
    let fifth = works 0 fourth (end d 17 0 _ _ refl nothing_done refl) in
    works 0 fifth (finish e refl)

-- A goroutine that has not collected yet is not stopped, and the next start makes another.
stopped_early :
    (start_region_gc (stop_region_gc started_once).1).phases ≡ (0, looping) ∷ (1, looping) ∷ []
unfolding start_region_gc stop_region_gc insert
stopped_early = refl

-- A second stop that comes before the goroutine has seen the first panics.
stopped_twice : (stop_region_gc (stop_region_gc collected_once).1).0 ≡ err panicked
unfolding stop_region_gc lookup insert
stopped_twice = refl

stop_region_gc-Ends_example : Ends sample_env same_name 0 (stop_region_gc collected_once).1
unfolding lookup stop_region_gc new_fs insert
stop_region_gc-Ends_example =
    stop_region_gc-Ends sample_env same_name 0 looping collected_once collected_once-Reach
      (omega arith) refl refl (λ e. absurd (ground (arith, e)))
