-- ===== src/Vfs/Collector/Worker.antt =====
-- StartRegionGC and StopRegionGC of vfs/lfs.go, with the goroutines that StartRegionGC starts, as steps
-- on the fields gcstate and gcdone and on the store. A collection ends when cleanupDirtyRegion of the
-- parent returns on the store that is there, and leaves the store that it returns.
pub mod Owned
pub mod Exit
use wiredkv.Prelude.{
  [], ℕ, ◌+◌, Bool, true, false, ◌||◌, Option, none, some, Result, ok, err, ◌≡◌, ◌≢◌, blocked,
  panicked, nat_eq, if◌then◌else◌,
}
use wiredkv.Prelude.Map.{Map, lookup, insert}
use wiredkv.Vfs.Disk.{File}
use wiredkv.Vfs.Fs.{Env, LogStructuredFs, GcState, gc_init, gc_active, gc_inactive}
use wiredkv.Vfs.Collector.{Held, cleanup_dirty_region, returns}

-- A channel with room for one value.
pub record Channel : Type 0 where
  pub buffered : Bool
  pub closed : Bool

-- Where a goroutine is: before the select; in it, with the channel that it read from lfs.gcdone; after
-- a tick; in cleanupDirtyRegion, before and after that sets gcstate; after the call; after a value from
-- the channel; and at its end.
pub data Phase : Type 0 where
  looping : Phase
  selecting : ℕ → Phase
  ticked collecting active returned leaving left : Phase

-- Channels and goroutines are numbered in the order in which StartRegionGC makes them.
pub record Workers : Type 0 where
  pub gcstate : GcState
  pub gcdone : Option ℕ
  pub channels : Map ℕ Channel
  pub phases : Map ℕ Phase
  pub started : ℕ
  pub store : LogStructuredFs

abbrev pub is_init : GcState → Bool
is_init gc_init = true
is_init gc_active = false
is_init gc_inactive = false

unfoldable pub start_region_gc : Workers → Workers
start_region_gc c =
    if is_init c.gcstate
    then (record {
      gcstate = c.gcstate;
      gcdone = some c.started;
      channels = insert c.started (record { buffered = false; closed = false }) c.channels;
      phases = insert c.started looping c.phases;
      started = c.started + 1;
      store = c.store;
    })
    else c

-- A send on a nil channel waits for ever, and on a closed one panics.
abbrev pub send_and_close : Workers → ℕ → Option Channel → Result (Unit {0}) × Workers
send_and_close c k none = (err blocked, c)
send_and_close c k (some ch) =
    if ch.closed then (err panicked, c) else if ch.buffered then (err blocked, c) else (
      ok tt,
      record c { channels = insert k (record { buffered = true; closed = true }) c.channels },
    )

abbrev pub stop_on : Workers → Option ℕ → Result (Unit {0}) × Workers
stop_on c none = (err blocked, c)
stop_on c (some k) = send_and_close c k (lookup k c.channels)

unfoldable pub stop_region_gc : Workers → Result (Unit {0}) × Workers
stop_region_gc c = if is_init c.gcstate then (ok tt, c) else stop_on c c.gcdone

abbrev pub moved : ℕ → Phase → Workers → Workers
moved w p c = record c { phases = insert w p c.phases }

abbrev pub received : ℕ → Channel → Workers → Workers
received k ch c = record c {
  channels = insert k (record { buffered = false; closed = ch.closed }) c.channels;
}

-- One step of goroutine `w`. The sleep in its wait for the end of a collection is no step.
pub data Work (env : Env) (named : File → Option File) (w : ℕ) : Workers → Workers → Type 0 where
  select :
      (c : Workers) (k : ℕ)
      → lookup w c.phases ≡ some looping
      → c.gcdone ≡ some k
      → Work env named w c (moved w (selecting k) c)
  tick :
      (c : Workers) (k : ℕ)
      → lookup w c.phases ≡ some (selecting k)
      → Work env named w c (moved w ticked c)
  skip :
      (c : Workers)
      → lookup w c.phases ≡ some ticked
      → c.gcstate ≡ gc_active
      → Work env named w c (moved w looping c)
  call :
      (c : Workers)
      → lookup w c.phases ≡ some ticked
      → c.gcstate ≢ gc_active
      → Work env named w c (moved w collecting c)
  begin :
      (c : Workers)
      → lookup w c.phases ≡ some collecting
      → Work env named w c (record (moved w active c) { gcstate = gc_active })
  end :
      (c : Workers) (now fuel : ℕ) (r : Result (Unit {0})) (h : Held)
      → lookup w c.phases ≡ some active
      → cleanup_dirty_region env now named fuel (record { fs = c.store; mu = false }) ≡ (r, h)
      → returns r ≡ true
      → Work env named w c (record (moved w returned c) { store = h.fs })
  finish :
      (c : Workers)
      → lookup w c.phases ≡ some returned
      → Work env named w c (record (moved w looping c) { gcstate = gc_inactive })
  receive :
      (c : Workers) (k : ℕ) (ch : Channel)
      → lookup w c.phases ≡ some (selecting k)
      → lookup k c.channels ≡ some ch
      → (ch.buffered || ch.closed) ≡ true
      → Work env named w c (moved w leaving (received k ch c))
  leave :
      (c : Workers)
      → lookup w c.phases ≡ some leaving
      → c.gcstate ≢ gc_active
      → Work env named w c (record (moved w left c) { gcstate = gc_init })

-- The state that OpenFS leaves.
abbrev pub new_workers : LogStructuredFs → Workers
new_workers s = record {
  gcstate = gc_init;
  gcdone = none;
  channels = [];
  phases = [];
  started = 0;
  store = s;
}

-- The states that calls from clients and steps of goroutines lead to, in any order. The other calls
-- may leave any store.
pub data Reach (env : Env) (named : File → Option File) : Workers → Type 0 where
  opened : (s : LogStructuredFs) → Reach env named (new_workers s)
  start : {c : Workers} → Reach env named c → Reach env named (start_region_gc c)
  stop : {c : Workers} → Reach env named c → Reach env named (stop_region_gc c).1
  serve :
      (s : LogStructuredFs) {c : Workers}
      → Reach env named c
      → Reach env named (record c { store = s })
  works : (w : ℕ) {c d : Workers} → Reach env named c → Work env named w c d → Reach env named d

-- Any number of steps of goroutines.
pub data Works (env : Env) (named : File → Option File) : Workers → Workers → Type 0 where
  here : {c : Workers} → Works env named c c
  after :
      {w : ℕ} {c d e : Workers} → Work env named w c d → Works env named d e → Works env named c e
