-- ===== src/Vfs/Collector/Worker/Exit.antt =====
-- That a goroutine of StartRegionGC in vfs/lfs.go can end once its channel is closed.
use wiredkv.Prelude.{
  ℕ, true, Option, none, some, ◌≡◌, ◌≢◌, ◌∙◌, sym, ap, refl, ok, ==→≡, arith, nat_eq, ◌==◌,
  Bool-cases, inl, inr, ◌⊎◌, leb, length, ◌<◌, false,
}
use wiredkv.Prelude.Map.{Map, lookup, insert, lookup-insert, lookup-insert_self}
use wiredkv.Vfs.Disk.{File}
use wiredkv.Vfs.Collector.{◌>>=◌, ◌>>◌, lock, cleanup_dirty_region}
use wiredkv.Vfs.Fs.{Env, LogStructuredFs, GcState, gc_init, gc_active, gc_inactive}
use wiredkv.Vfs.Collector.Worker.{
  Channel, Phase, looping, selecting, ticked, collecting, active, returned, leaving, left, Workers,
  is_init, stop_region_gc, moved, send_and_close, stop_on, Work, select, tick, skip, call, begin,
  end, finish, receive, leave, Reach, stop, Works, here, after,
}
use wiredkv.Vfs.Collector.Worker.Owned.{
  is_owning, IsOwned, stop-phases, Work-IsOwned, Reach-IsOwned,
}

-- The channel of the store is closed.
pub Stopped : Workers → Type 0
Stopped c =
    (k : ℕ) × (ch : Channel) × (c.gcdone ≡ some k)
    × (lookup k c.channels ≡ some ch)
    × (ch.closed ≡ true)

pub Ends : Env → (File → Option File) → ℕ → Workers → Type 0
Ends env named w c = (d : Workers) × Works env named c d × (lookup w d.phases ≡ some left)

Ends-after :
    {env : Env} {named : File → Option File} (w : ℕ) {v : ℕ} {c d : Workers}
    → Work env named v c d
    → Ends env named w d
    → Ends env named w c
unfolding Ends
Ends-after w s (e, ws, p) = (e, after s ws, p)

-- A collection of a store with fewer than five regions returns at once.
few_run :
    (env : Env) (now fuel : ℕ) (named : File → Option File) (s : LogStructuredFs)
    → leb 5 (length s.regions) ≡ false
    → cleanup_dirty_region env now named fuel (record { fs = s; mu = false })
      ≡ (ok tt, record { fs = record s { gcstate = gc_active }; mu = false })
unfolding cleanup_dirty_region lock ◌>>=◌ ◌>>◌
few_run env now fuel named s few = rw few refl

Few : Workers → Type 0
Few c = leb 5 (length c.store.regions) ≡ false

active-cases : (g : GcState) → (g ≡ gc_active) ⊎ (g ≢ gc_active)
active-cases gc_init = inr (λ e. ground (arith, e))
active-cases gc_active = inl refl
active-cases gc_inactive = inr (λ e. ground (arith, e))

apart :
    (v w : ℕ) (p q : Phase) (m : Map ℕ Phase)
    → lookup v m ≡ some p
    → lookup w m ≡ some q
    → is_owning p ≡ true
    → is_owning q ≡ false
    → (v == w) ≡ false
apart v w p q m own spot owning free = elim (Bool-cases (v == w)) [
  | inl same ↦
      let e : v ≡ w = ==→≡ v w same in
      let f : some p ≡ some q = sym own ∙ ap (λ x. lookup x m) e ∙ spot in
      let g : p ≡ q = cc in
      let z : true ≡ false = sym owning ∙ ap is_owning g ∙ free in absurd (ground (arith, z))
  | inr other ↦ other
]

module _ (env : Env) (named : File → Option File) (w : ℕ) where
  left_when_inactive-Ends :
      (c : Workers) → lookup w c.phases ≡ some leaving → c.gcstate ≢ gc_active → Ends env named w c
  unfolding Ends
  left_when_inactive-Ends c p idle =
      (_, after (leave c p idle) here, lookup-insert_self w left c.phases)

  other_returned-Ends :
      (v : ℕ) (c : Workers)
      → lookup v c.phases ≡ some returned
      → lookup w c.phases ≡ some leaving
      → Ends env named w c
  other_returned-Ends v c q p =
      let ne = apart v w returned leaving c.phases q p refl refl in
      let d : Workers = record (moved v looping c) { gcstate = gc_inactive } in
      Ends-after w (finish c q)
        (left_when_inactive-Ends d (rw (lookup-insert, ne) p) (λ e. ground (arith, e)))

  other_owning-Ends :
      (v : ℕ) (q : Phase) (c : Workers)
      → Few c
      → lookup v c.phases ≡ some q
      → is_owning q ≡ true
      → lookup w c.phases ≡ some leaving
      → Ends env named w c
  unfolding Few
  other_owning-Ends v looping c few q owning p = absurd (ground (arith, owning))
  other_owning-Ends v (selecting k) c few q owning p = absurd (ground (arith, owning))
  other_owning-Ends v ticked c few q owning p = absurd (ground (arith, owning))
  other_owning-Ends v collecting c few q owning p = absurd (ground (arith, owning))
  other_owning-Ends v leaving c few q owning p = absurd (ground (arith, owning))
  other_owning-Ends v left c few q owning p = absurd (ground (arith, owning))
  other_owning-Ends v active c few q owning p =
      let ne = apart v w active leaving c.phases q p refl refl in
      let run = few_run env 0 0 named c.store few in
      Ends-after w (end c 0 0 _ _ q run refl) (
        other_returned-Ends v
          (record (moved v returned c) { store = record c.store { gcstate = gc_active } })
          (lookup-insert_self v returned c.phases) (rw (lookup-insert, ne) p))
  other_owning-Ends v returned c few q owning p = other_returned-Ends v c q p

  leaving-Ends :
      (c : Workers) → IsOwned c → Few c → lookup w c.phases ≡ some leaving → Ends env named w c
  leaving-Ends c own few p = elim (active-cases c.gcstate) [
    | inl e ↦ let (v, q, spot, owning) = own e in other_owning-Ends v q c few spot owning p
    | inr idle ↦ left_when_inactive-Ends c p idle
  ]

  looping-Ends :
      (c : Workers)
      → IsOwned c
      → Few c
      → Stopped c
      → lookup w c.phases ≡ some looping
      → Ends env named w c
  unfolding Stopped Few
  looping-Ends c own few (k, ch, done, made, shut) p =
      let s : Work env named w _ _ = select c k p done in
      let q = lookup-insert_self w (selecting k) c.phases in
      let t : Work env named w _ _ =
        receive (moved w (selecting k) c) k ch q made (rw shut (ground arith)) in
      Ends-after w s (
        Ends-after w t (
          leaving-Ends _ (Work-IsOwned t (Work-IsOwned s own)) few
            (lookup-insert_self w leaving (insert w (selecting k) c.phases))))

  returned-Ends :
      (c : Workers)
      → IsOwned c
      → Few c
      → Stopped c
      → lookup w c.phases ≡ some returned
      → Ends env named w c
  unfolding Stopped Few
  returned-Ends c own few shut p =
      let s : Work env named w _ _ = finish c p in
      Ends-after w s
        (looping-Ends _ (Work-IsOwned s own) few shut (lookup-insert_self w looping c.phases))

  active-Ends :
      (c : Workers)
      → IsOwned c
      → Few c
      → Stopped c
      → lookup w c.phases ≡ some active
      → Ends env named w c
  unfolding Stopped Few
  active-Ends c own few shut p =
      let s : Work env named w _ _ = end c 0 0 _ _ p (few_run env 0 0 named c.store few) refl in
      Ends-after w s
        (returned-Ends _ (Work-IsOwned s own) few shut (lookup-insert_self w returned c.phases))

  collecting-Ends :
      (c : Workers)
      → IsOwned c
      → Few c
      → Stopped c
      → lookup w c.phases ≡ some collecting
      → Ends env named w c
  unfolding Stopped Few
  collecting-Ends c own few shut p =
      let s : Work env named w _ _ = begin c p in
      Ends-after w s
        (active-Ends _ (Work-IsOwned s own) few shut (lookup-insert_self w active c.phases))

  ticked-Ends :
      (c : Workers)
      → IsOwned c
      → Few c
      → Stopped c
      → lookup w c.phases ≡ some ticked
      → Ends env named w c
  unfolding Stopped Few
  ticked-Ends c own few shut p = elim (active-cases c.gcstate) [
    | inl e ↦
        let s : Work env named w _ _ = skip c p e in
        Ends-after w s
          (looping-Ends _ (Work-IsOwned s own) few shut (lookup-insert_self w looping c.phases))
    | inr idle ↦
        let s : Work env named w _ _ = call c p idle in
        Ends-after w s (
          collecting-Ends _ (Work-IsOwned s own) few shut
            (lookup-insert_self w collecting c.phases))
  ]

  any_phase-Ends :
      (p : Phase) (c : Workers)
      → IsOwned c
      → Few c
      → Stopped c
      → lookup w c.phases ≡ some p
      → Ends env named w c
  unfolding Stopped Ends Few
  any_phase-Ends looping c own few shut p = looping-Ends c own few shut p
  any_phase-Ends (selecting k) c own few shut p =
      let s : Work env named w _ _ = tick c k p in
      Ends-after w s
        (ticked-Ends _ (Work-IsOwned s own) few shut (lookup-insert_self w ticked c.phases))
  any_phase-Ends ticked c own few shut p = ticked-Ends c own few shut p
  any_phase-Ends collecting c own few shut p = collecting-Ends c own few shut p
  any_phase-Ends active c own few shut p = active-Ends c own few shut p
  any_phase-Ends returned c own few shut p = returned-Ends c own few shut p
  any_phase-Ends leaving c own few shut p = leaving-Ends c own few p
  any_phase-Ends left c own few shut p = (c, here, p)

init-is : (g : GcState) → is_init g ≡ true → g ≡ gc_init
init-is gc_init e = refl
init-is gc_active e = absurd (ground (arith, e))
init-is gc_inactive e = absurd (ground (arith, e))

send_and_close-Stopped :
    (c : Workers) (k : ℕ) (o : Option Channel)
    → c.gcdone ≡ some k
    → (send_and_close c k o).0 ≡ ok tt
    → Stopped (send_and_close c k o).1
unfolding Stopped
send_and_close-Stopped c k none g done = absurd (ground (arith, done))
send_and_close-Stopped c k (some ch) g done = elim (Bool-cases ch.closed) [
  | inl shut ↦ absurd (ground (arith, done, shut))
  | inr apart ↦ elim (Bool-cases ch.buffered) [
    | inl full ↦ absurd (ground (arith, done, apart, full))
    | inr room ↦ rw (apart, room) (k, _, g, lookup-insert_self k _ c.channels, refl)
  ]
]

stop_on-Stopped :
    (c : Workers) (g : Option ℕ) → c.gcdone ≡ g → (stop_on c g).0 ≡ ok tt → Stopped (stop_on c g).1
stop_on-Stopped c none g done = absurd (ground (arith, done))
stop_on-Stopped c (some k) g done = send_and_close-Stopped c k (lookup k c.channels) g done

stop-Stopped :
    (c : Workers)
    → (stop_region_gc c).0 ≡ ok tt
    → c.gcstate ≢ gc_init
    → Stopped (stop_region_gc c).1
unfolding stop_region_gc Stopped
stop-Stopped c done ran = elim (Bool-cases (is_init c.gcstate)) [
  | inl init ↦ absurd (ran (init-is c.gcstate init))
  | inr other ↦ rw other (stop_on-Stopped c c.gcdone refl (rw other at done))
]

stop-store : (c : Workers) → (stop_region_gc c).1.store ≡ c.store
unfolding stop_region_gc
stop-store c = ground arith

-- In every state that calls and goroutines lead to where the store has fewer than five regions, so that
-- a collection has nothing to do: after a StopRegionGC that succeeds and finds the state active or
-- inactive, each goroutine that StartRegionGC has made, wherever it is, has a sequence of steps of
-- goroutines that brings it to its end.
pub stop_region_gc-Ends :
    (env : Env) (named : File → Option File) (w : ℕ) (p : Phase) (c : Workers)
    → Reach env named c
    → length c.store.regions < 5
    → lookup w c.phases ≡ some p
    → (stop_region_gc c).0 ≡ ok tt
    → c.gcstate ≢ gc_init
    → Ends env named w (stop_region_gc c).1
unfolding Few
stop_region_gc-Ends env named w p c r few spot done ran =
    let d = (stop_region_gc c).1 in
    let less : leb 5 (length c.store.regions) ≡ false = ground (arith, few) in
    any_phase-Ends env named w p d (Reach-IsOwned (stop r)) (rw (stop-store c) less)
      (stop-Stopped c done ran) (rw (stop-phases c).0 spot)
