-- ===== src/Vfs/Collector/Worker/Owned.antt =====
-- Who collects when gcstate in vfs/lfs.go says that a collection runs.
use wiredkv.Prelude.{
  ℕ, Bool, true, false, Option, some, ◌≡◌, ◌∙◌, sym, ap, refl, ==→≡, arith, nat_eq, ◌==◌,
  Bool-cases, inl, inr,
}
use wiredkv.Prelude.Map.{Map, lookup, insert, lookup-insert, lookup-insert_self}
use wiredkv.Vfs.Disk.{File}
use wiredkv.Vfs.Fs.{Env, gc_active}
use wiredkv.Vfs.Collector.Worker.{
  Phase, looping, selecting, ticked, collecting, active, returned, leaving, left, Workers, is_init,
  start_region_gc, stop_region_gc, Work, select, tick, skip, call, begin, end, finish, receive,
  leave, Reach, opened, start, stop, serve, works,
}

abbrev pub is_owning : Phase → Bool
is_owning looping = false
is_owning (selecting k) = false
is_owning ticked = false
is_owning collecting = false
is_owning active = true
is_owning returned = true
is_owning leaving = false
is_owning left = false

abbrev pub Owned : Map ℕ Phase → Type 0
Owned m = (w : ℕ) × (p : Phase) × (lookup w m ≡ some p) × (is_owning p ≡ true)

abbrev pub IsOwned : Workers → Type 0
IsOwned c = c.gcstate ≡ gc_active → Owned c.phases

-- Another goroutine's step leaves the owner where it is.
Owned-insert :
    (w : ℕ) (p q : Phase) (m : Map ℕ Phase)
    → lookup w m ≡ some p
    → is_owning p ≡ false
    → Owned m
    → Owned (insert w q m)
Owned-insert w p q m spot free (v, r, own, owning) = elim (Bool-cases (w == v)) [
  | inl same ↦
      let e : w ≡ v = ==→≡ w v same in
      let f : some p ≡ some r = sym spot ∙ ap (λ x. lookup x m) e ∙ own in
      let g : p ≡ r = cc in
      let z : false ≡ true = sym free ∙ ap is_owning g ∙ owning in absurd (ground (arith, z))
  | inr other ↦ (v, r, rw (lookup-insert, other) own, owning)
]

start-IsOwned : (c : Workers) → IsOwned c → IsOwned (start_region_gc c)
unfolding start_region_gc
start-IsOwned c own = elim (Bool-cases (is_init c.gcstate)) [
  | inl same ↦ rw same (λ e. absurd (ground (arith, same, e)))
  | inr other ↦ rw other own
]

pub stop-phases :
    (c : Workers)
    → ((stop_region_gc c).1.phases ≡ c.phases) × ((stop_region_gc c).1.gcstate ≡ c.gcstate)
unfolding stop_region_gc
stop-phases c = ground arith

pub Work-IsOwned :
    {env : Env} {named : File → Option File} {w : ℕ} {c d : Workers}
    → Work env named w c d
    → IsOwned c
    → IsOwned d
Work-IsOwned {w = w} (select c k p g) own =
    λ e. Owned-insert w looping (selecting k) c.phases p refl (own e)
Work-IsOwned {w = w} (tick c k p) own =
    λ e. Owned-insert w (selecting k) ticked c.phases p refl (own e)
Work-IsOwned {w = w} (skip c p g) own = λ e. Owned-insert w ticked looping c.phases p refl (own e)
Work-IsOwned {w = w} (call c p g) own =
    λ e. Owned-insert w ticked collecting c.phases p refl (own e)
Work-IsOwned {w = w} (begin c p) own = λ e. (w, active, lookup-insert_self w active c.phases, refl)
Work-IsOwned {w = w} (end c now fuel r h p ran done) own =
    λ e. (w, returned, lookup-insert_self w returned c.phases, refl)
Work-IsOwned {w = w} (finish c p) own = λ e. absurd (ground (arith, e))
Work-IsOwned {w = w} (receive c k ch p g more) own =
    λ e. Owned-insert w (selecting k) leaving c.phases p refl (own e)
Work-IsOwned {w = w} (leave c p g) own = λ e. absurd (ground (arith, e))

-- Whenever the state is active, some goroutine is in a collection, or has just returned from it.
pub Reach-IsOwned :
    {env : Env} {named : File → Option File} {c : Workers} → Reach env named c → IsOwned c
Reach-IsOwned (opened s) = λ e. absurd (ground (arith, e))
Reach-IsOwned (start {c = c} r) = start-IsOwned c (Reach-IsOwned r)
Reach-IsOwned (stop {c = c} r) =
    λ e. rw (stop-phases c).0 (Reach-IsOwned r (sym (stop-phases c).1 ∙ e))
Reach-IsOwned (serve s r) = Reach-IsOwned r
Reach-IsOwned (works w r s) = Work-IsOwned s (Reach-IsOwned r)
