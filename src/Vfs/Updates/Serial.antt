-- ===== src/Vfs/Updates/Serial.antt =====
-- Updates that run one after another, by their steps, against the map of records.
use mathlib.Core.Path.{subst}
use wiredkv.Prelude.{
  ℕ, ◌≡◌, ◌≢◌, refl, sym, ◌∙◌, arith, false, List, [], ◌∷◌, Result, nat_eq, nat_beq_iff, ◌==◌, All,
}
use wiredkv.Vfs.Hash.{IsHashes}
use wiredkv.Vfs.Fs.{Env}
use wiredkv.Vfs.Lfs.WellFormed.{WellFormed}
use wiredkv.Vfs.Lfs.Refinement.{Records, Command, update, exec, spec, Represents, changed}
use wiredkv.Vfs.Lfs.Refinement.Step.{exec-Refines}
use wiredkv.Vfs.Lfs.Refinement.Sequence.{AllAllowed}
use wiredkv.Vfs.Open.Session.{records_after}
use wiredkv.Vfs.Updates.{Update, Phase, called, returned, Updates, Steps, here}
use wiredkv.Vfs.Updates.Arrives.{Steps-trans}
use wiredkv.Vfs.Updates.Alone.{Steps-alone}

differs : (u v : ℕ) → u ≢ v → (u == v) ≡ false
differs u v ne = ground (arith, nat_beq_iff u v, ne)

-- No number twice.
abbrev pub AreApart : List ℕ → Type 0
AreApart [] = Unit {0}
AreApart (u ∷ us) = All (λ v. u ≢ v) us × AreApart us

All-step : {P Q : ℕ → Type 0} (us : List ℕ) → ((u : ℕ) → P u → Q u) → All P us → All Q us
All-step [] f all = tt
All-step (u ∷ us) f (p, all) = (f u p, All-step us f all)

All-both :
    {P Q R : ℕ → Type 0} (us : List ℕ)
    → ((u : ℕ) → P u → Q u → R u)
    → All P us
    → All Q us
    → All R us
All-both [] f ps qs = tt
All-both (u ∷ us) f (p, ps) (q, qs) = (f u p q, All-both us f ps qs)

module _ (calls : ℕ → Update) where
  -- The call as a command.
  abbrev pub command : ℕ → Command
  command u = update (calls u).key (calls u).expected (calls u).newseg

  abbrev pub commands : List ℕ → List Command
  commands [] = []
  commands (u ∷ us) = command u ∷ commands us

  -- The calls have returned what the map replies, one after another.
  abbrev pub Answered : Env → (ℕ → Phase) → List ℕ → Records → Type 0
  Answered env phases [] m = Unit {0}
  Answered env phases (u ∷ us) m =
      ((r : Result (Unit {0})) × (phases u ≡ returned r) × ((spec env (command u) m).0 ≡ changed r))
      × Answered env phases us (spec env (command u) m).1

module _ (env : Env) (hv : IsHashes env.hashes) (calls : ℕ → Update) where
  -- From a store that satisfies the invariant and stands for a map, let calls that are at their start be
  -- taken one after another, with room for what each writes. Then there are steps after which each has
  -- returned what the same update replies on the map, and the store satisfies the invariant and
  -- stands for the map that these updates make; and every other call is where it was.
  pub Steps-Represents :
      (us : List ℕ) (c : Updates) (m : Records)
      → AreApart us
      → All (λ u. c.phases u ≡ called) us
      → WellFormed env c.store
      → Represents env c.store m
      → AllAllowed env c.store (commands calls us)
      → (d : Updates) × Steps env calls c d
        × WellFormed env d.store
        × Represents env d.store (records_after env (commands calls us) m)
        × Answered calls env d.phases us m
        × ((v : ℕ) → All (λ u. u ≢ v) us → d.phases v ≡ c.phases v)
  unfolding records_after exec
  Steps-Represents [] c m apart ready w rep all = (c, here, w, rep, tt, λ v others. refl)
  Steps-Represents (u ∷ us) c m (apart_u, apart) (ready_u, ready) w rep (allowed, all) =
      let (e, steps, store, at, others) = Steps-alone env calls u c w.shards ready_u in
      let (reply, w', rep') = exec-Refines env hv c.store w m rep (command calls u) allowed in
      let still_ready : All (λ v. e.phases v ≡ called) us =
        All-both us (λ v ne r. others v (differs u v ne) ∙ r) apart_u ready in
      let (d, more, w'', rep'', answered, kept) =
        Steps-Represents us e (spec env (command calls u) m).1 apart still_ready
          (subst (WellFormed env) (sym store) w')
          (subst (λ s. Represents env s (spec env (command calls u) m).1) (sym store) rep')
          (subst (λ s. AllAllowed env s (commands calls us)) (sym store) all) in
      (
        d,
        Steps-trans steps more,
        w'',
        rep'',
        ((_, kept u (All-step us (λ v ne same. ne (sym same)) apart_u) ∙ at, sym reply), answered),
        λ v away. kept v away.1 ∙ others v (differs u v away.0),
      )
