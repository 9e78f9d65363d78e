-- ===== src/Vfs/Updates/Arrives.antt =====
-- Steps of one call among the updates that run.
use wiredkv.Prelude.{ℕ, ◌≡◌, refl, ap, ◌∙◌, false, nat_eq, ◌==◌, ==-self, list_eq}
use wiredkv.Vfs.Hash.{inode_num}
use wiredkv.Vfs.Segment.{Segment}
use wiredkv.Vfs.Codec.{INode}
use wiredkv.Vfs.Fs.{Env, LogStructuredFs}
use wiredkv.Vfs.Updates.{
  Update, Field, at_position, at_created_at, at_expired_at, at_region_id, at_length, Phase, Updates,
  moved, set_field, Step, Steps, here, after,
}

pub Steps-trans :
    {env : Env} {calls : ℕ → Update} {c d e : Updates}
    → Steps env calls c d
    → Steps env calls d e
    → Steps env calls c e
Steps-trans here more = more
Steps-trans (after u step steps) more = after u step (Steps-trans steps more)

pub set_field-same :
    (f : Field) (seg : Segment) (s t : LogStructuredFs) (n : INode)
    → t.offset ≡ s.offset
    → t.region_id ≡ s.region_id
    → set_field f seg t n ≡ set_field f seg s n
set_field-same at_position seg s t n o r = ap (λ x. record n { position = x }) o
set_field-same at_created_at seg s t n o r = refl
set_field-same at_expired_at seg s t n o r = refl
set_field-same at_region_id seg s t n o r = ap (λ x. record n { region_id = x }) r
set_field-same at_length seg s t n o r = refl

module _ (env : Env) (calls : ℕ → Update) where
  abbrev pub inum_of : ℕ → ℕ
  inum_of u = inode_num env.hashes (calls u).key

  -- Steps of call `u` lead from `c` to a state where `u` is at `p` and the store satisfies `P`.
  pub record Arrives (u : ℕ) (p : Phase) (P : LogStructuredFs → Type 0) (c : Updates) : Type 0 where
    pub end : Updates
    pub steps : Steps env calls c end
    pub at : end.phases u ≡ p
    pub others : (v : ℕ) → (u == v) ≡ false → end.phases v ≡ c.phases v
    pub holds : P end.store

  pub arrive :
      (u : ℕ) (p : Phase) (P : LogStructuredFs → Type 0) (c : Updates) (t : LogStructuredFs)
      → Step env calls u c (moved u p t c)
      → P t
      → Arrives u p P c
  arrive u p P c t step holds = record {
    end = moved u p t c;
    steps = after u step here;
    at = rw ==-self refl;
    others = λ v other. rw other refl;
    holds = holds;
  }

  pub next :
      {u : ℕ} {p q : Phase} {P Q : LogStructuredFs → Type 0} {c : Updates}
      → Arrives u p P c
      → ((d : Updates) → d.phases u ≡ p → P d.store → Arrives u q Q d)
      → Arrives u q Q c
  next a more =
      let b = more a.end a.at a.holds in
      record {
        end = b.end;
        steps = Steps-trans a.steps b.steps;
        at = b.at;
        others = λ v other. b.others v other ∙ a.others v other;
        holds = b.holds;
      }
