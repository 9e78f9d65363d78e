-- ===== src/Vfs/Lfs/Refinement/Switched.antt =====
-- What a store of vfs/lfs.go stands for does not depend on how the transformer is set.
use wiredkv.Prelude.{ℕ, Option, none, some}
use wiredkv.Vfs.Transformer.{Transformer}
use wiredkv.Vfs.Segment.{Segment}
use wiredkv.Vfs.Codec.{INode}
use wiredkv.Vfs.Fs.{Env, LogStructuredFs, find_inode}
use wiredkv.Vfs.Lfs.Stored.{StoredAs, Stored}
use wiredkv.Vfs.Lfs.WellFormed.{WellFormed}
use wiredkv.Vfs.Lfs.Refinement.{Records, Matches, Represents}

abbrev switched : Transformer → Env → Env
switched t env = record env { transformer = t }

module _ {env : Env} (t : Transformer) where
  StoredAs-switched :
      {s : LogStructuredFs} {n : INode} {seg : Segment}
      → StoredAs env s n seg
      → StoredAs (switched t env) s n seg
  StoredAs-switched st = record {
    file = st.file;
    pre = st.pre;
    post = st.post;
    region = st.region;
    bytes = st.bytes;
    position = st.position;
    valid = st.valid;
  }

  Stored-switched :
      {s : LogStructuredFs} {inum : ℕ} {n : INode}
      → Stored env s inum n
      → Stored (switched t env) s inum n
  Stored-switched st = record {
    seg = st.seg;
    stored = StoredAs-switched st.stored;
    region_fits = st.region_fits;
    position_fits = st.position_fits;
    owner = st.owner;
    length_is = st.length_is;
    expired_is = st.expired_is;
    created_is = st.created_is;
  }

  pub WellFormed-switched : {s : LogStructuredFs} → WellFormed env s → WellFormed (switched t env) s
  WellFormed-switched w = record {
    shards = w.shards;
    placed = w.placed;
    healthy = w.healthy;
    file = w.file;
    text = w.text;
    active = w.active;
    current = w.current;
    written = w.written;
    offset_is = w.offset_is;
    below = w.below;
    named = w.named;
    fresh = w.fresh;
    headed = w.headed;
    known = w.known;
    present = w.present;
    stored = λ inum n p. Stored-switched (w.stored inum n p);
  }

Matches-switched :
    (env : Env) (t : Transformer) (s : LogStructuredFs) (o : Option INode)
    (r : Option (ℕ × Segment))
    → Matches env s o r
    → Matches (switched t env) s o r
Matches-switched env t s none none h = tt
Matches-switched env t s none (some r) h = h
Matches-switched env t s (some n) none h = h
Matches-switched env t s (some n) (some (version, seg)) (mvcc, expired, st) =
    (mvcc, expired, StoredAs-switched t st)

module _ {env : Env} (t : Transformer) where
  pub Represents-switched :
      {s : LogStructuredFs} {m : Records} → Represents env s m → Represents (switched t env) s m
  Represents-switched {s} {m} rep = record {
    each = λ inum. Matches-switched env t s (find_inode s inum) (m inum) (rep.each inum);
  }
