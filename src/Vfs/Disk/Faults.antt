-- ===== src/Vfs/Disk/Faults.antt =====
-- What calls of package os leave of the files when they may fail.
use mathlib.Core.List.{append-nil, append_assoc}
use wiredkv.Prelude.{
  ◌≡◌, refl, sym, ap, ◌∙◌, arith, ◌++◌, List, [], Option, none, some, ok, err, io_failed, length,
  take, list_eq, ◌==◌, list_beq_iff, Bool-cases, inl, inr, ◌⊎◌, ==→≡,
}
use wiredkv.Prelude.Bytes.{Bytes}
use wiredkv.Prelude.Map.{lookup, lookup-insert}
use wiredkv.Vfs.Disk.{
  File, Disk, Outcome, done, failed, short, contents, append_file, write, write_outcome, open_file,
  open_outcome, create_file, head_outcome, tail_outcomes,
}
use wiredkv.Vfs.Disk.Laws.{lookup-append_file}

-- Each file is there, with bytes added at its end at most.
pub record Grows (d d' : Disk) : Type 0 where
  pub files :
      (f : File) (c : Bytes)
      → lookup f d.files ≡ some c
      → (more : Bytes) × (lookup f d'.files ≡ some (c ++ more))

Grows-refl : (d : Disk) (os : List Outcome) → Grows d (record d { outcomes = os })
Grows-refl d os = record { files = λ f c p. ([], p ∙ ap some (sym (append-nil c))) }

pub Grows-trans : {d d' d'' : Disk} → Grows d d' → Grows d' d'' → Grows d d''
Grows-trans g h = record {
  files = λ f c p.
      let (more, q) = g.files f c p in
      let (again, r) = h.files f (c ++ more) q in
      (more ++ again, r ∙ ap some (append_assoc c more again));
}

append_file-Grows : (f : File) (b : Bytes) (d : Disk) → Grows d (append_file f b d)
unfolding contents
append_file-Grows f b d = record {
  files = λ g c p. elim (Bool-cases (f == g)) [
    | inl same ↦
        let e : f ≡ g = ==→≡ f g same in
        let there : lookup f d.files ≡ some c = ap (λ h. lookup h d.files) e ∙ p in
        (b, lookup-append_file f g b d ∙ rw (same, there) refl)
    | inr other ↦ ([], lookup-append_file f g b d ∙ rw (other, append-nil) p)
  ];
}

create_file-Grows :
    (f : File) (d : Disk) (o : Option Bytes) → lookup f d.files ≡ o → Grows d (create_file o f d)
create_file-Grows f d (some b) there = Grows-refl d d.outcomes
create_file-Grows f d none absent = record {
  files = λ g c p. (
    [],
    lookup-insert f g [] d.files ∙ ground (arith, append-nil c, list_beq_iff f g, absent, p),
  );
}

write_outcome-Grows :
    (o : Outcome) (f : File) (b : Bytes) (d : Disk) → Grows d (write_outcome o f b d).1
write_outcome-Grows done f b d = append_file-Grows f b d
write_outcome-Grows failed f b d = Grows-refl d d.outcomes
write_outcome-Grows (short n) f b d = append_file-Grows f (take n b) d

-- A write adds to one file at most, also when it fails or is cut short.
pub write-Grows : (f : File) (b : Bytes) (d : Disk) → Grows d (write f b d).1
unfolding write
write-Grows f b d = Grows-trans (Grows-refl d (tail_outcomes d.outcomes)) (
    write_outcome-Grows (head_outcome d.outcomes) f b
      (record d { outcomes = tail_outcomes d.outcomes }))

open_outcome-Grows : (o : Outcome) (f : File) (d : Disk) → Grows d (open_outcome o f d).1
open_outcome-Grows done f d = create_file-Grows f d (lookup f d.files) refl
open_outcome-Grows failed f d = Grows-refl d d.outcomes
open_outcome-Grows (short n) f d = Grows-refl d d.outcomes

pub open_file-Grows : (f : File) (d : Disk) → Grows d (open_file f d).1
unfolding open_file
open_file-Grows f d = Grows-trans (Grows-refl d (tail_outcomes d.outcomes)) (
    open_outcome-Grows (head_outcome d.outcomes) f
      (record d { outcomes = tail_outcomes d.outcomes }))

-- A write succeeds as a whole, or reports an error.
pub write-cases :
    (f : File) (b : Bytes) (d : Disk)
    → (write f b d
        ≡ (ok (length b), append_file f b (record d { outcomes = tail_outcomes d.outcomes })))
      ⊎ ((write f b d).0 ≡ err io_failed)
unfolding write
write-cases f b d = by_outcome (head_outcome d.outcomes)
  where
    by_outcome :
        (o : Outcome)
        → (write_outcome o f b (record d { outcomes = tail_outcomes d.outcomes })
            ≡ (ok (length b), append_file f b (record d { outcomes = tail_outcomes d.outcomes })))
          ⊎ ((write_outcome o f b (record d { outcomes = tail_outcomes d.outcomes })).0
              ≡ err io_failed)
    by_outcome done = inl refl
    by_outcome failed = inr refl
    by_outcome (short n) = inr refl
