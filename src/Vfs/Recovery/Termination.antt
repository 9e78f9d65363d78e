-- ===== src/Vfs/Recovery/Termination.antt =====
-- The scan of a region file of any content ends: each record that is read moves it forward.
use wiredkv.Prelude.{
  ℕ, zero, suc, ◌+◌, ◌%◌, ◌^◌, ◌<◌, ◌≤◌, ◌≡◌, ◌≢◌, refl, ap, arith, List, [], ◌∷◌, Option, none,
  some, Result, ok, err, Error, stuck, true, leb, le→leb, length, take, drop, length-drop,
  Bool-cases, inl, inr, ◌>>=◌, >>=-eq-ok,
}
use wiredkv.Prelude.Bytes.{Bytes}
use wiredkv.Vfs.Hash.{Hashes}
use wiredkv.Vfs.Transformer.{decode}
use wiredkv.Vfs.Segment.{Segment, size}
use wiredkv.Vfs.Codec.{read_at, parse_header, read_body, read_segment, segment_padding}
use wiredkv.Vfs.Fs.{Env, IndexMap, select_shard}
use wiredkv.Vfs.Recovery.{replay_in, replay_segment, scan_region}

-- A chain does not fail with an error that none of its parts fails with.
>>=-ne {ℓ κ} :
    {A : Type ℓ} {B : Type κ} (cause : Error) (r : Result A) (next : A → Result B)
    → r ≢ err cause
    → ((value : A) → r ≡ ok value → next value ≢ err cause)
    → (r >>= next) ≢ err cause
>>=-ne cause (ok value) next here there = there value refl
>>=-ne cause (err e) next here there = λ p. here (ground (arith, p))

length-take_le : (n : ℕ) (xs : Bytes) → length (take n xs) ≤ length xs
length-take_le zero xs = omega arith
length-take_le (suc n) [] = omega arith
length-take_le (suc n) (x ∷ xs) = omega (arith, length-take_le n xs)

-- A read of some bytes stays within the file.
read_at_within :
    (file : Bytes) (offset n : ℕ) (b : Bytes)
    → 0 < n
    → read_at file offset n ≡ ok b
    → offset + n ≤ length file
unfolding read_at
read_at_within file offset n b positive h =
    let same : length (take n (drop offset file)) ≡ n = ground (arith, h) in
    omega (arith, length-take_le n (drop offset file), length-drop offset file, same)

read_at-ne : (file : Bytes) (offset n : ℕ) → read_at file offset n ≢ err stuck
unfolding read_at
read_at-ne file offset n h = ground (arith, h)

read_body_within :
    (h : Hashes) (file : Bytes) (offset : ℕ) (buf : Bytes) (s : Segment) (kv : Bytes × Bytes)
    → read_body h file offset buf s ≡ ok kv
    → offset + 26 + s.key_size + s.value_size + 4 ≤ length file
unfolding read_body
read_body_within h file offset buf s kv e =
    let (k, _, e0) = >>=-eq-ok (read_at file (offset + 26) s.key_size) _ e in
    let (v, _, e1) = >>=-eq-ok (read_at file (offset + 26 + s.key_size) s.value_size) _ e0 in
    let (c, read, e2) = >>=-eq-ok (read_at file (offset + 26 + s.key_size + s.value_size) 4) _ e1 in
    read_at_within file (offset + 26 + s.key_size + s.value_size) 4 c (omega arith) read

read_body-ne :
    (h : Hashes) (file : Bytes) (offset : ℕ) (buf : Bytes) (s : Segment)
    → read_body h file offset buf s ≢ err stuck
unfolding read_body
read_body-ne h file offset buf s =
    >>=-ne stuck (read_at file (offset + 26) s.key_size) _ (read_at-ne file _ _) λ k _.
      >>=-ne stuck (read_at file (offset + 26 + s.key_size) s.value_size) _ (read_at-ne file _ _)
        λ v _.
          >>=-ne stuck (read_at file (offset + 26 + s.key_size + s.value_size) 4) _
            (read_at-ne file _ _) λ c _ p. ground (arith, p)

module _ (env : Env) (sane : (b : Bytes) → decode env.transformer b ≢ err stuck)
    (file : Bytes) where
  read_segment-ne :
      (offset : ℕ) → read_segment env.hashes env.transformer file offset segment_padding ≢ err stuck
  unfolding read_segment
  read_segment-ne offset =
      >>=-ne stuck (read_at file offset segment_padding) _ (read_at-ne file _ _) λ buf _.
        >>=-ne stuck (read_body env.hashes file offset buf (parse_header buf)) _
          (read_body-ne env.hashes file offset buf (parse_header buf))
          λ kv _.
            >>=-ne stuck (decode env.transformer kv.1) _ (sane kv.1) λ d _ p. ground (arith, p)

  -- What is read ends within the file, so in a small file its size is exact.
  read_segment_advances :
      (offset : ℕ) (found : ℕ × Segment)
      → length file < 2 ^ 32
      → read_segment env.hashes env.transformer file offset segment_padding ≡ ok found
      → (30 ≤ size found.1) × (offset + size found.1 ≤ length file)
  unfolding read_segment size
  read_segment_advances offset found small e =
      let (buf, _, e0) = >>=-eq-ok (read_at file offset segment_padding) _ e in
      let s = parse_header buf in
      let (kv, body, e1) = >>=-eq-ok (read_body env.hashes file offset buf s) _ e0 in
      let (d, _, e2) = >>=-eq-ok (decode env.transformer kv.1) _ e1 in
      let within = read_body_within env.hashes file offset buf s kv body in
      let k : s.key_size ≡ found.1.key_size =
        ap (λ (r : Result (ℕ × Segment)). elim r [ ok x ↦ x.1.key_size | err c ↦ 0 ]) e2 in
      let v : s.value_size ≡ found.1.value_size =
        ap (λ (r : Result (ℕ × Segment)). elim r [ ok x ↦ x.1.value_size | err c ↦ 0 ]) e2 in
      omega (arith, within, k, v, small)

  replay_segment-ne :
      (now region_id offset : ℕ) (found : ℕ × Segment) (indexs : List (Option IndexMap))
      → replay_segment now region_id offset found indexs ≢ err stuck
  unfolding replay_segment
  replay_segment-ne now region_id offset (inum, seg) indexs = by_shard (select_shard indexs inum)
    where
      by_shard :
          (m : Option IndexMap) → replay_in m now region_id offset (inum, seg) indexs ≢ err stuck
      by_shard none p = ground (arith, p)
      by_shard (some m) p = ground (arith, p)

  -- In a file below 2 ^ 32 bytes, of any content, a scan with one round more than there are bytes
  -- behind its offset never runs out of rounds, if the transformer does not claim to.
  pub scan_region-ends :
      (rounds now region_id offset : ℕ) (indexs : List (Option IndexMap))
      → length file < 2 ^ 32
      → length file ≤ offset + rounds
      → scan_region env now region_id file (suc rounds) offset indexs ≢ err stuck
  unfolding scan_region
  scan_region-ends zero now region_id offset indexs small enough =
      let stop : leb (length file) offset ≡ true = le→leb _ _ (omega arith) in
      rw stop (λ p. ground (arith, p))
  scan_region-ends (suc rounds) now region_id offset indexs small enough =
      elim (Bool-cases (leb (length file) offset)) [
        | inl stop ↦ rw stop (λ p. ground (arith, p))
        | inr more ↦ rw more (
            >>=-ne stuck (read_segment env.hashes env.transformer file offset segment_padding) _
              (read_segment-ne offset)
              λ found e.
                >>=-ne stuck (replay_segment now region_id offset found indexs) _
                  (replay_segment-ne now region_id offset found indexs)
                  λ indexs' _.
                    let (big, within) = read_segment_advances offset found small e in
                    scan_region-ends rounds now region_id ((offset + size found.1) % 2 ^ 64) indexs'
                      small (omega (arith, big, within, small, enough)))
      ]
