-- ===== src/Vfs/Transformer/Cryptor.antt =====
-- The type Cryptor of vfs/transformer.go: AES in CBC mode with padding. crypto/aes,
-- crypto/cipher and crypto/rand are parameters.
use Prim.Native.Nat.add
use wiredkv.Prelude.{
  zero, ap, false, le→leb, not-lt→ltb, ℕ, suc, ◌+◌, ◌-◌, ◌%◌, ◌≡◌, refl, arith, Option, none, some,
  [], ◌∷◌, ◌++◌, Result, ok, err, panicked, ◌>>=◌, >>=-eq-ok, ltb, leb, nat_beq, length, take, drop,
  replicate, get_elem?, if◌then◌else◌, length-append, length-replicate, drop-append, take-append,
}
use wiredkv.Prelude.Bytes.{Bytes}
use wiredkv.Vfs.Transformer.{Encryptor}
use wiredkv.Vfs.Transformer.Laws.{IsInvertible}

-- A cipher block with the two CBC modes on it, each taking the initialisation vector first. The
-- block size of AES is 16 bytes.
pub record Block : Type 0 where
  pub encrypt_blocks : Bytes → Bytes → Bytes
  pub decrypt_blocks : Bytes → Bytes → Bytes

abbrev pub block_size : ℕ
block_size = 16

-- aes.NewCipher, which refuses a secret of a wrong length.
pub record Aes : Type 0 where
  pub new_cipher : Bytes → Result Block

pad : Bytes → Bytes
pad plaintext =
    let padding = block_size - length plaintext % block_size in
    plaintext ++ replicate padding padding

-- `iv` is what rand.Read filled in.
encrypt : Aes → Bytes → Bytes → Bytes → Result Bytes
unfolding pad
encrypt aes iv secret plaintext = do
  block ← aes.new_cipher secret
  ok (iv ++ block.encrypt_blocks iv (pad plaintext))

-- plaintext[:len(plaintext)-padding], which panics on a padding that is longer.
unpad : Bytes → Option ℕ → Result Bytes
unpad plaintext none = err panicked
unpad plaintext (some padding) =
    if leb padding (length plaintext)
    then ok (take (length plaintext - padding) plaintext)
    else err panicked

-- A ciphertext that is shorter than a block, or no whole number of blocks, panics.
decrypt : Aes → Bytes → Bytes → Result Bytes
unfolding unpad
decrypt aes secret ciphertext = do
  block ← aes.new_cipher secret
  let iv = take block_size ciphertext
  let body = drop block_size ciphertext
  let plaintext = block.decrypt_blocks iv body
  if ltb (length ciphertext) block_size
      then err panicked
      else if nat_beq (length body % block_size) 0
      then unpad plaintext (get_elem? plaintext (length plaintext - 1))
      else err panicked

unfoldable pub cryptor : Aes → Bytes → Encryptor
unfolding encrypt decrypt
cryptor aes iv = record { encrypt = encrypt aes iv; decrypt = decrypt aes }

-- What crypto/cipher documents of CBC: on whole blocks the two modes undo one another, and a mode
-- keeps the length.
pub record IsCbc (aes : Aes) : Type 0 where
  pub undo :
      (secret iv b : Bytes) (block : Block)
      → aes.new_cipher secret ≡ ok block
      → length b % block_size ≡ 0
      → block.decrypt_blocks iv (block.encrypt_blocks iv b) ≡ b
  pub keeps_length :
      (secret iv b : Bytes) (block : Block)
      → aes.new_cipher secret ≡ ok block
      → length (block.encrypt_blocks iv b) ≡ length b

last_of_replicate_nil : (n a : ℕ) → get_elem? (replicate (suc n) a) n ≡ some a
last_of_replicate_nil zero a = refl
last_of_replicate_nil (suc n) a = last_of_replicate_nil n a

last_of_replicate :
    (xs : Bytes) (n a : ℕ) → get_elem? (xs ++ replicate (suc n) a) (length xs + n) ≡ some a
last_of_replicate [] n a = rw add.zero (last_of_replicate_nil n a)
last_of_replicate (x ∷ xs) n a = rw add.suc (last_of_replicate xs n a)

-- Taking as many bytes off the end as were put there.
strip :
    (b c : Bytes) (k : ℕ)
    → length c ≡ k
    → (if leb k (length (b ++ c)) then ok (take (length (b ++ c) - k) (b ++ c)) else err panicked)
      ≡ ok b
strip b c k e =
    let front : length (b ++ c) - k ≡ length b = omega (arith, length-append b c) in
    rw (le→leb k (length (b ++ c)) (omega (arith, length-append b c)), front, take-append)

pad_shape : (b : Bytes) → (n : ℕ) × (pad b ≡ b ++ replicate (suc n) (suc n))
unfolding pad
pad_shape b =
    let e : block_size - length b % block_size ≡ suc (15 - length b % 16) = omega arith in
    (15 - length b % 16, ap (λ k. b ++ replicate k k) e)

last_index : (b : Bytes) (n a : ℕ) → length (b ++ replicate (suc n) a) - 1 ≡ length b + n
last_index b n a = omega (arith, length-append b (replicate (suc n) a), length-replicate (suc n) a)

unpad-pad : (b : Bytes) → unpad (pad b) (get_elem? (pad b) (length (pad b) - 1)) ≡ ok b
unfolding unpad
unpad-pad b =
    let (n, shape) = pad_shape b in
    rw (shape, last_index b n (suc n), last_of_replicate b n (suc n))
      (strip b (replicate (suc n) (suc n)) (suc n) (length-replicate (suc n) (suc n)))

-- A padded text is a whole number of blocks.
length-pad_mod : (b : Bytes) → length (pad b) % block_size ≡ 0
unfolding pad
length-pad_mod b = omega (
  arith,
  length-append b
      (replicate (block_size - length b % block_size) (block_size - length b % block_size)),
  length-replicate (block_size - length b % block_size) (block_size - length b % block_size),
)

-- Decryption of a vector and a body of whole blocks.
decrypt_parts :
    (aes : Aes) (iv body secret : Bytes) (block : Block)
    → aes.new_cipher secret ≡ ok block
    → length iv ≡ block_size
    → length body % block_size ≡ 0
    → decrypt aes secret (iv ++ body)
      ≡ unpad
          (block.decrypt_blocks iv body)
          (get_elem? (block.decrypt_blocks iv body) (length (block.decrypt_blocks iv body) - 1))
unfolding decrypt
decrypt_parts aes iv body secret block e len whole = rw (e, take_iv, drop_iv, not_short, whole)
  where
    take_iv : take block_size (iv ++ body) ≡ iv
    take_iv = rw (← len) (take-append iv body)

    drop_iv : drop block_size (iv ++ body) ≡ body
    drop_iv = rw (← len) (drop-append iv body)

    not_short : ltb (length (iv ++ body)) block_size ≡ false
    not_short = not-lt→ltb _ _ (omega (arith, length-append iv body))

-- Under CBC that undoes itself and a vector of one block, the cryptor decrypts what it encrypted.
pub cryptor-IsInvertible :
    (aes : Aes) (iv secret : Bytes)
    → IsCbc aes
    → length iv ≡ block_size
    → IsInvertible (cryptor aes iv) secret
unfolding cryptor encrypt
cryptor-IsInvertible aes iv secret cbc len = record {
  undo = λ b r h.
      let (block, made, out) = >>=-eq-ok (aes.new_cipher secret) _ h in
      let body = block.encrypt_blocks iv (pad b) in
      let whole : length body % block_size ≡ 0 =
        rw (cbc.keeps_length secret iv (pad b) block made) (length-pad_mod b) in
      let out' : iv ++ body ≡ r = cc in
      rw
        (
          ← out',
          decrypt_parts aes iv body secret block made len whole,
          cbc.undo secret iv (pad b) block made (length-pad_mod b),
        )
        (unpad-pad b);
}
