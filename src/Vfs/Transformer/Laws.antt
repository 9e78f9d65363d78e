-- ===== src/Vfs/Transformer/Laws.antt =====
-- What `encode` writes `decode` reads back, and which steps the switches turn on.
use wiredkv.Prelude.{
  ℕ, zero, suc, ◌<◌, ◌≡◌, refl, arith, Option, none, some, ok, Bool, true, false, >>=-eq-ok,
}
use wiredkv.Prelude.Bytes.{Bytes}
use wiredkv.Vfs.Transformer.{
  Compressor, Encryptor, Transformer, encode, decode, active_compressor, active_encryptor,
  compress_step, decompress_step, encrypt_step, decrypt_step, is_compression_enabled,
  is_encryption_enabled, enable_encryption, enable_compression, disable_encryption,
  disable_compression,
}

-- What the transformer relies on: an implementation undoes its own work.
pub record IsLossless (c : Compressor) : Type 0 where
  pub undo : (b r : Bytes) → c.compress b ≡ ok r → c.decompress r ≡ ok b

pub record IsInvertible (e : Encryptor) (secret : Bytes) : Type 0 where
  pub undo : (b r : Bytes) → e.encrypt secret b ≡ ok r → e.decrypt secret r ≡ ok b

pub record IsSound (t : Transformer) : Type 0 where
  pub lossless : (c : Compressor) → t.compressor ≡ some c → IsLossless c
  pub invertible : (e : Encryptor) → t.encryptor ≡ some e → IsInvertible e t.secret

active_compressor_is_set :
    (t : Transformer) (c : Compressor) → active_compressor t ≡ some c → t.compressor ≡ some c
unfolding active_compressor
active_compressor_is_set t c h = ground arith

active_encryptor_is_set :
    (t : Transformer) (e : Encryptor) → active_encryptor t ≡ some e → t.encryptor ≡ some e
unfolding active_encryptor
active_encryptor_is_set t e h = ground arith

decompress-compress :
    (o : Option Compressor) (b r : Bytes)
    → ((c : Compressor) → o ≡ some c → IsLossless c)
    → compress_step o b ≡ ok r
    → decompress_step o r ≡ ok b
unfolding compress_step decompress_step
decompress-compress none b r lossless h = cc
decompress-compress (some c) b r lossless h = (lossless c refl).undo b r h

decrypt-encrypt :
    (o : Option Encryptor) (secret b r : Bytes)
    → ((e : Encryptor) → o ≡ some e → IsInvertible e secret)
    → encrypt_step o secret b ≡ ok r
    → decrypt_step o secret r ≡ ok b
unfolding encrypt_step decrypt_step
decrypt-encrypt none secret b r invertible h = cc
decrypt-encrypt (some e) secret b r invertible h = (invertible e refl).undo b r h

-- If the compressor and the encryptor that are set undo their own work, what `encode` made of a
-- value decodes to that value, whatever the switches.
pub decode-encode :
    (t : Transformer) (b r : Bytes) → IsSound t → encode t b ≡ ok r → decode t r ≡ ok b
unfolding encode decode
decode-encode t b r sound h =
    let (m, first, second) = >>=-eq-ok (compress_step (active_compressor t) b) _ h in
    rw
      (decrypt-encrypt (active_encryptor t) t.secret m r
        (λ e p. sound.invertible e (active_encryptor_is_set t e p)) second)
      (decompress-compress (active_compressor t) b m
        (λ c p. sound.lossless c (active_compressor_is_set t c p)) first)

-- The two switches, read off the flags.
record Switches (t : Transformer) (encryption compression : Bool) : Type 0 where
  flags_fit : t.flags < 4
  encryption_is : is_encryption_enabled t ≡ encryption
  compression_is : is_compression_enabled t ≡ compression

-- What each switching operation does to both switches.
pub record SwitchesWork (t : Transformer) : Type 0 where
  encryption_on : Switches (enable_encryption t) true (is_compression_enabled t)
  encryption_off : Switches (disable_encryption t) false (is_compression_enabled t)
  compression_on : Switches (enable_compression t) (is_encryption_enabled t) true
  compression_off : Switches (disable_compression t) (is_encryption_enabled t) false

with_flags : Transformer → ℕ → Transformer
with_flags t n = record t { flags = n }

four_cases : (P : ℕ → Type 0) (n : ℕ) → n < 4 → P 0 → P 1 → P 2 → P 3 → P n
four_cases P zero h a b c d = a
four_cases P (suc zero) h a b c d = b
four_cases P (suc (suc zero)) h a b c d = c
four_cases P (suc (suc (suc zero))) h a b c d = d
four_cases P (suc (suc (suc (suc n)))) h a b c d = absurd (omega arith)

-- With flags below 4, switching encryption or compression on or off has that effect, leaves the
-- other switch as it was, and keeps the flags below 4.
pub switches_work : (t : Transformer) → t.flags < 4 → SwitchesWork t
unfolding with_flags enable_encryption disable_encryption enable_compression disable_compression
    is_encryption_enabled is_compression_enabled
switches_work t h =
    four_cases (λ n. SwitchesWork (with_flags t n)) t.flags h (ground arith) (ground arith)
      (ground arith) (ground arith)
