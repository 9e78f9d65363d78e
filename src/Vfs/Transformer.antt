-- ===== src/Vfs/Transformer.antt =====
-- vfs/transformer.go: the transformer of values, and its AES encryptor. The block cipher and the
-- compressor are those of other packages, and parameters here.
pub mod Laws
pub mod Cryptor
use Prim.Native.Nat.{bit_and, bit_or}
use wiredkv.Prelude.{
  ℕ, ◌-◌, Bool, not, ◌&&◌, Option, none, some, [], Result, ok, err, ◌>>=◌, secret_too_short, ltb,
  ◌==◌, nat_eq, length, if◌then◌else◌,
}
use wiredkv.Prelude.Bytes.{Bytes}

pub record Compressor : Type 0 where
  pub compress : Bytes → Result Bytes
  pub decompress : Bytes → Result Bytes

-- Each takes the secret first.
pub record Encryptor : Type 0 where
  pub encrypt : Bytes → Bytes → Result Bytes
  pub decrypt : Bytes → Bytes → Result Bytes

pub record Transformer : Type 0 where
  pub encryptor : Option Encryptor
  pub compressor : Option Compressor
  pub flags : ℕ
  pub secret : Bytes

abbrev pub enabled_encryption : ℕ
enabled_encryption = 1

abbrev pub enabled_compression : ℕ
enabled_compression = 2

abbrev pub new_transformer : Transformer
new_transformer = record { encryptor = none; compressor = none; flags = 0; secret = [] }

unfoldable pub enable_encryption : Transformer → Transformer
enable_encryption t = record t { flags = bit_or t.flags enabled_encryption }

unfoldable pub enable_compression : Transformer → Transformer
enable_compression t = record t { flags = bit_or t.flags enabled_compression }

-- `a &^ b` clears in `a` the bits of `b`: it takes off `a & b`.
unfoldable pub disable_encryption : Transformer → Transformer
disable_encryption t = record t { flags = t.flags - bit_and t.flags enabled_encryption }

unfoldable pub disable_compression : Transformer → Transformer
disable_compression t = record t { flags = t.flags - bit_and t.flags enabled_compression }

unfoldable pub is_encryption_enabled : Transformer → Bool
is_encryption_enabled t = not (bit_and t.flags enabled_encryption == 0)

unfoldable pub is_compression_enabled : Transformer → Bool
is_compression_enabled t = not (bit_and t.flags enabled_compression == 0)

unfoldable pub disable_all : Transformer → Transformer
disable_all t = record t { flags = 0 }

unfoldable pub set_encryptor : Encryptor → Bytes → Transformer → Result Transformer
unfolding enable_encryption
set_encryptor e secret t =
    if ltb (length secret) 16
    then err secret_too_short
    else ok (enable_encryption (record t { secret = secret; encryptor = some e }))

unfoldable pub set_compressor : Compressor → Transformer → Transformer
unfolding enable_compression
set_compressor c t = enable_compression (record t { compressor = some c })

-- `if t.IsCompressionEnabled() && t.Compressor != nil`, and the same test for the encryptor.
unfoldable pub active_compressor : Transformer → Option Compressor
unfolding is_compression_enabled
active_compressor t = if is_compression_enabled t then t.compressor else none

unfoldable pub active_encryptor : Transformer → Option Encryptor
unfolding is_encryption_enabled
active_encryptor t = if is_encryption_enabled t then t.encryptor else none

compress_step : Option Compressor → Bytes → Result Bytes
compress_step none b = ok b
compress_step (some c) b = c.compress b

decompress_step : Option Compressor → Bytes → Result Bytes
decompress_step none b = ok b
decompress_step (some c) b = c.decompress b

encrypt_step : Option Encryptor → Bytes → Bytes → Result Bytes
encrypt_step none secret b = ok b
encrypt_step (some e) secret b = e.encrypt secret b

decrypt_step : Option Encryptor → Bytes → Bytes → Result Bytes
decrypt_step none secret b = ok b
decrypt_step (some e) secret b = e.decrypt secret b

unfoldable pub encode : Transformer → Bytes → Result Bytes
unfolding compress_step encrypt_step
encode t b = do
  compressed ← compress_step (active_compressor t) b
  encrypt_step (active_encryptor t) t.secret compressed

unfoldable pub decode : Transformer → Bytes → Result Bytes
unfolding decompress_step decrypt_step
decode t b = do
  decrypted ← decrypt_step (active_encryptor t) t.secret b
  decompress_step (active_compressor t) decrypted
