-- ===== src/Conf.antt =====
-- conf/server_options.go: the options of the server and their validation. Loading and saving them
-- by viper, yaml and json is not modelled.
use wiredkv.Prelude.{
  ℕ, ◌≡◌, ◌↔◌, ◌⊎◌, ◌<◌, ◌≢◌, inl, inr, refl, arith, Bool, true, false, ◌||◌, List, [], ◌∷◌, Result,
  ok, err, invalid_input, if◌then◌else◌, nat_beq, length, list_beq, Bool-cases, list_eq,
}
use wiredkv.Prelude.Bytes.{Bytes}
use wiredkv.Prelude.Int.{ℤ, pos, negsuc, leb_ℤ}

pub record Region : Type 0 where
  pub enable : Bool
  pub second : ℤ
  pub threshold : ℕ

pub record Encryptor : Type 0 where
  pub enable : Bool
  pub secret : Bytes

pub record ServerOptions : Type 0 where
  pub port : ℤ
  pub path : Bytes
  pub debug : Bool
  pub log_path : Bytes
  pub password : Bytes
  pub region : Region
  pub encryptor : Encryptor
  pub compressor_enable : Bool
  pub allow_ip : List Bytes

-- The lengths of an AES key in bytes.
unfoldable pub valid : ℕ → Bool
valid n = nat_beq n 16 || (nat_beq n 24 || nat_beq n 32)

unfoldable pub validate_encryptor : Encryptor → Result (Unit {0})
unfolding valid
validate_encryptor e =
    if e.enable then (if valid (length e.secret) then ok tt else err invalid_input) else ok tt

unfoldable pub validate_port : ℤ → Result (Unit {0})
validate_port port =
    if leb_ℤ port (pos 1024) || leb_ℤ (pos 65535) port then err invalid_input else ok tt

unfoldable pub validate_path : Bytes → Result (Unit {0})
validate_path path = if list_beq path [] then err invalid_input else ok tt

unfoldable pub validate_password : Bytes → Result (Unit {0})
validate_password password = if list_beq password [] then err invalid_input else ok tt

abbrev and_then : Result (Unit {0}) → Result (Unit {0}) → Result (Unit {0})
and_then (ok u) next = next
and_then (err e) next = err e

-- The first error of the validators.
run_validators : List (ServerOptions → Result (Unit {0})) → ServerOptions → Result (Unit {0})
run_validators [] opt = ok tt
run_validators (v ∷ vs) opt = and_then (v opt) (run_validators vs opt)

-- Vaildated
unfoldable pub validated : ServerOptions → Result (Unit {0})
unfolding run_validators
validated = run_validators (
    (λ opt. validate_port opt.port)
    ∷ (λ opt. validate_path opt.path)
    ∷ (λ opt. validate_password opt.password)
    ∷ (λ opt. validate_encryptor opt.encryptor)
    ∷ [])

-- What options must satisfy to be accepted.
pub record IsAcceptable (opt : ServerOptions) : Type 0 where
  pub port_in_range : (n : ℕ) × (opt.port ≡ pos n) × (1024 < n) × (n < 65535)
  pub path_given : opt.path ≢ []
  pub password_given : opt.password ≢ []
  pub secret_fits :
      (opt.encryptor.enable ≡ false)
      ⊎ ((length opt.encryptor.secret ≡ 16)
          ⊎ ((length opt.encryptor.secret ≡ 24) ⊎ (length opt.encryptor.secret ≡ 32)))

port_exact :
    (p : ℤ) → (validate_port p ≡ ok tt) ↔ ((n : ℕ) × (p ≡ pos n) × (1024 < n) × (n < 65535))
unfolding validate_port
port_exact (pos n) = (
  λ h. (n, refl, ground arith, ground arith),
  λ (m, e, lo, hi). let e' : n ≡ m = cc in ground arith,
)
port_exact (negsuc n) = (λ h. cc, λ (m, e, lo, hi). cc)

path_exact : (p : Bytes) → (validate_path p ≡ ok tt) ↔ (p ≢ [])
unfolding validate_path
path_exact [] = (λ h. cc, λ ne. absurd (ne refl))
path_exact (c ∷ p) = (λ h e. cc, λ ne. refl)

password_exact : (p : Bytes) → (validate_password p ≡ ok tt) ↔ (p ≢ [])
unfolding validate_password
password_exact [] = (λ h. cc, λ ne. absurd (ne refl))
password_exact (c ∷ p) = (λ h e. cc, λ ne. refl)

abbrev SecretFits : Encryptor → Type 0
SecretFits e =
    (e.enable ≡ false)
    ⊎ ((length e.secret ≡ 16) ⊎ ((length e.secret ≡ 24) ⊎ (length e.secret ≡ 32)))

encryptor_exact : (e : Encryptor) → (validate_encryptor e ≡ ok tt) ↔ SecretFits e
unfolding validate_encryptor valid
encryptor_exact e = (λ h. enabled h (Bool-cases e.enable), λ fits. ground (arith, fits))
  where
    enabled : validate_encryptor e ≡ ok tt → (e.enable ≡ true) ⊎ (e.enable ≡ false) → SecretFits e
    enabled h (inr off) = inl off
    enabled h (inl on) = inr (ground arith)

both : (a b : Result (Unit {0})) → and_then a b ≡ ok tt → (a ≡ ok tt) × (b ≡ ok tt)
both (ok u) b h = (refl, h)
both (err e) b h = cc

-- Options are accepted exactly when the port is from 1025 to 65534, path and password are not
-- empty, and an enabled encryptor has a secret of 16, 24 or 32 bytes.
pub validated-IsAcceptable : (opt : ServerOptions) → (validated opt ≡ ok tt) ↔ IsAcceptable opt
unfolding validated
validated-IsAcceptable opt = (
  λ h.
      let (port, h1) = both (validate_port opt.port) _ h in
      let (path, h2) = both (validate_path opt.path) _ h1 in
      let (password, h3) = both (validate_password opt.password) _ h2 in
      let (secret, _) = both (validate_encryptor opt.encryptor) _ h3 in
      record {
        port_in_range = (port_exact opt.port).0 port;
        path_given = (path_exact opt.path).0 path;
        password_given = (password_exact opt.password).0 password;
        secret_fits = (encryptor_exact opt.encryptor).0 secret;
      },
  λ v. rw (
    (port_exact opt.port).1 v.port_in_range,
    (path_exact opt.path).1 v.path_given,
    (password_exact opt.password).1 v.password_given,
    (encryptor_exact opt.encryptor).1 v.secret_fits,
  ),
)
