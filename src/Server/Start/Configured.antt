-- ===== src/Server/Start/Configured.antt =====
-- A server that starts does what its options say.
use wiredkv.Prelude.{
  ℕ, ◌*◌, ◌≡◌, ◌≢◌, ◌⊎◌, ap, Result, err, Error, ◌>>=◌, refl, sym, ◌∙◌, arith, Bool, true, false,
  List, [], ◌∷◌, ok, length, Bool-cases, inl, inr, list_beq, list_beq_iff, if◌then◌else◌, ltb,
  not-lt→ltb, leb, le→leb,
}
use wiredkv.Prelude.Bytes.{Bytes}
use wiredkv.Conf.{ServerOptions, validated, IsAcceptable, validated-IsAcceptable}
use wiredkv.Vfs.Hash.{Hashes}
use wiredkv.Vfs.Transformer.{
  Compressor, Encryptor, new_transformer, encode, decode, active_encryptor, active_compressor,
  set_compressor, set_encryptor, is_encryption_enabled, is_compression_enabled, enable_encryption,
  enable_compression,
}
use wiredkv.Vfs.Disk.{Disk}
use wiredkv.Vfs.Fs.{LogStructuredFs}
use wiredkv.Prelude.Map.{insert}
use wiredkv.Vfs.Open.{env_of, gb, open_fs}
use wiredkv.Vfs.Collector.Worker.{looping, start_region_gc}
use wiredkv.Server.Routes.{route}
use wiredkv.Server.Library.{Library}
use wiredkv.Server.Access.{
  Access, Request, serve, denial, serve_denied, auth_middleware, ip_allowed,
}
use wiredkv.Server.Start.{
  App, new, compressed, encrypted, app_of, options_of, is_nil, served, run_server,
}

-- What the options say a value is stored as, and how it is read.
abbrev pub stored_as : Compressor → Encryptor → ServerOptions → Bytes → Result Bytes
stored_as snappy aes opt b = do
  compressed ← if opt.compressor_enable then snappy.compress b else ok b
  if opt.encryptor.enable then aes.encrypt opt.encryptor.secret compressed else ok compressed

abbrev pub read_as : Compressor → Encryptor → ServerOptions → Bytes → Result Bytes
read_as snappy aes opt b = do
  decrypted ← if opt.encryptor.enable then aes.decrypt opt.encryptor.secret b else ok b
  if opt.compressor_enable then snappy.decompress decrypted else ok decrypted

-- The options in the place of the variables of package server.
abbrev pub configured : ServerOptions → Access
configured opt = record { auth_password = opt.password; allow_ip_list = opt.allow_ip }

-- What a server was set up with: its port, its password and addresses, what values are stored as and
-- how they are read, where a region ends, and one goroutine of the collector or none.
pub record IsConfigured (snappy : Compressor) (aes : Encryptor) (opt : ServerOptions) (app : App)
    : Type 0 where
  pub port : app.server.port ≡ opt.port
  pub access : app.access ≡ configured opt
  pub encoding : (b : Bytes) → encode app.env.transformer b ≡ stored_as snappy aes opt b
  pub decoding : (b : Bytes) → decode app.env.transformer b ≡ read_as snappy aes opt b
  pub threshold : app.env.region_threshold ≡ opt.region.threshold * gb
  pub collector : app.workers.phases ≡ (if opt.region.enable then (0, looping) ∷ [] else [])

new_run :
    (opt : ServerOptions) (access : Access)
    → IsAcceptable opt
    → new (record { port = opt.port; auth = opt.password }) access
      ≡ (ok (record { port = opt.port }), record access { auth_password = opt.password })
unfolding new
new_run opt access a =
    let (n, e, low, high) = a.port_in_range in
    let lower : leb 1024 n ≡ true = le→leb 1024 n (omega (arith, low)) in
    let upper : leb n 65536 ≡ true = le→leb n 65536 (omega (arith, high)) in
    let given : list_beq opt.password [] ≡ false = elim (Bool-cases (list_beq opt.password [])) [
      | inl empty ↦ absurd (a.password_given ((list_beq_iff opt.password []).0 empty))
      | inr some_given ↦ some_given
    ] in
    rw (e, lower, upper, given) refl

long_enough :
    (opt : ServerOptions)
    → IsAcceptable opt
    → opt.encryptor.enable ≡ true
    → ltb (length opt.encryptor.secret) 16 ≡ false
long_enough opt a on = elim a.secret_fits [
  | inl off ↦ cc
  | inr (inl short) ↦ not-lt→ltb (length opt.encryptor.secret) 16 (omega (arith, short))
  | inr (inr (inl middle)) ↦ not-lt→ltb (length opt.encryptor.secret) 16 (omega (arith, middle))
  | inr (inr (inr long)) ↦ not-lt→ltb (length opt.encryptor.secret) 16 (omega (arith, long))
]

transformer_codes :
    (snappy : Compressor) (aes : Encryptor) (opt : ServerOptions) (b : Bytes)
    → IsAcceptable opt
    → (encode (encrypted aes opt (compressed snappy opt new_transformer)) b
        ≡ stored_as snappy aes opt b)
      × (decode (encrypted aes opt (compressed snappy opt new_transformer)) b
          ≡ read_as snappy aes opt b)
unfolding is_encryption_enabled is_compression_enabled set_compressor set_encryptor
    enable_encryption enable_compression encode decode active_encryptor active_compressor
transformer_codes snappy aes opt b a = elim (Bool-cases opt.encryptor.enable) [
  | inl on ↦
      let fits = long_enough opt a on in
      elim (Bool-cases opt.compressor_enable) [
        | inl packed ↦ rw (on, packed, fits) (refl, refl)
        | inr plain ↦ rw (on, plain, fits) (refl, refl)
      ]
  | inr off ↦ elim (Bool-cases opt.compressor_enable) [
    | inl packed ↦ rw (off, packed) (refl, refl)
    | inr plain ↦ rw (off, plain) (refl, refl)
  ]
]

module _ (hashes : Hashes) (snappy : Compressor) (aes : Encryptor) (opt : ServerOptions)
    (valid : validated opt ≡ ok tt) (access : Access) (unlisted : access.allow_ip_list ≡ []) where
  -- What the server has set up over a store.
  abbrev started : LogStructuredFs → App
  started =
      app_of hashes snappy aes opt (record { port = opt.port })
        (record access { auth_password = opt.password })

  acceptable : IsAcceptable opt
  acceptable = (validated-IsAcceptable opt).0 valid

  started-access : (s : LogStructuredFs) → (started s).access ≡ configured opt
  started-access s = by_list opt.allow_ip
    where
      by_list :
          (ips : List Bytes)
          → (if is_nil ips
              then record access { auth_password = opt.password }
              else record access { auth_password = opt.password; allow_ip_list = ips })
            ≡ record { auth_password = opt.password; allow_ip_list = ips }
      by_list [] = rw unlisted refl
      by_list (ip ∷ ips) = refl

  started-phases :
      (s : LogStructuredFs)
      → (started s).workers.phases ≡ (if opt.region.enable then (0, looping) ∷ [] else [])
  unfolding start_region_gc insert
  started-phases s = elim (Bool-cases opt.region.enable) [
    | inl on ↦ rw on refl
    | inr off ↦ rw off refl
  ]

  started-IsConfigured : (s : LogStructuredFs) → IsConfigured snappy aes opt (started s)
  started-IsConfigured s = record {
    port = refl;
    access = started-access s;
    encoding = λ b. (transformer_codes snappy aes opt b acceptable).0;
    decoding = λ b. (transformer_codes snappy aes opt b acceptable).1;
    threshold = refl;
    collector = started-phases s;
  }

  started_run :
      (now : ℕ) (made : Bool) (d : Disk)
      → run_server hashes snappy aes now made opt access d
        ≡ served started
            (open_fs (env_of hashes new_transformer (options_of opt)) now made (options_of opt) d)
  unfolding run_server
  started_run now made d = rw (new_run opt access acceptable) refl

  pub run_server-IsConfigured :
      (now : ℕ) (made : Bool) (d d' : Disk) (r : Result LogStructuredFs)
      → open_fs (env_of hashes new_transformer (options_of opt)) now made (options_of opt) d
        ≡ (r, d')
      → ((s : LogStructuredFs)
          → r ≡ ok s
          → (app : App) × (run_server hashes snappy aes now made opt access d ≡ (ok app, d'))
            × (app.storage ≡ s)
            × IsConfigured snappy aes opt app)
        × ((e : Error)
            → r ≡ err e
            → run_server hashes snappy aes now made opt access d ≡ (err e, d'))
  run_server-IsConfigured now made d d' r opening = (
    λ s done.
        (started s, started_run now made d ∙ rw (opening, done) refl, refl, started-IsConfigured s),
    λ e failed. started_run now made d ∙ rw (opening, failed) refl,
  )

  -- Let a server have started from package variables without addresses, with options that
  -- validation accepts. A request from an address that the options do not allow, or without their
  -- password, is answered 401 and leaves the store as it is, whatever it asks for. Any other request is
  -- answered by the handler of its route.
  pub serve-run_server :
      {Score : Type 0} (lib : Library Score) (now : ℕ) (made : Bool) (d d' : Disk) (app : App)
      (at later : ℕ) (req : Request) (t : LogStructuredFs)
      → run_server hashes snappy aes now made opt access d ≡ (ok app, d')
      → ((ip_allowed (configured opt) req ≡ false) ⊎ (req.auth_token ≢ opt.password)
          → serve lib app.env at later app.access req t ≡ (ok (denial (configured opt) req), t))
        × (ip_allowed (configured opt) req ≡ true
            → req.auth_token ≡ opt.password
            → serve lib app.env at later app.access req t
              ≡ route lib app.env at later req.method req.target req.body t)
  unfolding serve auth_middleware
  serve-run_server lib now made d d' app at later req t run =
      let access_is : app.access ≡ configured opt = by_opening _ refl in
      (
        λ bad. rw access_is (serve_denied lib app.env at later (configured opt) req t bad),
        λ inside same.
            let given : list_beq req.auth_token opt.password ≡ true = (list_beq_iff _ _).1 same in
            rw (access_is, inside, given) refl,
      )
    where
      by_opening :
          (o : Result LogStructuredFs × Disk)
          → open_fs (env_of hashes new_transformer (options_of opt)) now made (options_of opt) d ≡ o
          → app.access ≡ configured opt
      by_opening (err e, x) opening =
          let q = sym run ∙ started_run now made d ∙ ap (served started) opening in cc
      by_opening (ok s, x) opening =
          let q = sym run ∙ started_run now made d ∙ ap (served started) opening in
          let r : ok app ≡ ok (started s) = ap (λ y. y.0) q in
          let e : app ≡ started s = cc in ap (λ y. y.access) e ∙ started-access s
