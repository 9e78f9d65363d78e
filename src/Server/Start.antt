-- ===== src/Server/Start.antt =====
-- The start and the end of a server: New, SetAllowIP, Shutdown and closeStorage of server/server.go, and
-- init and runServer of cmd/process.go. Logging, signals and the loop of net/http are left out;
-- clog.Failed ends the process, so it is an error here.
pub mod Configured
use wiredkv.Prelude.{
  ℕ, Bool, true, false, not, ◌||◌, List, [], ◌∷◌, Option, none, some, Result, ok, err, io_failed,
  invalid_input, list_beq, if◌then◌else◌, map_result, ◌>>=◌,
}
use wiredkv.Prelude.Bytes.{Bytes}
use wiredkv.Prelude.Int.{ℤ, pos, leb_ℤ}
use wiredkv.Conf.{ServerOptions, validated}
use wiredkv.Vfs.Hash.{Hashes}
use wiredkv.Vfs.Transformer.{
  Transformer, Compressor, Encryptor, new_transformer, set_compressor, set_encryptor,
}
use wiredkv.Vfs.Disk.{Disk}
use wiredkv.Vfs.Fs.{Env, LogStructuredFs}
use wiredkv.Vfs.Open
use wiredkv.Vfs.Open.{env_of, open_fs, close_fs}
use wiredkv.Vfs.Collector.Worker.{Workers, new_workers, start_region_gc}
use wiredkv.Server.Access.{Access}

pub record Options : Type 0 where
  pub port : ℤ
  pub auth : Bytes

-- The http.Server itself is not modelled.
pub record HttpServer : Type 0 where
  pub port : ℤ

abbrev pub with_password : Bytes → Access → Access
with_password auth access =
    if list_beq auth [] then access else record access { auth_password = auth }

unfoldable pub new : Options → Access → Result HttpServer × Access
new opt access =
    if not (leb_ℤ (pos 1024) opt.port) || not (leb_ℤ opt.port (pos 65536))
    then (err invalid_input, access)
    else (ok (record { port = opt.port }), with_password opt.auth access)

abbrev pub set_allow_ip : List Bytes → Access → Access
set_allow_ip allowed access = record access { allow_ip_list = allowed }

unfoldable pub close_storage :
    Env → Option LogStructuredFs → Result (Unit {0}) × Option LogStructuredFs
close_storage env none = (ok tt, none)
close_storage env (some storage) = let (r, s) = close_fs env storage in (r, some s)

-- What the shutdown of net/http gives.
pub data ServeEnd : Type 0 where
  finished server_closed failed : ServeEnd

-- The store is closed in any case.
unfoldable pub shutdown :
    Env → ServeEnd → Option LogStructuredFs → Result (Unit {0}) × Option LogStructuredFs
shutdown env failed storage = (err io_failed, (close_storage env storage).1)
shutdown env finished storage = close_storage env storage
shutdown env server_closed storage = close_storage env storage

pub record Flags : Type 0 where
  pub auth : Bytes
  pub port : ℤ
  pub path : Bytes
  pub config : Bytes
  pub debug : Bool

unfoldable pub has_custom : Bytes → Bool
has_custom path = not (list_beq path [])

abbrev pub same_port : ℤ → ℤ → Bool
same_port a b = if leb_ℤ a b then leb_ℤ b a else false

-- The flags over the options; `random` is the generated password.
unfoldable pub with_flags : Flags → ServerOptions → Bytes → ServerOptions → ServerOptions
with_flags fl default random opt = record opt {
  debug = if fl.debug then true else opt.debug;
  password = if list_beq fl.auth default.password then random else fl.auth;
  path = if list_beq fl.path default.path then opt.path else fl.path;
  port = if same_port fl.port default.port then opt.port else fl.port;
}

-- init: `load` reads the options of a file over the given ones.
unfoldable pub start_settings :
    (Bytes → ServerOptions → Result ServerOptions)
    → Flags
    → ServerOptions
    → Bytes
    → Result ServerOptions
start_settings load fl default random = do
  opt ← if has_custom fl.config then load fl.config default else ok default
  let settings = with_flags fl default random opt
  u ← validated settings
  ok settings

-- What runServer has set up when it starts to listen.
pub record App : Type 0 where
  pub server : HttpServer
  pub access : Access
  pub env : Env
  pub storage : LogStructuredFs
  pub workers : Workers

abbrev pub compressed : Compressor → ServerOptions → Transformer → Transformer
compressed snappy opt t = if opt.compressor_enable then set_compressor snappy t else t

abbrev pub or_unchanged : Transformer → Result Transformer → Transformer
or_unchanged t (err e) = t
or_unchanged t (ok t') = t'

-- The error of SetEncryptor is not looked at.
abbrev pub encrypted : Encryptor → ServerOptions → Transformer → Transformer
encrypted aes opt t =
    if opt.encryptor.enable then or_unchanged t (set_encryptor aes opt.encryptor.secret t) else t

abbrev pub is_nil : List Bytes → Bool
is_nil [] = true
is_nil (ip ∷ ips) = false

abbrev pub options_of : ServerOptions → Open.Options
options_of opt = record { path = opt.path; threshold = opt.region.threshold }

-- The collector of regions is started when the options enable it.
abbrev pub collecting : ServerOptions → Workers → Workers
collecting opt c = if opt.region.enable then start_region_gc c else c

-- The store is opened before the transformer is set.
abbrev pub app_of :
    Hashes → Compressor → Encryptor → ServerOptions → HttpServer → Access → LogStructuredFs → App
app_of hashes snappy aes opt server access storage = record {
  server = server;
  access = if is_nil opt.allow_ip then access else set_allow_ip opt.allow_ip access;
  env = env_of hashes (encrypted aes opt (compressed snappy opt new_transformer)) (options_of opt);
  storage = storage;
  workers = collecting opt (new_workers storage);
}

abbrev pub served : (LogStructuredFs → App) → Result LogStructuredFs × Disk → Result App × Disk
served app (r, d) = (map_result app r, d)

abbrev pub run_with :
    Hashes
    → Compressor
    → Encryptor
    → ℕ
    → Bool
    → ServerOptions
    → Disk
    → Result HttpServer × Access
    → Result App × Disk
run_with hashes snappy aes now made opt d (err e, access) = (err e, d)
run_with hashes snappy aes now made opt d (ok server, access) =
    served (app_of hashes snappy aes opt server access)
      (open_fs (env_of hashes new_transformer (options_of opt)) now made (options_of opt) d)

unfoldable pub run_server :
    Hashes → Compressor → Encryptor → ℕ → Bool → ServerOptions → Access → Disk → Result App × Disk
run_server hashes snappy aes now made opt access d =
    run_with hashes snappy aes now made opt d
      (new (record { port = opt.port; auth = opt.password }) access)
