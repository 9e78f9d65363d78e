-- ===== src/Server/Access.antt =====
-- The middleware authMiddleware of server/api.go, which runs before every route, and that it lets
-- nothing through to the store without the password.
use wiredkv.Prelude.{
  ℕ, ◌≡◌, ◌≢◌, ◌⊎◌, inl, inr, List, [], ◌∷◌, Bool, true, false, ◌||◌, not, ok, nat_beq, list_beq,
  list_beq_iff, if◌then◌else◌, Bool-cases,
}
use wiredkv.Prelude.Bytes.{Bytes}
use wiredkv.Vfs.Fs.{Env, LogStructuredFs, Fs}
use wiredkv.Server.Library.{Response, Library, answer, ip_denied, unauthorised}
use wiredkv.Server.Routes.{Method, Target, route}

-- What the handlers read of a request; `client_ip` is what gin finds out.
pub record Request : Type 0 where
  pub auth_token : Bytes
  pub forwarded_for : Bytes
  pub client_ip : Bytes
  pub method : Method
  pub target : Target
  pub body : Bytes

-- The variables of package server.
pub record Access : Type 0 where
  pub auth_password : Bytes
  pub allow_ip_list : List Bytes

-- strings.Split(ip, ":")[0]
unfoldable pub host_of : Bytes → Bytes
host_of [] = []
host_of (c ∷ cs) = let rest = host_of cs in if nat_beq c b':' then [] else c ∷ rest

unfoldable pub address : Request → Bytes
address req = if list_beq req.forwarded_for [] then req.client_ip else req.forwarded_for

unfoldable pub is_listed : Bytes → List Bytes → Bool
is_listed host [] = false
is_listed host (allowed ∷ ips) = list_beq allowed host || is_listed host ips

abbrev is_nil : List Bytes → Bool
is_nil [] = true
is_nil (ip ∷ ips) = false

-- An empty list allows every address.
unfoldable pub ip_allowed : Access → Request → Bool
ip_allowed access req =
    is_nil access.allow_ip_list || is_listed (host_of (address req)) access.allow_ip_list

module _ {Score : Type 0} where
  unfoldable pub auth_middleware :
      Access → Request → Fs (List (Response Score)) → Fs (List (Response Score))
  auth_middleware access req next s =
      if not (ip_allowed access req)
      then (ok (answer 401 ip_denied), s)
      else if not (list_beq req.auth_token access.auth_password)
      then (ok (answer 401 unauthorised), s)
      else next s

  unfoldable pub serve : Library Score → Env → ℕ → ℕ → Access → Request → Fs (List (Response Score))
  serve lib env now later access req =
      auth_middleware access req (route lib env now later req.method req.target req.body)

  abbrev pub denial : Access → Request → List (Response Score)
  denial access req = answer 401 (if ip_allowed access req then unauthorised else ip_denied)

  -- A request from an address that is not allowed, or without the password, is answered 401 and
  -- leaves the store as it was, whatever its method, path and body.
  pub serve_denied :
      (lib : Library Score) (env : Env) (now later : ℕ) (access : Access) (req : Request)
      (s : LogStructuredFs)
      → (ip_allowed access req ≡ false) ⊎ (req.auth_token ≢ access.auth_password)
      → serve lib env now later access req s ≡ (ok (denial access req), s)
  unfolding serve auth_middleware
  serve_denied lib env now later access req s (inl outside) = rw outside
  serve_denied lib env now later access req s (inr wrong) =
      elim (Bool-cases (list_beq req.auth_token access.auth_password)) [
        | inl same ↦ absurd (wrong ((list_beq_iff _ _).0 same))
        | inr other ↦ elim (Bool-cases (ip_allowed access req)) [
          | inl inside ↦ rw (inside, other)
          | inr outside ↦ rw outside
        ]
      ]
