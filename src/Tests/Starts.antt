-- ===== src/Tests/Starts.antt =====
-- A server that starts with given options, and a sorted set of three strings.
use wiredkv.Prelude.{
  ◌≡◌, ◌≢◌, ◌⊎◌, inr, drop, ◌↔◌, some, refl, arith, true, false, [], ◌∷◌, ok, ltb, leb, ℕ, inl,
  list_eq,
}
use wiredkv.Prelude.Bytes.{Bytes}
use wiredkv.Prelude.Int.{pos}
use wiredkv.Prelude.Map.{lookup}
use wiredkv.Conf.{ServerOptions, validated, validated-IsAcceptable}
use wiredkv.Vfs.Transformer.{Compressor, Encryptor, new_transformer}
use wiredkv.Vfs.Fs.{Env, LogStructuredFs}
use wiredkv.Vfs.Open.{env_of, open_fs}
use wiredkv.Vfs.Open.Empty.{first_store, open_fs-WellFormed}
use wiredkv.Server.Routes.{route}
use wiredkv.Server.Access.{Access, denial, serve, ip_allowed}
use wiredkv.Server.Start.{App, options_of, run_server}
use wiredkv.Server.Start.Configured.{
  IsConfigured, configured, run_server-IsConfigured, serve-run_server,
}
use wiredkv.Types.ZSet.{ZSet, Scores, new_zset, get_range, score_in}
use wiredkv.Types.ZSet.Ranking.{IsOrder, has, IsDistinct, IsDescending}
use wiredkv.Types.ZSet.Ranked.{IsRanked, adding, operate, operate-IsRanked, get_range_lem}
use wiredkv.Tests.Sample.{sample_hashes, empty_disk, apple, pear}
use wiredkv.Tests.Requests.{sample_library, wrong_password}

abbrev snappy : Compressor
snappy = record { compress = λ b. ok b; decompress = λ b. ok b }

abbrev aes : Encryptor
aes = record { encrypt = λ k b. ok (0 ∷ b); decrypt = λ k b. ok (drop 1 b) }

abbrev secret : Bytes
secret = 1 ∷ 2 ∷ 3 ∷ 4 ∷ 5 ∷ 6 ∷ 7 ∷ 8 ∷ 9 ∷ 10 ∷ 11 ∷ 12 ∷ 13 ∷ 14 ∷ 15 ∷ 16 ∷ []

abbrev settings : ServerOptions
settings = record {
  port = pos 2668;
  path = b'd' ∷ [];
  debug = false;
  log_path = [];
  password = 1 ∷ 2 ∷ [];
  region = record { enable = true; second = pos 18_000; threshold = 3 };
  encryptor = record { enable = true; secret = secret };
  compressor_enable = true;
  allow_ip = (b'1' ∷ []) ∷ [];
}

settings_accepted : validated settings ≡ ok tt
settings_accepted = (validated-IsAcceptable settings).1 (record {
  port_in_range = (2668, refl, omega arith, omega arith);
  path_given = λ e. cc;
  password_given = λ e. cc;
  secret_fits = inr (inl refl);
})

abbrev no_access : Access
no_access = record { auth_password = []; allow_ip_list = [] }

-- The environment and the store that the server opens.
abbrev opening_env : Env
opening_env = env_of sample_hashes new_transformer (options_of settings)

abbrev first : LogStructuredFs
first = first_store opening_env 50 (options_of settings) empty_disk refl refl

opened : open_fs opening_env 50 false (options_of settings) empty_disk ≡ (ok first, first.disk)
opened = (open_fs-WellFormed opening_env 50 (options_of settings) empty_disk refl refl false).0

-- The server that was started.
running_server :
    (app : App) × (run_server sample_hashes snappy aes 50 false settings no_access empty_disk
      ≡ (ok app, first.disk))
    × (app.storage ≡ first)
    × IsConfigured snappy aes settings app
running_server =
    (run_server-IsConfigured sample_hashes snappy aes settings settings_accepted no_access refl 50
        false empty_disk first.disk (ok first) opened).0
      first refl

serve-run_server_example :
    ((ip_allowed (configured settings) wrong_password ≡ false)
        ⊎ (wrong_password.auth_token ≢ settings.password)
      → serve sample_library running_server.0.env 17 18 running_server.0.access wrong_password first
        ≡ (ok (denial (configured settings) wrong_password), first))
    × (ip_allowed (configured settings) wrong_password ≡ true
        → wrong_password.auth_token ≡ settings.password
        → serve sample_library running_server.0.env 17 18 running_server.0.access wrong_password
            first
          ≡ route sample_library running_server.0.env 17 18 wrong_password.method
              wrong_password.target wrong_password.body first)
serve-run_server_example =
    serve-run_server sample_hashes snappy aes settings settings_accepted no_access refl
      sample_library 50 false empty_disk first.disk running_server.0 17 18 wrong_password first
      running_server.1

abbrev points : Scores ℕ
points = record { gt = λ a b. ltb b a; ge = λ a b. leb b a; zero_score = 0 }

points-IsOrder : IsOrder points
points-IsOrder = record {
  asymmetric = λ a b h. ground arith;
  transitive = λ a b c h k. ground arith;
}

new_zset-IsRanked : IsRanked points new_zset
unfolding lookup
new_zset-IsRanked = record { descending = tt; distinct = tt; listed = λ x. refl }

operate-IsRanked_example : IsRanked points (operate points points-IsOrder (adding apple 3) new_zset)
operate-IsRanked_example =
    operate-IsRanked points points-IsOrder (adding apple 3) new_zset new_zset-IsRanked

abbrev one_fruit : ZSet ℕ
one_fruit = operate points points-IsOrder (adding pear 5) new_zset

one_fruit-IsRanked : IsRanked points one_fruit
one_fruit-IsRanked =
    operate-IsRanked points points-IsOrder (adding pear 5) new_zset new_zset-IsRanked

get_range_lem_example :
    ((x : Bytes)
      → (has x (get_range points 4 6 one_fruit).0 ≡ true) ↔ (
          (score : ℕ) × (lookup x one_fruit.zset ≡ some score)
          × (points.ge score 4 ≡ true)
          × (points.ge 6 score ≡ true)))
    × IsDistinct (get_range points 4 6 one_fruit).0
    × IsDescending points (score_in points one_fruit.zset) (get_range points 4 6 one_fruit).0
get_range_lem_example = get_range_lem points points-IsOrder 4 6 one_fruit one_fruit-IsRanked
