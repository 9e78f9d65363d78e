-- ===== src/Tests/Requests.antt =====
-- Requests for a text, on a new store.
use wiredkv.Prelude.{◌≡◌, refl, arith, [], ◌∷◌, ok, err, unknown_type, inr, ap}
use wiredkv.Vfs.Transformer.{encode, active_encryptor, active_compressor, new_transformer}
use wiredkv.Vfs.Transformer.Laws.{IsSound}
use wiredkv.Vfs.Segment.{new_segment, to_kind, expiry_of, size}
use wiredkv.Types.Text.{Text}
use wiredkv.Server.Library.{
  Library, Marshalling, answer, processed, deleted, key_not_found, text, unauthorised,
}
use wiredkv.Server.Routes.{get, put, delete, item, text_group}
use wiredkv.Server.Access.{
  Request, Access, host_of, address, is_listed, ip_allowed, serve, serve_denied,
}
use wiredkv.Server.Groups.{KeepsShown}
use wiredkv.Server.Trip.{Granted, Accepted, serve-serve}
use wiredkv.Server.Removal.{serve-serve-delete}
use wiredkv.Tests.Sample.{
  sample_hashes-IsHashes, sample_env, new_store, new_store-WellFormed, new_store_state, stocked,
  stocked-WellFormed, apple, record_of, apple_tombstone, apple_tombstone_room,
}

abbrev unused : {A : Type 0} → Marshalling A
unused = record {
  bind_json = λ b. err unknown_type;
  to_bson = λ a. err unknown_type;
  unmarshal = λ b. err unknown_type;
}

-- A text is its bytes.
abbrev plain : Marshalling Text
plain = record {
  bind_json = λ b. ok (record { content = b; ttl = 0 });
  to_bson = λ t. ok t.content;
  unmarshal = λ b. ok (record { content = b; ttl = 0 });
}

abbrev pub sample_library : Library (Unit {0})
sample_library = record {
  lists = unused;
  tables = unused;
  zsets = unused;
  texts = plain;
  numbers = unused;
  sets = unused;
  machine = λ d. ok tt;
}

abbrev sample_access : Access
sample_access = record { auth_password = 1 ∷ 2 ∷ []; allow_ip_list = (b'1' ∷ []) ∷ [] }

abbrev put_apple : Request
put_apple = record {
  auth_token = 1 ∷ 2 ∷ [];
  forwarded_for = b'1' ∷ b':' ∷ b'9' ∷ [];
  client_ip = [];
  method = put;
  target = item text_group apple;
  body = 7 ∷ [];
}

abbrev get_apple : Request
get_apple = record put_apple { method = get }

abbrev delete_apple : Request
delete_apple = record put_apple { method = delete }

abbrev pub wrong_password : Request
wrong_password = record put_apple { auth_token = [] }

put-Granted : Granted sample_access put_apple
unfolding ip_allowed address host_of is_listed
put-Granted = record { inside = refl; password = refl }

get-Granted : Granted sample_access get_apple
unfolding ip_allowed address host_of is_listed
get-Granted = record { inside = refl; password = refl }

delete-Granted : Granted sample_access delete_apple
unfolding ip_allowed address host_of is_listed
delete-Granted = record { inside = refl; password = refl }

serve_denied_example :
    serve sample_library sample_env 17 18 sample_access wrong_password new_store
    ≡ (ok (answer 401 unauthorised), new_store)
unfolding ip_allowed address host_of is_listed
serve_denied_example =
    serve_denied sample_library sample_env 17 18 sample_access wrong_password new_store
      (inr (λ e. cc))

plain-KeepsShown : KeepsShown sample_library text_group
plain-KeepsShown = record { back = λ v b e. (record { content = b; ttl = 0 }, refl, ap text (cc)) }

apple-Accepted :
    Accepted sample_library sample_env 17 18 text_group new_store apple
      (7 ∷ [])
      (record { content = 7 ∷ []; ttl = 0 })
      (record_of apple 7)
unfolding new_segment to_kind encode active_compressor active_encryptor expiry_of size
apple-Accepted = record {
  bound = refl;
  built = refl;
  time = omega arith;
  small = omega arith;
  room = omega (arith, new_store_state.0);
  regions_left = omega (arith, new_store_state.1);
}

plain-IsSound : IsSound new_transformer
plain-IsSound = record {
  lossless = λ c e. absurd (let q = e in cc);
  invertible = λ c e. absurd (let q = e in cc);
}

serve-serve_example :
    ((serve sample_library sample_env 17 18 sample_access put_apple new_store).0
      ≡ ok (answer 201 processed))
    × ((serve sample_library sample_env 50 51 sample_access get_apple
          (serve sample_library sample_env 17 18 sample_access put_apple new_store).1).0
        ≡ ok (answer 200 (text (7 ∷ []))))
serve-serve_example =
    serve-serve sample_library sample_env sample_hashes-IsHashes plain-IsSound text_group
      plain-KeepsShown new_store new_store-WellFormed 17 18 apple (7 ∷ [])
      (record { content = 7 ∷ []; ttl = 0 }) (record_of apple 7) apple-Accepted sample_access
      put_apple get_apple 50 51 put-Granted get-Granted (refl, refl, refl) (refl, refl) refl

serve-serve-delete_example :
    ((serve sample_library sample_env 20 21 sample_access delete_apple stocked).0
      ≡ ok (answer 204 deleted))
    × ((serve sample_library sample_env 50 51 sample_access get_apple
          (serve sample_library sample_env 20 21 sample_access delete_apple stocked).1).0
        ≡ ok (answer 404 key_not_found))
serve-serve-delete_example =
    serve-serve-delete sample_library sample_env sample_hashes-IsHashes text_group stocked
      stocked-WellFormed 20 21 apple apple_tombstone apple_tombstone_room sample_access delete_apple
      get_apple 50 51 delete-Granted get-Granted (refl, refl) (refl, refl)
