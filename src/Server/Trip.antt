-- ===== src/Server/Trip.antt =====
-- What was put by a request is what a later request gets, for each of the six types.
use wiredkv.Prelude.{
  >>=-eq-ok, ℕ, ◌+◌, ◌^◌, ◌<◌, ◌≡◌, refl, ap, ◌∙◌, arith, List, true, false, nat_eq, length, Result,
  ok, err, ==-self, list_beq, list_beq_iff,
}
use wiredkv.Prelude.Bytes.{Bytes}
use wiredkv.Vfs.Hash.{IsHashes, inode_num}
use wiredkv.Vfs.Transformer.{decode}
use wiredkv.Vfs.Transformer.Laws.{IsSound}
use wiredkv.Vfs.Segment.{Segment, Serializable, size, new_segment, to_kind}
use wiredkv.Vfs.Segment.Laws.{Holds, new_segment-Holds}
use wiredkv.Vfs.Fs.{Env, LogStructuredFs, ◌>>=◌}
use wiredkv.Vfs.Lfs.{fetch_segment, put_segment}
use wiredkv.Vfs.Lfs.WellFormed.{WellFormed}
use wiredkv.Vfs.Lfs.Put.{Fits, put_segment-WellFormed, fetch_segment-put_segment}
use wiredkv.Vfs.Lfs.Refinement.{has_expired}
use wiredkv.Server.Library.{Response, Body, processed, answer, Library, attempted_result}
use wiredkv.Server.Controllers.{get_controller, put_controller, serializable}
use wiredkv.Server.Routes.{Group, get, put, item, get_route, put_route, route}
use wiredkv.Server.Access.{Request, Access, ip_allowed, auth_middleware, serve}
use wiredkv.Server.Groups.{
  ValueOf, marshalling, show, life_of, type_of, KeepsShown, convert, get_route-eq-get_controller,
  put_route-eq-put_controller, convert-of_kind,
}

pub record Granted (access : Access) (req : Request) : Type 0 where
  pub inside : ip_allowed access req ≡ true
  pub password : req.auth_token ≡ access.auth_password

pub serve-Granted :
    {Score : Type 0} (lib : Library Score) (env : Env) (now later : ℕ) (access : Access)
    (req : Request) (s : LogStructuredFs)
    → Granted access req
    → serve lib env now later access req s
      ≡ route lib env now later req.method req.target req.body s
unfolding serve auth_middleware
serve-Granted lib env now later access req s g =
    let same : list_beq req.auth_token access.auth_password ≡ true =
      (list_beq_iff _ _).1 g.password in
    rw (g.inside, same)

pub attempted_ok :
    {A : Type 0} (r : Result A × LogStructuredFs) (a : A)
    → r.0 ≡ ok a
    → attempted_result r ≡ (ok (ok a), r.1)
attempted_ok (ok b, s) a e = ground (arith, e)
attempted_ok (err x, s) a e = cc

module _ {Score A : Type 0} (env : Env) (key : Bytes) (s : LogStructuredFs) where
  put_controller_run :
      (now later : ℕ) (bind_json : Bytes → Result A) (serial : A → Serializable) (ttl : A → ℕ)
      (body : Bytes) (v : A) (seg : Segment)
      → bind_json body ≡ ok v
      → new_segment env.transformer now later key (serial v) (ttl v) ≡ ok seg
      → (put_segment env key seg s).0 ≡ ok tt
      → put_controller env now {Score = Score} later bind_json serial ttl key body s
        ≡ (ok (answer 201 processed), (put_segment env key seg s).1)
  unfolding put_controller ◌>>=◌
  put_controller_run now later bind_json serial ttl body v seg bound built done =
      rw (bound, built, attempted_ok (put_segment env key seg s) tt done)

  get_controller_run :
      (now : ℕ) (conv : Segment → Result A) (sh : A → Body Score) (n : ℕ) (seg : Segment) (v : A)
      → (fetch_segment env now key s).0 ≡ ok (n, seg)
      → conv seg ≡ ok v
      → (get_controller env now conv sh key s).0 ≡ ok (answer 200 (sh v))
  unfolding get_controller ◌>>=◌
  get_controller_run now conv sh n seg v found converted =
      rw (attempted_ok (fetch_segment env now key s) (n, seg) found, converted)

-- A put is accepted: the body is bound to a value, its record is built, and there is room for it.
pub record Accepted {Score : Type 0} (lib : Library Score) (env : Env) (now later : ℕ) (g : Group)
    (s : LogStructuredFs) (key body : Bytes) (v : ValueOf Score g) (seg : Segment) : Type 0 where
  pub bound : (marshalling lib g).bind_json body ≡ ok v
  pub built :
      new_segment env.transformer now later key
        (serializable (type_of g) (marshalling lib g) v)
        (life_of Score g v)
      ≡ ok seg
  pub time : now < 2 ^ 64
  pub small : 30 + length key + length seg.value < 2 ^ 32
  pub room : s.offset + size seg < 2 ^ 64
  pub regions_left : s.region_id + 1 < 10 ^ 9

module _ {Score : Type 0} (lib : Library Score) (env : Env) (hv : IsHashes env.hashes)
    (sound : IsSound env.transformer) (g : Group) (keeps : KeepsShown lib g) (s : LogStructuredFs)
    (w : WellFormed env s) (now later : ℕ) (key body : Bytes) (v : ValueOf Score g) (seg : Segment)
    (a : Accepted lib env now later g s key body v seg) where
  holds :
      Holds env.transformer now later key
        (serializable (type_of g) (marshalling lib g) v)
        (life_of Score g v)
        seg
  holds =
      new_segment-Holds env.transformer now later key
        (serializable (type_of g) (marshalling lib g) v) (life_of Score g v) seg sound a.time
        a.small a.built

  fits : Fits s key seg
  fits = record {
    valid = holds.valid;
    key_is = holds.key_is;
    room = a.room;
    regions_left = a.regions_left;
  }

  abbrev stored : LogStructuredFs
  stored = (put_segment env key seg s).1

  put_route_run : put_route lib env now later g key body s ≡ (ok (answer 201 processed), stored)
  put_route_run =
      put_route-eq-put_controller lib g env now later key body s
      ∙ put_controller_run env key s now later (marshalling lib g).bind_json
          (serializable (type_of g) (marshalling lib g)) (life_of Score g) body v seg a.bound
          a.built (put_segment-WellFormed env hv s w key seg fits).0

  value_bytes : (b : Bytes) × ((marshalling lib g).to_bson v ≡ ok b)
  unfolding new_segment
  value_bytes =
      let (kind, _, h0) = >>=-eq-ok (to_kind (type_of g)) _ a.built in
      let (b, serialised, _) = >>=-eq-ok ((marshalling lib g).to_bson v) _ h0 in (b, serialised)

  found_stored :
      (at : ℕ) (b : Bytes)
      → has_expired at seg ≡ false
      → (marshalling lib g).to_bson v ≡ ok b
      → (fetch_segment env at key stored).0 ≡ ok (0, record seg { value = b })
  found_stored at b live serialised =
      let decoded : decode env.transformer seg.value ≡ ok b = holds.decodes ∙ serialised in
      fetch_segment-put_segment env hv s w key seg fits at key
      ∙ rw (==-self (inode_num env.hashes key), live, decoded)

  got_stored :
      (at later' : ℕ)
      → has_expired at seg ≡ false
      → (get_route lib env at later' g key stored).0 ≡ ok (answer 200 (show g v))
  got_stored at later' live =
      let (b, serialised) = value_bytes in
      let (v', read, same) = keeps.back v b serialised in
      let converted = convert-of_kind lib g (record seg { value = b }) holds.kind_is ∙ read in
      ap (λ (r : Result (List (Response Score)) × LogStructuredFs). r.0)
        (get_route-eq-get_controller lib g env at later' key stored)
      ∙ get_controller_run env key stored at (convert lib g) (show g) 0 (record seg { value = b })
          v' (found_stored at b live serialised) converted
      ∙ ap (λ x. ok (answer 200 x)) same

  -- From a store that satisfies the invariant, let a request with access put a value for a key in
  -- one of the six groups, with a body that is bound to the value, and let there be room for its
  -- record. Then it is answered 201, and a request with access that gets the key from that group,
  -- before the record expires, is answered 200 with that value, if bson gives back what it
  -- serialised.
  pub serve-serve :
      (access : Access) (p r : Request) (at later' : ℕ)
      → Granted access p
      → Granted access r
      → (p.method ≡ put) × (p.target ≡ item g key) × (p.body ≡ body)
      → (r.method ≡ get) × (r.target ≡ item g key)
      → has_expired at seg ≡ false
      → ((serve lib env now later access p s).0 ≡ ok (answer 201 processed))
        × ((serve lib env at later' access r (serve lib env now later access p s).1).0
            ≡ ok (answer 200 (show g v)))
  unfolding route
  serve-serve access p r at later' gp gr (pm, pt, pb) (rm, rt) live =
      rw (serve-Granted lib env now later access p s gp, pm, pt, pb, put_route_run)
        (
          refl,
          rw (serve-Granted lib env at later' access r stored gr, rm, rt)
              (got_stored at later' live),
        )
