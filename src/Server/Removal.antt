-- ===== src/Server/Removal.antt =====
-- What was deleted by a request is not found by a later one.
use wiredkv.Prelude.{
  ℕ, ◌+◌, ◌^◌, ◌<◌, ◌≡◌, refl, ◌∙◌, arith, nat_eq, Result, ok, err, ==-self, index_not_found,
}
use wiredkv.Prelude.Bytes.{Bytes}
use wiredkv.Vfs.Hash.{IsHashes, inode_num}
use wiredkv.Vfs.Segment.{size, new_tombstone_segment}
use wiredkv.Vfs.Codec.SegmentTrip.{IsSegment}
use wiredkv.Vfs.Fs.{Env, LogStructuredFs, ◌>>=◌}
use wiredkv.Vfs.Lfs.{fetch_segment, delete_segment}
use wiredkv.Vfs.Lfs.WellFormed.{WellFormed}
use wiredkv.Vfs.Lfs.Delete.{delete_segment-WellFormed, fetch_segment-delete_segment}
use wiredkv.Server.Library.{key_not_found, deleted, answer, Library, attempted_result}
use wiredkv.Server.Controllers.{get_controller, delete_controller}
use wiredkv.Server.Routes.{
  Group, set_group, zset_group, list_group, text_group, table_group, number_group, get, delete,
  item, get_route, route,
}
use wiredkv.Server.Access.{Request, Access, serve}
use wiredkv.Server.Groups.{get_route-eq-get_controller}
use wiredkv.Server.Controllers.{
  delete_list_controller, delete_table_controller, delete_zset_controller, delete_text_controller,
  delete_number_controller, delete_set_controller,
}
use wiredkv.Server.Routes.{delete_route}
use wiredkv.Server.Trip.{Granted, serve-Granted, attempted_ok}

delete_route-eq-delete_controller :
    {Score : Type 0} (lib : Library Score) (g : Group) (env : Env) (now later : ℕ) (key : Bytes)
    (s : LogStructuredFs)
    → delete_route lib env now later g key s ≡ delete_controller env now key s
unfolding delete_list_controller delete_table_controller delete_zset_controller
    delete_text_controller delete_number_controller delete_set_controller
delete_route-eq-delete_controller lib set_group env now later key s = refl
delete_route-eq-delete_controller lib zset_group env now later key s = refl
delete_route-eq-delete_controller lib list_group env now later key s = refl
delete_route-eq-delete_controller lib text_group env now later key s = refl
delete_route-eq-delete_controller lib table_group env now later key s = refl
delete_route-eq-delete_controller lib number_group env now later key s = refl

attempted_err :
    {A : Type 0} (r : Result A × LogStructuredFs)
    → r.0 ≡ err index_not_found
    → attempted_result r ≡ (ok (err index_not_found), r.1)
attempted_err (ok b, s) e = cc
attempted_err (err x, s) e = let same : x ≡ index_not_found = ground (arith, e) in rw same

module _ {Score : Type 0} (lib : Library Score) (env : Env) (hv : IsHashes env.hashes) (g : Group)
    (s : LogStructuredFs) (w : WellFormed env s) (now later : ℕ) (key : Bytes)
    (valid : IsSegment (new_tombstone_segment now key))
    (room : s.offset + size (new_tombstone_segment now key) < 2 ^ 64) where
  abbrev removed : LogStructuredFs
  removed = (delete_segment env now key s).1

  delete_controller_run :
      delete_controller {Score = Score} env now key s ≡ (ok (answer 204 deleted), removed)
  unfolding delete_controller ◌>>=◌
  delete_controller_run = rw (
      attempted_ok (delete_segment env now key s) tt
        (delete_segment-WellFormed env hv s w now key valid room).0)

  delete_route_run : delete_route lib env now later g key s ≡ (ok (answer 204 deleted), removed)
  delete_route_run =
      delete_route-eq-delete_controller lib g env now later key s ∙ delete_controller_run

  not_found :
      (at later' : ℕ)
      → (get_route lib env at later' g key removed).0 ≡ ok (answer 404 key_not_found)
  unfolding get_controller ◌>>=◌
  not_found at later' =
      let gone : (fetch_segment env at key removed).0 ≡ err index_not_found =
        fetch_segment-delete_segment env hv s w now key valid room at key
        ∙ rw (==-self (inode_num env.hashes key)) in
      rw (
        get_route-eq-get_controller lib g env at later' key removed,
        attempted_err (fetch_segment env at key removed) gone,
      )

  -- From a store that satisfies the invariant, with room for a tombstone, a request with access that
  -- deletes a key in any group is answered 204, and a request with access that gets it afterwards
  -- from that group is answered 404.
  pub serve-serve-delete :
      (access : Access) (p r : Request) (at later' : ℕ)
      → Granted access p
      → Granted access r
      → (p.method ≡ delete) × (p.target ≡ item g key)
      → (r.method ≡ get) × (r.target ≡ item g key)
      → ((serve lib env now later access p s).0 ≡ ok (answer 204 deleted))
        × ((serve lib env at later' access r (serve lib env now later access p s).1).0
            ≡ ok (answer 404 key_not_found))
  unfolding route
  serve-serve-delete access p r at later' gp gr (pm, pt) (rm, rt) =
      rw (serve-Granted lib env now later access p s gp, pm, pt, delete_route_run)
        (
          refl,
          rw (serve-Granted lib env at later' access r removed gr, rm, rt) (not_found at later'),
        )
