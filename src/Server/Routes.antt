-- ===== src/Server/Routes.antt =====
-- The routes of server/api.go. gin matches a path to a route.
use wiredkv.Prelude.{ℕ, List}
use wiredkv.Prelude.Bytes.{Bytes}
use wiredkv.Vfs.Fs.{Env, Fs}
use wiredkv.Server.Library.{Response, Library}
use wiredkv.Server.Controllers.{
  delete_list_controller, delete_table_controller, delete_zset_controller, delete_text_controller,
  delete_number_controller, delete_set_controller, get_health_controller, error_404_handler,
  get_list_controller, put_list_controller, get_table_controller, put_table_controller,
  get_zset_controller, put_zset_controller, get_text_controller, put_text_controller,
  get_number_controller, put_number_controller, get_set_controller, put_set_controller,
}

pub data Method : Type 0 where
  get put delete other_method : Method

-- The groups of routes.
pub data Group : Type 0 where
  set_group zset_group list_group text_group table_group number_group : Group

-- What gin makes of a path: `/`, a key below a group, or no route.
pub data Target : Type 0 where
  health_target : Target
  item : Group → Bytes → Target
  unknown : Target

module _ {Score : Type 0} (lib : Library Score) (env : Env) (now later : ℕ) where
  abbrev pub get_route : Group → Bytes → Fs (List (Response Score))
  get_route set_group = get_set_controller lib env now later
  get_route zset_group = get_zset_controller lib env now later
  get_route list_group = get_list_controller lib env now later
  get_route text_group = get_text_controller lib env now later
  get_route table_group = get_table_controller lib env now later
  get_route number_group = get_number_controller lib env now later

  abbrev pub put_route : Group → Bytes → Bytes → Fs (List (Response Score))
  put_route set_group = put_set_controller lib env now later
  put_route zset_group = put_zset_controller lib env now later
  put_route list_group = put_list_controller lib env now later
  put_route text_group = put_text_controller lib env now later
  put_route table_group = put_table_controller lib env now later
  put_route number_group = put_number_controller lib env now later

  abbrev pub delete_route : Group → Bytes → Fs (List (Response Score))
  delete_route set_group = delete_set_controller env now
  delete_route zset_group = delete_zset_controller env now
  delete_route list_group = delete_list_controller env now
  delete_route text_group = delete_text_controller env now
  delete_route table_group = delete_table_controller env now
  delete_route number_group = delete_number_controller env now

  -- Any other method, or any other path, has no route.
  unfoldable pub route : Method → Target → Bytes → Fs (List (Response Score))
  route get health_target body = get_health_controller lib
  route get (item g key) body = get_route g key
  route put (item g key) body = put_route g key body
  route delete (item g key) body = delete_route g key
  route _ _ body = error_404_handler
