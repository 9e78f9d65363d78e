-- ===== src/Server/Groups.antt =====
-- The six groups of routes as instances of the same three handlers.
use wiredkv.Prelude.{ℕ, ◌≡◌, refl, arith, nat_eq, Result, ok}
use wiredkv.Prelude.Bytes.{Bytes}
use wiredkv.Types.Set.{Set}
use wiredkv.Types.ZSet.{ZSet}
use wiredkv.Types.Text.{Text}
use wiredkv.Types.Table.{Value, Table}
use wiredkv.Types.Number.{Number}
use wiredkv.Types.AnyList.{AnyList}
use wiredkv.Vfs.Segment
use wiredkv.Vfs.Segment.{
  Segment, Kind, Serializable, DynamicType, size, new_segment, new_tombstone_segment, to_kind,
  to_set, to_zset, to_text, to_list, to_table, to_number,
}
use wiredkv.Vfs.Fs.{Env, LogStructuredFs}
use wiredkv.Server.Library.{Body, list, table, zset, text, number, set, Marshalling, Library}
use wiredkv.Server.Controllers.{
  get_controller, put_controller, serializable, get_list_controller, put_list_controller,
  get_table_controller, put_table_controller, get_zset_controller, put_zset_controller,
  get_text_controller, put_text_controller, get_number_controller, put_number_controller,
  get_set_controller, put_set_controller,
}
use wiredkv.Server.Routes.{
  Group, set_group, zset_group, list_group, text_group, table_group, number_group, get_route,
  put_route,
}

-- The type behind a group of routes, and what the group uses of it.
abbrev pub ValueOf : Type 0 → Group → Type 0
ValueOf Score set_group = Set
ValueOf Score zset_group = ZSet Score
ValueOf Score list_group = AnyList Value
ValueOf Score text_group = Text
ValueOf Score table_group = Table
ValueOf Score number_group = Number

abbrev pub marshalling :
    {Score : Type 0} → Library Score → (g : Group) → Marshalling (ValueOf Score g)
marshalling lib set_group = lib.sets
marshalling lib zset_group = lib.zsets
marshalling lib list_group = lib.lists
marshalling lib text_group = lib.texts
marshalling lib table_group = lib.tables
marshalling lib number_group = lib.numbers

abbrev pub show : {Score : Type 0} → (g : Group) → ValueOf Score g → Body Score
show set_group v = set v.set
show zset_group v = zset v.zset
show list_group v = list v.list
show text_group v = text v.content
show table_group v = table v.table
show number_group v = number v.value

abbrev pub life_of : (Score : Type 0) → (g : Group) → ValueOf Score g → ℕ
life_of Score set_group v = v.ttl
life_of Score zset_group v = v.ttl
life_of Score list_group v = v.ttl
life_of Score text_group v = v.ttl
life_of Score table_group v = v.ttl
life_of Score number_group v = v.ttl

abbrev pub type_of : Group → DynamicType
type_of set_group = Segment.set
type_of zset_group = Segment.zset
type_of list_group = Segment.list
type_of text_group = Segment.text
type_of table_group = Segment.table
type_of number_group = Segment.number

-- bson gives back what is shown of a value that it serialised.
pub record KeepsShown {Score : Type 0} (lib : Library Score) (g : Group) : Type 0 where
  pub back :
      (v : ValueOf Score g) (b : Bytes)
      → (marshalling lib g).to_bson v ≡ ok b
      → (v' : ValueOf Score g) × ((marshalling lib g).unmarshal b ≡ ok v') × (show g v' ≡ show g v)

abbrev pub convert :
    {Score : Type 0} → Library Score → (g : Group) → Segment → Result (ValueOf Score g)
convert lib set_group = to_set lib.sets.unmarshal
convert lib zset_group = to_zset lib.zsets.unmarshal
convert lib list_group = to_list lib.lists.unmarshal
convert lib text_group = to_text lib.texts.unmarshal
convert lib table_group = to_table lib.tables.unmarshal
convert lib number_group = to_number lib.numbers.unmarshal

module _ {Score : Type 0} (lib : Library Score) where
  pub get_route-eq-get_controller :
      (g : Group) (env : Env) (now later : ℕ) (key : Bytes) (s : LogStructuredFs)
      → get_route lib env now later g key s ≡ get_controller env now (convert lib g) (show g) key s
  unfolding get_set_controller get_zset_controller get_list_controller get_text_controller
      get_table_controller get_number_controller
  get_route-eq-get_controller set_group env now later key s = refl
  get_route-eq-get_controller zset_group env now later key s = refl
  get_route-eq-get_controller list_group env now later key s = refl
  get_route-eq-get_controller text_group env now later key s = refl
  get_route-eq-get_controller table_group env now later key s = refl
  get_route-eq-get_controller number_group env now later key s = refl

  pub put_route-eq-put_controller :
      (g : Group) (env : Env) (now later : ℕ) (key body : Bytes) (s : LogStructuredFs)
      → put_route lib env now later g key body s
        ≡ put_controller env now later
            (marshalling lib g).bind_json
            (serializable (type_of g) (marshalling lib g))
            (life_of Score g)
            key
            body
            s
  unfolding put_set_controller put_zset_controller put_list_controller put_text_controller
      put_table_controller put_number_controller
  put_route-eq-put_controller set_group env now later key body s = refl
  put_route-eq-put_controller zset_group env now later key body s = refl
  put_route-eq-put_controller list_group env now later key body s = refl
  put_route-eq-put_controller text_group env now later key body s = refl
  put_route-eq-put_controller table_group env now later key body s = refl
  put_route-eq-put_controller number_group env now later key body s = refl

  -- A record of the kind of its group is converted by bson alone.
  pub convert-of_kind :
      (g : Group) (seg : Segment)
      → to_kind (type_of g) ≡ ok seg.kind
      → convert lib g seg ≡ (marshalling lib g).unmarshal seg.value
  unfolding to_kind to_set to_zset to_list to_text to_table to_number
  convert-of_kind set_group seg h = ground arith
  convert-of_kind zset_group seg h = ground arith
  convert-of_kind list_group seg h = ground arith
  convert-of_kind text_group seg h = ground arith
  convert-of_kind table_group seg h = ground arith
  convert-of_kind number_group seg h = ground arith
