-- ===== src/Server/Controllers.antt =====
-- The controllers of server/db_service.go. The six types have the same three handlers but for the
-- conversion and the field that is shown.
use wiredkv.Prelude.{ℕ, List, ◌++◌, Result, ok, err, panicked}
use wiredkv.Prelude.Bytes.{Bytes}
use wiredkv.Vfs.Segment
use wiredkv.Vfs.Segment.{
  Segment, Serializable, DynamicType, new_segment, to_set, to_zset, to_text, to_list, to_table,
  to_number,
}
use wiredkv.Vfs.Fs.{Env, Fs, ◌>>=◌, lift, gets}
use wiredkv.Vfs.Lfs.{
  fetch_segment, put_segment, delete_segment, keys_count, gc_state, get_directory,
}
use wiredkv.Server.Library.{
  Response, Body, list, table, zset, text, number, set, health, failure, key_not_found, processed,
  deleted, no_route, answer, Marshalling, Library, attempt,
}

abbrev pub shown_value : {Score A : Type 0} → (A → Body Score) → Result A → List (Response Score)
shown_value show (err e) = answer 500 (failure e)
shown_value show (ok a) = answer 200 (show a)

abbrev pub shown :
    {Score A : Type 0}
    → (Segment → Result A)
    → (A → Body Score)
    → Result (ℕ × Segment)
    → List (Response Score)
shown convert show (err e) = answer 404 key_not_found
shown convert show (ok (mvcc, seg)) = shown_value show (convert seg)

abbrev put_answer : {Score : Type 0} → Result (Unit {0}) → List (Response Score)
put_answer (err e) = answer 500 (failure e)
put_answer (ok u) = answer 201 processed

abbrev pub put_segment_answer :
    {Score : Type 0} → Env → Bytes → Result Segment → Fs (List (Response Score))
put_segment_answer env key (err e) s = (ok (answer 500 (failure e)), s)
put_segment_answer env key (ok seg) s =
    (attempt (put_segment env key seg) >>= λ r. lift (ok (put_answer r))) s

-- The three handlers, for a type with its conversion. `now` and `later` are readings of the clock.
module _ (env : Env) (now : ℕ) {Score A : Type 0} where
  unfoldable pub get_controller :
      (Segment → Result A) → (A → Body Score) → Bytes → Fs (List (Response Score))
  get_controller convert show key = do
    found ← attempt (fetch_segment env now key)
    lift (ok (shown convert show found))

  abbrev pub put_value :
      ℕ → (A → Serializable) → (A → ℕ) → Bytes → Result A → Fs (List (Response Score))
  put_value later serial ttl key (err e) s = (ok (answer 400 (failure e)), s)
  put_value later serial ttl key (ok value) s =
      put_segment_answer env key
        (new_segment env.transformer now later key (serial value) (ttl value)) s

  unfoldable pub put_controller :
      ℕ
      → (Bytes → Result A)
      → (A → Serializable)
      → (A → ℕ)
      → Bytes
      → Bytes
      → Fs (List (Response Score))
  put_controller later bind_json serial ttl key body =
      put_value later serial ttl key (bind_json body)

module _ {Score : Type 0} where
  -- On an error there is no return: both answers are written.
  abbrev delete_answer : Result (Unit {0}) → List (Response Score)
  delete_answer (err e) = answer 500 (failure e) ++ answer 204 deleted
  delete_answer (ok u) = answer 204 deleted

  unfoldable pub delete_controller : Env → ℕ → Bytes → Fs (List (Response Score))
  delete_controller env now key = do
    r ← attempt (delete_segment env now key)
    lift (ok (delete_answer r))

  -- Without statistics of the machine the handler answers and then reads a nil pointer.
  abbrev health_answer : Result (Unit {0}) → Fs (List (Response Score))
  health_answer (err e) = lift (err panicked)
  health_answer (ok u) = do
    n ← gets (λ s. keys_count s.indexs)
    count ← lift n
    state ← gets gc_state
    lift (ok (answer 200 (health state count)))

  unfoldable pub get_health_controller : Library Score → Fs (List (Response Score))
  get_health_controller lib s = health_answer (lib.machine (get_directory s)) s

  unfoldable pub error_404_handler : Fs (List (Response Score))
  error_404_handler = lift (ok (answer 404 no_route))

abbrev pub serializable : {A : Type 0} → DynamicType → Marshalling A → A → Serializable
serializable t m a = record { dynamic_type = t; to_bson = m.to_bson a }

module _ {Score : Type 0} (lib : Library Score) (env : Env) (now later : ℕ) where
  unfoldable pub get_list_controller : Bytes → Fs (List (Response Score))
  unfolding get_controller
  get_list_controller = get_controller env now (to_list lib.lists.unmarshal) (λ l. list l.list)

  unfoldable pub put_list_controller : Bytes → Bytes → Fs (List (Response Score))
  unfolding put_controller
  put_list_controller =
      put_controller env now later lib.lists.bind_json (serializable Segment.list lib.lists)
        (λ l. l.ttl)

  unfoldable pub get_table_controller : Bytes → Fs (List (Response Score))
  unfolding get_controller
  get_table_controller = get_controller env now (to_table lib.tables.unmarshal) (λ t. table t.table)

  unfoldable pub put_table_controller : Bytes → Bytes → Fs (List (Response Score))
  unfolding put_controller
  put_table_controller =
      put_controller env now later lib.tables.bind_json (serializable Segment.table lib.tables)
        (λ t. t.ttl)

  unfoldable pub get_zset_controller : Bytes → Fs (List (Response Score))
  unfolding get_controller
  get_zset_controller = get_controller env now (to_zset lib.zsets.unmarshal) (λ z. zset z.zset)

  unfoldable pub put_zset_controller : Bytes → Bytes → Fs (List (Response Score))
  unfolding put_controller
  put_zset_controller =
      put_controller env now later lib.zsets.bind_json (serializable Segment.zset lib.zsets)
        (λ z. z.ttl)

  unfoldable pub get_text_controller : Bytes → Fs (List (Response Score))
  unfolding get_controller
  get_text_controller = get_controller env now (to_text lib.texts.unmarshal) (λ t. text t.content)

  unfoldable pub put_text_controller : Bytes → Bytes → Fs (List (Response Score))
  unfolding put_controller
  put_text_controller =
      put_controller env now later lib.texts.bind_json (serializable Segment.text lib.texts)
        (λ t. t.ttl)

  unfoldable pub get_number_controller : Bytes → Fs (List (Response Score))
  unfolding get_controller
  get_number_controller =
      get_controller env now (to_number lib.numbers.unmarshal) (λ n. number n.value)

  unfoldable pub put_number_controller : Bytes → Bytes → Fs (List (Response Score))
  unfolding put_controller
  put_number_controller =
      put_controller env now later lib.numbers.bind_json (serializable Segment.number lib.numbers)
        (λ n. n.ttl)

  unfoldable pub get_set_controller : Bytes → Fs (List (Response Score))
  unfolding get_controller
  get_set_controller = get_controller env now (to_set lib.sets.unmarshal) (λ s. set s.set)

  unfoldable pub put_set_controller : Bytes → Bytes → Fs (List (Response Score))
  unfolding put_controller
  put_set_controller =
      put_controller env now later lib.sets.bind_json (serializable Segment.set lib.sets)
        (λ s. s.ttl)

module _ {Score : Type 0} (env : Env) (now : ℕ) where
  unfoldable pub delete_list_controller : Bytes → Fs (List (Response Score))
  unfolding delete_controller
  delete_list_controller = delete_controller env now

  unfoldable pub delete_table_controller : Bytes → Fs (List (Response Score))
  unfolding delete_controller
  delete_table_controller = delete_controller env now

  unfoldable pub delete_zset_controller : Bytes → Fs (List (Response Score))
  unfolding delete_controller
  delete_zset_controller = delete_controller env now

  unfoldable pub delete_text_controller : Bytes → Fs (List (Response Score))
  unfolding delete_controller
  delete_text_controller = delete_controller env now

  unfoldable pub delete_number_controller : Bytes → Fs (List (Response Score))
  unfolding delete_controller
  delete_number_controller = delete_controller env now

  unfoldable pub delete_set_controller : Bytes → Fs (List (Response Score))
  unfolding delete_controller
  delete_set_controller = delete_controller env now
