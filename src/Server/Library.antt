-- ===== src/Server/Library.antt =====
-- What the controllers use of other packages, requests and responses.
use wiredkv.Prelude.{ℕ, List, [], ◌∷◌, Bool, true, false, Result, ok, err, Error, panicked}
use wiredkv.Prelude.Bytes.{Bytes}
use wiredkv.Prelude.Map.{Map}
use wiredkv.Types.Set.{Set}
use wiredkv.Types.ZSet.{ZSet}
use wiredkv.Types.Text.{Text}
use wiredkv.Types.Table.{Entries, Value, Table}
use wiredkv.Types.Number.{Number}
use wiredkv.Types.AnyList.{AnyList}
use wiredkv.Vfs.Fs.{LogStructuredFs, Fs, GcState}

-- The JSON body of a response. Messages are told apart, and an error stands for its text. Of the
-- health of the server the state of the collector and the number of keys are kept. Scores are floats.
pub data Body (Score : Type 0) : Type 0 where
  list : List Value → Body Score
  table : Entries → Body Score
  zset : Map Bytes Score → Body Score
  text : Bytes → Body Score
  number : ℕ → Body Score
  set : Map Bytes Bool → Body Score
  health : GcState → ℕ → Body Score
  failure : Error → Body Score
  key_not_found processed deleted ip_denied unauthorised no_route : Body Score

-- A call of ctx.JSON: the status and the body. A handler may make several.
pub record Response (Score : Type 0) : Type 0 where
  pub status : ℕ
  pub body : Body Score

abbrev pub answer : {Score : Type 0} → ℕ → Body Score → List (Response Score)
answer status body = record { status = status; body = body } ∷ []

-- ctx.ShouldBindJSON, ToBSON and bson.Unmarshal for one of the types.
pub record Marshalling (A : Type 0) : Type 0 where
  pub bind_json : Bytes → Result A
  pub to_bson : A → Result Bytes
  pub unmarshal : Bytes → Result A

-- What other packages do: `machine` is newHealth for a directory.
pub record Library (Score : Type 0) : Type 0 where
  pub lists : Marshalling (AnyList Value)
  pub tables : Marshalling Table
  pub zsets : Marshalling (ZSet Score)
  pub texts : Marshalling Text
  pub numbers : Marshalling Number
  pub sets : Marshalling Set
  pub machine : Bytes → Result (Unit {0})

abbrev pub is_panic : Error → Bool
is_panic panicked = true
is_panic e = false

abbrev pub attempted :
    {A : Type 0} → Bool → Error → LogStructuredFs → Result (Result A) × LogStructuredFs
attempted true e s = (err e, s)
attempted false e s = (ok (err e), s)

abbrev pub attempted_result :
    {A : Type 0} → Result A × LogStructuredFs → Result (Result A) × LogStructuredFs
attempted_result (ok a, s) = (ok (ok a), s)
attempted_result (err e, s) = attempted (is_panic e) e s

-- An error as a value; a run-time panic goes on.
abbrev pub attempt : {A : Type 0} → Fs A → Fs (Result A)
attempt m s = attempted_result (m s)
