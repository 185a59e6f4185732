-- ===== src/Store/Database.antt =====
-- The tables of `_SCHEMA` in src/scnsim/workspace/operation_store.py, and the object reference.
use scnsim.Base.{ℕ, String, List, [], Option}
use scnsim.Base.Dict.{Dict}

-- The bytes of a BLOB.
abbrev pub Payload : Type 0
Payload = List ℕ

-- `_DATABASE`
abbrev pub database_name : String
database_name = "operations.sqlite3"

-- `_VERSION`
abbrev pub store_version : ℕ
store_version = 3

-- The mapping that `_reference` builds: its keys are the record's fields.
pub record Reference : Type 0 where
  pub schema_version : ℕ
  pub storage : String
  pub database : String
  pub role : String
  pub sha256 : String
  pub byte_length : ℕ

abbrev pub make_reference : String → String → ℕ → Reference
make_reference digest role length = record {
  schema_version = store_version;
  storage = "sqlite";
  database = database_name;
  role = role;
  sha256 = digest;
  byte_length = length;
}

-- A row of `entries`.
pub record Entry : Type 0 where
  pub stream : String
  pub sequence : ℕ
  pub kind : String
  pub sha256 : String
  pub role : String

-- A row of `pointers`, under its name.
pub record Pointer : Type 0 where
  pub revision : ℕ
  pub sha256 : String
  pub role : String

-- A row of `operations`, under its operation_id.
pub record OperationRow : Type 0 where
  pub sha256 : String
  pub role : String
  pub method : Option String
  pub backend : Option String
  pub precision : Option String
  pub status : Option String
  pub start_ns : Option ℕ
  pub end_ns : Option ℕ
  pub clock_id : Option String

-- A row of `spans`, under its span_id.
pub record SpanRow : Type 0 where
  pub sha256 : String
  pub role : String
  pub operation_id : String
  pub parent_span_id : Option String
  pub kind : Option String
  pub start_ns : Option ℕ
  pub end_ns : Option ℕ
  pub clock_id : Option String

-- The database file as a reader sees it. A table with a primary key is a dict; `object_roles` and
-- `transactions` are their keys alone.
pub record Database : Type 0 where
  pub metadata : Dict String String
  pub objects : Dict String Payload
  pub object_roles : List (String × String)
  pub streams : Dict String ℕ
  pub entries : List Entry
  pub pointers : Dict String Pointer
  pub transactions : List String
  pub operations : Dict String OperationRow
  pub spans : Dict String SpanRow

-- The database that `_SCHEMA` and the INSERT of the metadata create.
abbrev pub created : Dict String String → Database
created metadata = record {
  metadata = metadata;
  objects = [];
  object_roles = [];
  streams = [];
  entries = [];
  pointers = [];
  transactions = [];
  operations = [];
  spans = [];
}
