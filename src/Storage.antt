-- ===== src/Storage.antt =====
-- storage/src/lib.rs: the trait `StorageEngine`, and `Storage`, which keeps serialized values.
pub mod Contract
pub mod Typed
pub mod Reliable
pub mod Sqlite
pub mod Sled
use knast.Base.{ℕ, Text, Option, none, some, Bool}
use knast.Base.Exec.{Exec, Result, pure, lift, ◌>>=◌, ◌>>◌}

-- The trait. A collection and a key name a cell; `&self` gives access to a shared database, so
-- every method is an action on it.
pub record StorageEngine : Type 1 where
  pub Db : Type 0
  pub get : Text → Text → Exec Db (Option Text)
  pub put : Text → Text → Text → Exec Db (Unit {0})
  pub compare_and_swap : Text → Text → Option Text → Option Text → Exec Db (Unit {0})
  pub remove : Text → Text → Exec Db (Unit {0})
  pub exists : Text → Text → Exec Db Bool
  pub flush : Exec Db ℕ

-- bincode's `serialize` and `deserialize` at a type.
pub record Codec (A : Type 0) : Type 0 where
  pub serialize : A → Result Text
  pub deserialize : Text → Result A

module _ (e : StorageEngine) {A : Type 0} (c : Codec A) where
  -- `.map(deserialize).transpose()`
  pub transpose : Option Text → Result (Option A)
  transpose none = Result.ok none
  transpose (some bytes) = elim (c.deserialize bytes) [
    | Result.ok a ↦ Result.ok (some a)
    | Result.err x ↦ Result.err x
  ]

  -- The serialized form of an optional value.
  pub serialize_option : Option A → Result (Option Text)
  serialize_option none = Result.ok none
  serialize_option (some a) = elim (c.serialize a) [
    | Result.ok bytes ↦ Result.ok (some bytes)
    | Result.err x ↦ Result.err x
  ]

  pub get : Text → Text → Exec e.Db (Option A)
  unfolding transpose
  get store key = do found ← e.get store key; lift (transpose found)

  unfoldable pub put : Text → Text → A → Exec e.Db A
  put store key value = do
    serialized_value ← lift (c.serialize value)
    e.put store key serialized_value
    pure value

  pub compare_and_swap : Text → Text → Option A → Option A → Exec e.Db (Option A)
  unfolding serialize_option
  compare_and_swap store key old_value new_value = do
    serialized_old_value ← lift (serialize_option old_value)
    serialized_new_value ← lift (serialize_option new_value)
    e.compare_and_swap store key serialized_old_value serialized_new_value
    pure new_value

pub remove : (e : StorageEngine) → Text → Text → Exec e.Db (Unit {0})
remove e store key = e.remove store key

unfoldable pub exists : (e : StorageEngine) → Text → Text → Exec e.Db Bool
exists e store key = e.exists store key

pub flush : (e : StorageEngine) → Exec e.Db ℕ
flush e = e.flush
