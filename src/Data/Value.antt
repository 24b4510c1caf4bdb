-- ===== src/Data/Value.antt =====
-- The Python values that are sent as JSON (python_binding/lsm/_data.py). A dict is its items in their
-- order, with no key twice. Numbers are integers: no message of the library needs another.
use libstoragemgmt.Base.{
  ℕ, ℤ, String, List, Bool, false, ◌||◌, Option, none, some, str_eq, if◌then◌else◌,
}

-- the classes derived from IData, less Capabilities
pub data Class : Type 0 where
  disk volume system pool file_system fs_snapshot nfs_export block_range : Class
  access_group target_port battery : Class

-- `str` has the code points of a text. `obj` is an instance of a class derived from IData, with its
-- attributes by their names without the underscore; `caps` is an instance of Capabilities with its
-- bytearray; `other` is an object that json.dumps does not know.
mutual
  pub data Value : Type 0 where
    null : Value
    bool : Bool → Value
    num : ℤ → Value
    str : List ℕ → Value
    list : Items → Value
    dict : Fields → Value
    obj : Class → Fields → Value
    caps : List ℕ → Value
    other : Value

  pub data Items : Type 0 where
    nil : Items
    cons : Value → Items → Items

  pub data Fields : Type 0 where
    end : Fields
    field : String → Value → Fields → Fields

-- `d.get(k)`, with none for a key that is not there
unfoldable pub get : String → Fields → Option Value
get k end = none
get k (field j v fs) = if str_eq j k then some v else get k fs

-- `k in d`
unfoldable pub has : String → Fields → Bool
has k end = false
has k (field j v fs) = str_eq j k || has k fs
