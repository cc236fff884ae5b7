-- ===== src/VmConfig.antt =====
-- The JSON `config` column of a VM (qarax/src/model/vms.rs): the keys that the control plane
-- reads and writes. An object is the list of its entries; a key stands in it once.
pub mod Laws
use qarax.Base.{
  ℕ, Bool, true, false, ◌||◌, not, Option, none, some, if◌then◌else◌, Text, ◌==◌, text_ord, codes,
}

mutual
  pub data Json : Type 0 where
    null : Json
    bool : Bool → Json
    number : ℕ → Json
    string : Text → Json
    array : Items → Json
    object : Fields → Json

  pub data Items : Type 0 where
    done : Items
    item : Json → Items → Items

  pub data Fields : Type 0 where
    end : Fields
    field : Text → Json → Fields → Fields

-- `Map::get`, `Map::insert` and `Map::remove`
unfoldable pub lookup : Text → Fields → Option Json
lookup k end = none
lookup k (field j v m) = if j == k then some v else lookup k m

unfoldable pub insert : Text → Json → Fields → Fields
insert k v end = field k v end
insert k v (field j w m) = if j == k then field k v m else field j w (insert k v m)

unfoldable pub remove : Text → Fields → Fields
remove k end = end
remove k (field j w m) = if j == k then remove k m else field j w (remove k m)

-- `Value::get`, `Value::as_bool` and `Value::as_str`
unfoldable pub get : Json → Text → Option Json
get (object m) k = lookup k m
get null k = none
get _ k = none

abbrev pub as_bool : Option Json → Option Bool
as_bool (some (bool b)) = some b
as_bool (some null) = none
as_bool (some _) = none
as_bool none = none

abbrev pub as_str : Option Json → Option Text
as_str (some (string s)) = some s
as_str (some null) = none
as_str (some _) = none
as_str none = none

abbrev pub unwrap_or_false : Option Bool → Bool
unwrap_or_false (some b) = b
unwrap_or_false none = false

abbrev pub or_else : Option Bool → Option Bool → Option Bool
or_else (some b) other = some b
or_else none other = other

abbrev pub guest_agent_key : Text
guest_agent_key = codes "guest_agent"

abbrev pub legacy_sandbox_exec_key : Text
legacy_sandbox_exec_key = codes "sandbox_exec"

abbrev pub ha_enabled_key : Text
ha_enabled_key = codes "ha_enabled"

abbrev pub failed_over_from_key : Text
failed_over_from_key = codes "failed_over_from"

unfoldable pub guest_agent_enabled : Json → Bool
guest_agent_enabled config =
    unwrap_or_false (
      or_else (as_bool (get config guest_agent_key)) (as_bool (get config legacy_sandbox_exec_key)))

-- `default_vm_config` is the empty object.
unfoldable pub default_vm_config : Json
default_vm_config = object end

-- The object that a setter edits: the config's own, or that of the default config.
unfoldable pub object_or_default : Json → Fields
object_or_default (object m) = m
object_or_default null = end
object_or_default _ = end

unfoldable pub set_guest_agent_config : Json → Bool → Json
set_guest_agent_config config enabled = object (
    remove legacy_sandbox_exec_key
      (insert guest_agent_key (bool enabled) (object_or_default config)))

unfoldable pub ha_enabled : Json → Bool
ha_enabled config = unwrap_or_false (as_bool (get config ha_enabled_key))

unfoldable pub set_ha_enabled_config : Json → Bool → Json
set_ha_enabled_config config enabled =
    object (insert ha_enabled_key (bool enabled) (object_or_default config))

-- The `uuid` crate's printer and parser.
pub record UuidText : Type 0 where
  pub to_string : ℕ → Text
  pub parse_str : Text → Option ℕ

module _ (uuid : UuidText) where
  parse : Option Text → Option ℕ
  parse (some s) = uuid.parse_str s
  parse none = none

  unfoldable pub failed_over_from : Json → Option ℕ
  unfolding parse
  failed_over_from config = parse (as_str (get config failed_over_from_key))

  unfoldable pub set_failed_over_from : Json → Option ℕ → Json
  set_failed_over_from config (some host_id) =
      object
        (insert failed_over_from_key (string (uuid.to_string host_id)) (object_or_default config))
  set_failed_over_from config none = object (remove failed_over_from_key (object_or_default config))
