-- ===== src/Daemon/Config.antt =====
-- `ConfigImpl` of src/daemon/engine/config.cpp.
--
-- The TOML tree is the record `Root` of the values that the program reads; `none` is a key that is missing or
-- has a value of another type, for which `toml::find` throws. `file` is what the file holds.
use yakut_native.Base.{ℕ, List, [], Bool, true, false, Option, none, some, if◌then◌else◌, Text}

abbrev pub UniqueId : Type 0
UniqueId = List ℕ

pub record Root : Type 0 where
  pub node_id : Option ℕ
  pub unique_id : Option UniqueId
  pub interfaces : Option (List Text)
  pub roots : Option (List Text)
  pub connections : Option (List Text)
  pub log_file : Option Text
  pub log_level : Option Text
  pub log_flush_level : Option Text
  pub last_modified : Option ℕ

pub record Config : Type 0 where
  pub root : Root
  pub is_dirty : Bool
  pub file : Root

-- `Config::make` of a file that is parsed.
unfoldable pub make : Root → Config
make root = record { root = root; is_dirty = false; file = root }

-- How a save goes: the text is written, the stream fails, which nothing tests, or something throws.
pub data Writing : Type 0 where
  written fails throws : Writing

unfoldable pub write : Writing → Config → Config
write written c = record c { file = c.root; is_dirty = false }
write fails c = record c { is_dirty = false }
write throws c = c

unfoldable pub save : ℕ → Writing → Config → Config
unfolding write
save now writing c =
    if c.is_dirty
    then write writing (record c { root = record c.root { last_modified = some now } })
    else c

-- `find_or` with an empty vector.
unfoldable pub or_empty : Option (List Text) → List Text
or_empty none = []
or_empty (some texts) = texts

unfoldable pub get_cyphal_app_node_id : Config → Option ℕ
get_cyphal_app_node_id c = c.root.node_id

unfoldable pub get_cyphal_app_unique_id : Config → Option UniqueId
get_cyphal_app_unique_id c = c.root.unique_id

unfoldable pub set_cyphal_app_unique_id : UniqueId → Config → Config
set_cyphal_app_unique_id id c = record c {
  root = record c.root { unique_id = some id };
  is_dirty = true;
}

unfoldable pub get_cyphal_transport_interfaces : Config → List Text
unfolding or_empty
get_cyphal_transport_interfaces c = or_empty c.root.interfaces

unfoldable pub get_file_server_roots : Config → List Text
unfolding or_empty
get_file_server_roots c = or_empty c.root.roots

unfoldable pub set_file_server_roots : List Text → Config → Config
set_file_server_roots roots c = record c {
  root = record c.root { roots = some roots };
  is_dirty = true;
}

unfoldable pub get_ipc_connections : Config → List Text
unfolding or_empty
get_ipc_connections c = or_empty c.root.connections

unfoldable pub get_logging_file : Config → Option Text
get_logging_file c = c.root.log_file

unfoldable pub get_logging_level : Config → Option Text
get_logging_level c = c.root.log_level

unfoldable pub get_logging_flush_level : Config → Option Text
get_logging_flush_level c = c.root.log_flush_level
