-- ===== src/Extensions.antt =====
-- The discovery of extensions: packages/fss-mcp/src/fss_mcp/extensions/__init__.py.
-- A directory is its .py files in the order of their paths. What importing a module gives is an
-- argument, and so is what its `register` does to the server; an exception of it is logged, and what it
-- registered before stays.
pub mod Safe
mod Tests
use fss_chassis.Base.{
  ℕ, ◌/◌, ◌%◌, Bool, true, false, not, ◌&&◌, ◌||◌, Text, text, text_eq, ◌==◌, Option, none, some,
  List, [], ◌∷◌, ◌++◌, leb, nat_eq, if◌then◌else◌, Result, returns, raises,
}
use fss_chassis.Integrity.Cai.{at_end}
use fss_chassis.Server.{Server}

-- `mode` is that of `stat`, which can raise an OSError.
pub record File : Type 0 where
  pub name : Text
  pub stem : Text
  pub mode : Option ℕ

pub data Module : Type 0 where
  import_fails : Module
  no_register : Module
  not_callable : Module
  registers : (Server → Server) → Module

-- `find_spec` raises for a dotted name whose parent cannot be imported, and for a module that has no
-- spec.
pub data FindError : Type 0 where
  module_not_found value_error other_error : FindError

-- What `find_spec` does; `not_found` is also a module that is no package.
pub data Spec : Type 0 where
  find_raises : FindError → Spec
  not_found : Spec
  found_at : List (List File) → Spec

abbrev is_letter : ℕ → Bool
is_letter c = (leb b'a' c && leb c b'z') || (leb b'A' c && leb c b'Z') || nat_eq c b'_'

abbrev is_digit : ℕ → Bool
is_digit c = leb b'0' c && leb c b'9'

-- [a-zA-Z0-9_]*$, where no newline is one of these
abbrev matches_rest : Text → Bool
matches_rest [] = true
matches_rest (c ∷ s) =
    let rest = matches_rest s in if is_letter c || is_digit c then rest else at_end (c ∷ s)

-- _VALID_MODULE_NAME_RE
unfoldable pub is_module_name : Text → Bool
is_module_name [] = false
is_module_name (c ∷ s) = is_letter c && matches_rest s

-- st_mode & S_IWOTH
unfoldable pub is_world_writable : ℕ → Bool
is_world_writable mode = nat_eq (mode / 2 % 2) 1

abbrev safe_mode : Option ℕ → Bool
safe_mode none = false
safe_mode (some mode) = not (is_world_writable mode)

unfoldable pub check_file_permissions : Bool → File → Bool
check_file_permissions windows file = if windows then true else safe_mode file.mode

abbrev pub run_register : Module → Server → Server
run_register import_fails server = server
run_register no_register server = server
run_register not_callable server = server
run_register (registers f) server = f server

abbrev pub module_name_of : Text → File → Text
module_name_of module_prefix file = module_prefix ++ (b'.' ∷ file.stem)

module _ (import_module : Text → Module) (windows : Bool) where
  unfoldable pub load_extension : Text → Server → Server
  load_extension module_name server = run_register (import_module module_name) server

  unfoldable pub scan_file : Text → File → Server → Server
  scan_file module_prefix file server =
      if file.name == text "__init__.py"
      then server
      else if not (is_module_name file.stem)
      then server
      else if not (check_file_permissions windows file)
      then server
      else load_extension (module_name_of module_prefix file) server

  unfoldable pub scan_directory : List File → Text → Server → Server
  scan_directory [] module_prefix server = server
  scan_directory (file ∷ files) module_prefix server =
      scan_directory files module_prefix (scan_file module_prefix file server)

  abbrev pub scan_locations : List (List File) → Text → Server → Server
  scan_locations [] name server = server
  scan_locations (files ∷ rest) name server =
      scan_locations rest name (scan_directory files name server)

  -- A subdirectory that is not there is passed over.
  abbrev pub scan_subdir : Option (List File) → Text → Server → Server
  scan_subdir none module_prefix server = server
  scan_subdir (some files) module_prefix server = scan_directory files module_prefix server

  -- An exception of `find_spec` is not caught, and what was registered before it stays.
  abbrev pub scan_spec :
      Text
      → (Server → Result FindError (Unit {0}) × Server)
      → Server
      → Spec
      → Result FindError (Unit {0}) × Server
  scan_spec name go_on server (find_raises e) = (raises e, server)
  scan_spec name go_on server not_found = go_on server
  scan_spec name go_on server (found_at locations) = go_on (scan_locations locations name server)

  abbrev pub scan_packages :
      (Text → Spec) → List Text → Server → Result FindError (Unit {0}) × Server
  scan_packages find_spec [] server = (returns tt, server)
  scan_packages find_spec (name ∷ names) server =
      scan_spec name (scan_packages find_spec names) server (find_spec name)

  unfoldable pub discover_extensions :
      (Text → Option (List File))
      → (Text → Spec)
      → List Text
      → Server
      → Result FindError (Unit {0}) × Server
  discover_extensions subdir find_spec extra_packages server =
      scan_packages find_spec extra_packages (
        scan_subdir (subdir (text "prompts")) (text "fss_mcp.extensions.prompts") (
          scan_subdir (subdir (text "resources")) (text "fss_mcp.extensions.resources")
            (scan_subdir (subdir (text "tools")) (text "fss_mcp.extensions.tools") server)))
