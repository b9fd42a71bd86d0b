-- ===== src/Extensions/Tests.antt =====
-- A discovery of two files, and the theorem at it
-- (packages/fss-mcp/src/fss_mcp/extensions/__init__.py).
use fss_chassis.Base.{
  false, Text, text, text_eq, ◌==◌, Option, none, some, List, [], ◌∷◌, if◌then◌else◌, returns,
  raises, ◌≡◌, refl,
}
use fss_chassis.Extensions.{
  File, Module, no_register, registers, is_module_name, is_world_writable, check_file_permissions,
  load_extension, scan_file, scan_directory, discover_extensions, Spec, find_raises, found_at,
  module_not_found,
}
use fss_chassis.Extensions.Safe.{loaded_modules, load_all, discover_extensions-loads}
use fss_chassis.Server.Samples.{server}

-- 0o644 and 0o666
abbrev closed_file : File
closed_file = record { name = text "a.py"; stem = text "a"; mode = some 0x1a4 }

abbrev open_file : File
open_file = record { name = text "b.py"; stem = text "b"; mode = some 0x1b6 }

abbrev empties : Module
empties = registers (λ s. record s { tools = [] })

abbrev subdir : Text → Option (List File)
subdir name = if name == text "tools" then some (closed_file ∷ open_file ∷ []) else none

-- The module of the open file would empty the registry.
abbrev import_module : Text → Module
import_module name = if name == text "fss_mcp.extensions.tools.b" then empties else no_register

-- The parent of a dotted name is missing.
abbrev find_spec : Text → Spec
find_spec name =
    if name == text "gone.tools"
    then find_raises module_not_found
    else found_at ((open_file ∷ []) ∷ [])

not_emptied :
    discover_extensions import_module false subdir find_spec (text "more" ∷ []) server
    ≡ (returns tt, server)
unfolding discover_extensions scan_directory scan_file load_extension is_module_name
    check_file_permissions is_world_writable
not_emptied = refl

ended :
    discover_extensions import_module false subdir find_spec
      (text "gone.tools" ∷ text "more" ∷ [])
      server
    ≡ (raises module_not_found, server)
unfolding discover_extensions scan_directory scan_file load_extension is_module_name
    check_file_permissions is_world_writable
ended = refl

abbrev packages : List Text
packages = text "more" ∷ text "gone.tools" ∷ []

discover_extensions-loads_example :
    discover_extensions import_module false subdir find_spec packages server ≡ (
      raises module_not_found,
      load_all import_module false (loaded_modules false subdir find_spec packages) server,
    )
discover_extensions-loads_example =
    discover_extensions-loads import_module false subdir find_spec packages server

only_closed :
    loaded_modules false subdir find_spec packages ≡ text "fss_mcp.extensions.tools.a" ∷ []
unfolding is_module_name check_file_permissions is_world_writable
only_closed = refl
