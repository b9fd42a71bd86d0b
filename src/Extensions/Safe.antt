-- ===== src/Extensions/Safe.antt =====
-- Which extension files are loaded, and in which order
-- (packages/fss-mcp/src/fss_mcp/extensions/__init__.py).
use fss_chassis.Base.{
  Bool, not, ◌&&◌, Text, text, text_eq, ◌==◌, Option, none, some, List, [], ◌∷◌, ◌++◌, map, Result,
  returns, raises, remove_if, ◌≡◌, refl, ap, sym, ◌∙◌, inl, inr, Bool-cases,
}
use fss_chassis.Extensions.{
  File, Module, is_module_name, check_file_permissions, load_extension, module_name_of, scan_file,
  scan_directory, scan_locations, scan_subdir, scan_spec, scan_packages, discover_extensions,
  FindError, Spec, find_raises, not_found, found_at,
}
use fss_chassis.Server.{Server}

-- A file that may not be loaded
abbrev pub is_barred : Bool → File → Bool
is_barred windows file = not (
    not (file.name == text "__init__.py")
    && (is_module_name file.stem && check_file_permissions windows file))

-- The modules of the files of a directory that may be loaded
abbrev pub modules_of : Bool → Text → List File → List Text
modules_of windows module_prefix files =
    map (module_name_of module_prefix) (remove_if (is_barred windows) files)

abbrev pub modules_in : Bool → Text → List (List File) → List Text
modules_in windows name [] = []
modules_in windows name (files ∷ rest) =
    modules_of windows name files ++ modules_in windows name rest

abbrev pub modules_if : Bool → Text → Option (List File) → List Text
modules_if windows module_prefix none = []
modules_if windows module_prefix (some files) = modules_of windows module_prefix files

abbrev pub modules_by : Bool → Text → List Text → Spec → List Text
modules_by windows name rest (find_raises e) = []
modules_by windows name rest not_found = rest
modules_by windows name rest (found_at locations) = modules_in windows name locations ++ rest

-- The modules of the packages up to the first whose search raises
abbrev pub modules_of_packages : Bool → (Text → Spec) → List Text → List Text
modules_of_packages windows find_spec [] = []
modules_of_packages windows find_spec (name ∷ names) =
    modules_by windows name (modules_of_packages windows find_spec names) (find_spec name)

abbrev pub error_by : Result FindError (Unit {0}) → Spec → Result FindError (Unit {0})
error_by rest (find_raises e) = raises e
error_by rest not_found = rest
error_by rest (found_at locations) = rest

-- What the first search that raises ends the discovery with
abbrev pub first_error : (Text → Spec) → List Text → Result FindError (Unit {0})
first_error find_spec [] = returns tt
first_error find_spec (name ∷ names) = error_by (first_error find_spec names) (find_spec name)

-- All that are loaded: those of the three subdirectories, and then those of the packages.
abbrev pub loaded_modules :
    Bool → (Text → Option (List File)) → (Text → Spec) → List Text → List Text
loaded_modules windows subdir find_spec extra_packages =
    modules_if windows (text "fss_mcp.extensions.tools") (subdir (text "tools"))
    ++ modules_if windows (text "fss_mcp.extensions.resources") (subdir (text "resources"))
    ++ modules_if windows (text "fss_mcp.extensions.prompts") (subdir (text "prompts"))
    ++ modules_of_packages windows find_spec extra_packages

module _ (import_module : Text → Module) (windows : Bool) where
  abbrev pub load_all : List Text → Server → Server
  load_all [] server = server
  load_all (name ∷ names) server = load_all names (load_extension import_module windows name server)

  load_all-append :
      (xs ys : List Text) (server : Server)
      → load_all (xs ++ ys) server ≡ load_all ys (load_all xs server)
  load_all-append [] ys server = refl
  load_all-append (x ∷ xs) ys server =
      load_all-append xs ys (load_extension import_module windows x server)

  scan_file-loads :
      (module_prefix : Text) (file : File) (server : Server)
      → scan_file import_module windows module_prefix file server
        ≡ load_all (modules_of windows module_prefix (file ∷ [])) server
  unfolding scan_file
  scan_file-loads module_prefix file server = elim (Bool-cases (file.name == text "__init__.py")) [
    | inl init ↦ rw init refl
    | inr named ↦ elim (Bool-cases (is_module_name file.stem)) [
      | inr invalid ↦ rw named (rw invalid refl)
      | inl valid ↦ elim (Bool-cases (check_file_permissions windows file)) [
        | inr unsafe ↦ rw named (rw valid (rw unsafe refl))
        | inl safe ↦ rw named (rw valid (rw safe refl))
      ]
    ]
  ]

  modules_of-cons :
      (module_prefix : Text) (file : File) (files : List File)
      → modules_of windows module_prefix (file ∷ files)
        ≡ modules_of windows module_prefix (file ∷ []) ++ modules_of windows module_prefix files
  modules_of-cons module_prefix file files = elim (Bool-cases (is_barred windows file)) [
    | inl barred ↦ rw barred refl
    | inr free ↦ rw free refl
  ]

  scan_directory-loads :
      (files : List File) (module_prefix : Text) (server : Server)
      → scan_directory import_module windows files module_prefix server
        ≡ load_all (modules_of windows module_prefix files) server
  unfolding scan_directory
  scan_directory-loads [] module_prefix server = refl
  scan_directory-loads (file ∷ files) module_prefix server =
      let first = modules_of windows module_prefix (file ∷ []) in
      let rest = modules_of windows module_prefix files in
      scan_directory-loads files module_prefix
        (scan_file import_module windows module_prefix file server)
      ∙ ap (load_all rest) (scan_file-loads module_prefix file server)
      ∙ sym (load_all-append first rest server)
      ∙ ap (λ ms. load_all ms server) (sym (modules_of-cons module_prefix file files))

  scan_locations-loads :
      (locations : List (List File)) (name : Text) (server : Server)
      → scan_locations import_module windows locations name server
        ≡ load_all (modules_in windows name locations) server
  scan_locations-loads [] name server = refl
  scan_locations-loads (files ∷ rest) name server =
      scan_locations-loads rest name (scan_directory import_module windows files name server)
      ∙ ap (load_all (modules_in windows name rest)) (scan_directory-loads files name server)
      ∙ sym (load_all-append (modules_of windows name files) (modules_in windows name rest) server)

  scan_subdir-loads :
      (o : Option (List File)) (module_prefix : Text) (server : Server)
      → scan_subdir import_module windows o module_prefix server
        ≡ load_all (modules_if windows module_prefix o) server
  scan_subdir-loads none module_prefix server = refl
  scan_subdir-loads (some files) module_prefix server =
      scan_directory-loads files module_prefix server

  scan_spec-loads :
      (name : Text) (go_on : Server → Result FindError (Unit {0}) × Server)
      (error : Result FindError (Unit {0})) (rest : List Text) (server : Server) (spec : Spec)
      → ((server : Server) → go_on server ≡ (error, load_all rest server))
      → scan_spec import_module windows name go_on server spec
        ≡ (error_by error spec, load_all (modules_by windows name rest spec) server)
  scan_spec-loads name go_on error rest server (find_raises e) later = refl
  scan_spec-loads name go_on error rest server not_found later = later server
  scan_spec-loads name go_on error rest server (found_at locations) later =
      later (scan_locations import_module windows locations name server)
      ∙ ap (λ s. (error, s))
          (ap (load_all rest) (scan_locations-loads locations name server)
            ∙ sym (load_all-append (modules_in windows name locations) rest server))

  scan_packages-loads :
      (find_spec : Text → Spec) (names : List Text) (server : Server)
      → scan_packages import_module windows find_spec names server ≡ (
        first_error find_spec names,
        load_all (modules_of_packages windows find_spec names) server,
      )
  scan_packages-loads find_spec [] server = refl
  scan_packages-loads find_spec (name ∷ names) server =
      scan_spec-loads name (scan_packages import_module windows find_spec names)
        (first_error find_spec names) (modules_of_packages windows find_spec names) server
        (find_spec name) (scan_packages-loads find_spec names)

  -- The discovery loads, one after the other, the modules of exactly those files that are no
  -- `__init__.py`, have the name of a module and, but on Windows, have a mode that can be read and
  -- does not let others write: those of the three subdirectories, and then those of the packages
  -- that are named, up to the first whose search raises. It ends with what that search raises, and
  -- returns if none does.
  pub discover_extensions-loads :
      (subdir : Text → Option (List File)) (find_spec : Text → Spec) (extra_packages : List Text)
      (server : Server)
      → discover_extensions import_module windows subdir find_spec extra_packages server ≡ (
        first_error find_spec extra_packages,
        load_all (loaded_modules windows subdir find_spec extra_packages) server,
      )
  unfolding discover_extensions
  discover_extensions-loads subdir find_spec extra_packages server =
      let tools = modules_if windows (text "fss_mcp.extensions.tools") (subdir (text "tools")) in
      let resources =
        modules_if windows (text "fss_mcp.extensions.resources") (subdir (text "resources")) in
      let prompts =
        modules_if windows (text "fss_mcp.extensions.prompts") (subdir (text "prompts")) in
      let packages = modules_of_packages windows find_spec extra_packages in
      let s1 = scan_subdir-loads (subdir (text "tools")) (text "fss_mcp.extensions.tools") server in
      let s2 =
        scan_subdir-loads (subdir (text "resources")) (text "fss_mcp.extensions.resources") _
        ∙ ap (load_all resources) s1
        ∙ sym (load_all-append tools resources server) in
      let s3 =
        scan_subdir-loads (subdir (text "prompts")) (text "fss_mcp.extensions.prompts") _
        ∙ ap (load_all prompts) s2
        ∙ sym (load_all-append (tools ++ resources) prompts server) in
      scan_packages-loads find_spec extra_packages _
      ∙ ap (λ s. (first_error find_spec extra_packages, s))
          (ap (load_all packages) s3
            ∙ sym (load_all-append (tools ++ resources ++ prompts) packages server))
