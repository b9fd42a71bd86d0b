-- ===== src/Batch/Registered.antt =====
-- What a batch of registrations does (packages/fss-mcp/src/fss_mcp/extensions/batch.py).
use fss_chassis.Base.{
  Bool, true, false, Text, text_eq, ◌==◌, Option, none, some, List, [], ◌∷◌, Result, returns,
  raises, if◌then◌else◌, is_some, ◌≡◌, refl, ap, sym, subst, ◌∙◌, ◌⊎◌, inl, inr, Bool-cases, All,
  arith,
}
use fss_chassis.Base.Dict.{Dict, lookup, has, IsDict}
use fss_chassis.Batch.{
  Method, Definition, tool_of, BatchError, rename_error, with_method, register_one, go_on,
  register_simple_tools,
}
use fss_chassis.Json.{Json}
use fss_chassis.Server.{Tool, Server}
use fss_chassis.Server.Registered.{register_tool-lookup}
use fss_chassis.Server.Registry.{RegistryError, register_tool}

rename_error-returns :
    (m : Result RegistryError Server) (s : Server) → rename_error m ≡ returns s → m ≡ returns s
rename_error-returns (returns t) s h = cc h
rename_error-returns (raises e) s h = cc h

-- Every tool of one server is one of another.
abbrev pub Keeps : Server → Server → Type 0
Keeps server new =
    (j : Text) (t : Tool) → lookup j server.tools ≡ some t → lookup j new.tools ≡ some t

only_fresh : (b : Bool) → (b ≡ false) ⊎ (false ≡ true) → b ≡ false
only_fresh b (inl e) = e
only_fresh b (inr e) = cc e

new_name-Keeps :
    (name : Text) (tool : Tool) (server new : Server)
    → has name server.tools ≡ false
    → ((j : Text) → lookup j new.tools ≡ (if name == j then some tool else lookup j server.tools))
    → Keeps server new
new_name-Keeps name tool server new fresh found j t e = elim (Bool-cases (name == j)) [
  | inl same ↦
      let there : lookup name server.tools ≡ some t =
        ap (λ k. lookup k server.tools) ((text_eq.same_iff name j).0 same) ∙ e in
      cc (sym (ap is_some there) ∙ fresh)
  | inr other ↦ found j ∙ ap (λ b. if b then some tool else lookup j server.tools) other ∙ e
]

module _ (write : Json → Text) (source : Dict Text Method) (default_version : Text) where
  -- A definition whose method exists stands in the registry as its tool.
  abbrev pub IsRegistered : Server → Definition → Type 0
  IsRegistered server d =
      (method : Method) × (lookup d.method source ≡ some method)
      × (lookup d.name server.tools ≡ some (tool_of write default_version d method))

  with_method-registers :
      (d : Definition) (server new : Server) (o : Option Method)
      → IsDict server.tools
      → with_method write source default_version d server o ≡ returns new
      → (method : Method) × (o ≡ some method)
        × (lookup d.name new.tools ≡ some (tool_of write default_version d method))
        × Keeps server new
        × IsDict new.tools
  with_method-registers d server new none dict h = cc h
  with_method-registers d server new (some method) dict h =
      let tool = tool_of write default_version d method in
      let (fresh, found, kept) =
        register_tool-lookup false d.name tool server new dict
          (rename_error-returns (register_tool false d.name tool server) new h) in
      (
        method,
        refl,
        ground (arith, found d.name, text_eq.same_iff d.name d.name),
        new_name-Keeps d.name tool server new (only_fresh (has d.name server.tools) fresh) found,
        kept,
      )

  IsRegistered-kept :
      (server new : Server)
      → Keeps server new
      → (d : Definition) → IsRegistered server d
      → IsRegistered new d
  IsRegistered-kept server new keeps d (method, found, there) =
      (method, found, keeps d.name (tool_of write default_version d method) there)

  abbrev pub Registers : List Definition → Server → Server → Type 0
  Registers ds server new = All (IsRegistered new) ds × Keeps server new × IsDict new.tools

  go_on-Registers :
      (d : Definition) (ds : List Definition) (server new : Server) (m : Result BatchError Server)
      → IsDict server.tools
      → register_one write source default_version d server ≡ m
      → go_on write source default_version
          (register_simple_tools write source default_version ds)
          server
          m
        ≡ (none, new)
      → ((middle : Server)
          → IsDict middle.tools
          → register_simple_tools write source default_version ds middle ≡ (none, new)
          → Registers ds middle new)
      → Registers (d ∷ ds) server new
  unfolding register_one
  go_on-Registers d ds server new (raises e) dict h k later = cc (ap (λ r. r.0) k)
  go_on-Registers d ds server new (returns middle) dict h k later =
      let (method, found, there, keeps, still) =
        with_method-registers d server middle (lookup d.method source) dict h in
      let (rest, kept, last) = later middle still k in
      (
        (IsRegistered-kept middle new kept d (method, found, there), rest),
        λ j t e. kept j t (keeps j t e),
        last,
      )

  -- A batch that ends with no error has registered every one of its definitions, each as the tool
  -- that wraps its own method, and has replaced no tool.
  pub register_simple_tools-registers :
      (ds : List Definition) (server new : Server)
      → IsDict server.tools
      → register_simple_tools write source default_version ds server ≡ (none, new)
      → All (IsRegistered new) ds × Keeps server new × IsDict new.tools
  unfolding register_simple_tools
  register_simple_tools-registers [] server new dict h =
      let same : server ≡ new = ap (λ r. r.1) h in
      (tt, subst (Keeps server) same (λ j t e. e), subst (λ (s : Server). IsDict s.tools) same dict)
  register_simple_tools-registers (d ∷ ds) server new dict h =
      go_on-Registers d ds server new (register_one write source default_version d server) dict refl
        h (λ middle. register_simple_tools-registers ds middle new)
