-- ===== src/Server/Registered.antt =====
-- What a registration does to the server (packages/fss-mcp/src/fss_mcp/server.py).
use fss_chassis.Base.{
  Bool, true, false, not, ◌&&◌, Text, text_eq, ◌==◌, some, if◌then◌else◌, Result, returns, raises,
  ◌≡◌, refl, ap, sym, subst, ◌∙◌, ◌⊎◌, inl, inr,
}
use fss_chassis.Base.Dict.{Dict, lookup, has, insert, IsDict, lookup-insert, insert-IsDict}
use fss_chassis.Server.{Tool, Server}
use fss_chassis.Server.Registry.{
  RegistryError, already_registered, keep_tools, register, register_tool,
}

branch-returns :
    {A : Type 0} (taken allow_overwrite : Bool) (name : Text) (d e : Dict Text A)
    → (if taken && not allow_overwrite then raises (already_registered name) else returns d)
      ≡ returns e
    → (d ≡ e) × ((taken ≡ false) ⊎ (allow_overwrite ≡ true))
branch-returns true true name d e h = (cc h, inr refl)
branch-returns true false name d e h = cc h
branch-returns false allow_overwrite name d e h = (cc h, inl refl)

keep_tools-returns :
    (server new : Server) (m : Result RegistryError (Dict Text Tool))
    → keep_tools server m ≡ returns new
    → (d : Dict Text Tool) × (m ≡ returns d) × (new ≡ record server { tools = d })
keep_tools-returns server new (returns d) h = (d, refl, cc h)
keep_tools-returns server new (raises e) h = cc h

-- The tool registry is a finite map. A registration that returns was of a new name, or was allowed
-- to overwrite; then the name leads to the tool, every other name leads where it led, and no name
-- stands twice.
pub register_tool-lookup :
    (allow_overwrite : Bool) (name : Text) (tool : Tool) (server new : Server)
    → IsDict server.tools
    → register_tool allow_overwrite name tool server ≡ returns new
    → ((has name server.tools ≡ false) ⊎ (allow_overwrite ≡ true))
      × ((j : Text) → lookup j new.tools ≡ (if name == j then some tool else lookup j server.tools))
      × IsDict new.tools
unfolding register_tool register
register_tool-lookup allow_overwrite name tool server new dict h =
    let (d, made, same) =
      keep_tools-returns server new (register allow_overwrite name tool server.tools) h in
    let (inserted, may) =
      branch-returns (has name server.tools) allow_overwrite name (insert name tool server.tools) d
        made in
    let tools : insert name tool server.tools ≡ new.tools =
      inserted ∙ sym (ap (λ s. s.tools) same) in
    (
      may,
      λ j. sym (ap (lookup j) tools) ∙ lookup-insert name j tool server.tools,
      subst IsDict tools (insert-IsDict name tool server.tools dict),
    )
