-- ===== src/Server/Registry.antt =====
-- Registration and listing (packages/fss-mcp/src/fss_mcp/server.py).
use fss_chassis.Base.{
  Bool, not, ◌&&◌, Text, text_eq, Option, none, some, List, [], ◌∷◌, map, if◌then◌else◌, Result,
  returns, raises,
}
use fss_chassis.Base.Dict.{Dict, has, insert}
use fss_chassis.Server.{Tool, Resource, Prompt, PromptArgument, Server}

-- ValueError
pub data RegistryError : Type 0 where
  already_registered : Text → RegistryError

-- The body that the three registrations share
unfoldable pub register :
    {A : Type 0} → Bool → Text → A → Dict Text A → Result RegistryError (Dict Text A)
register allow_overwrite name a d =
    if has name d && not allow_overwrite
    then raises (already_registered name)
    else returns (insert name a d)

abbrev pub keep_tools : Server → Result RegistryError (Dict Text Tool) → Result RegistryError Server
keep_tools server (returns d) = returns (record server { tools = d })
keep_tools server (raises e) = raises e

abbrev keep_resources :
    Server → Result RegistryError (Dict Text Resource) → Result RegistryError Server
keep_resources server (returns d) = returns (record server { resources = d })
keep_resources server (raises e) = raises e

abbrev keep_prompts : Server → Result RegistryError (Dict Text Prompt) → Result RegistryError Server
keep_prompts server (returns d) = returns (record server { prompts = d })
keep_prompts server (raises e) = raises e

unfoldable pub register_tool : Bool → Text → Tool → Server → Result RegistryError Server
register_tool allow_overwrite name tool server =
    keep_tools server (register allow_overwrite name tool server.tools)

-- name or uri
abbrev name_or : Text → Text → Text
name_or [] uri = uri
name_or (c ∷ name) uri = c ∷ name

unfoldable pub register_resource : Bool → Text → Resource → Server → Result RegistryError Server
register_resource allow_overwrite uri resource server = keep_resources server (
    register allow_overwrite uri (record resource { name = name_or resource.name uri })
      server.resources)

unfoldable pub register_prompt : Bool → Text → Prompt → Server → Result RegistryError Server
register_prompt allow_overwrite name prompt server =
    keep_prompts server (register allow_overwrite name prompt server.prompts)

unfoldable pub list_tool_names : Server → List Text
list_tool_names server = map (λ p. p.0) server.tools

unfoldable pub list_resource_uris : Server → List Text
list_resource_uris server = map (λ p. p.0) server.resources

unfoldable pub list_prompt_names : Server → List Text
list_prompt_names server = map (λ p. p.0) server.prompts

-- types.Prompt; no arguments are None.
pub record PromptEntry : Type 0 where
  pub name : Text
  pub description : Option Text
  pub arguments : Option (List PromptArgument)

abbrev unless_empty : List PromptArgument → Option (List PromptArgument)
unless_empty [] = none
unless_empty (a ∷ as') = some (a ∷ as')

unfoldable pub build_prompt_list : Server → List PromptEntry
build_prompt_list server =
    map
      (λ p. record {
        name = p.0;
        description = p.1.description;
        arguments = unless_empty p.1.arguments;
      })
      server.prompts
