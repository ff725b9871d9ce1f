-- ===== src/Protocol/Lifecycle.antt =====
-- include/clsp/protocol/Lifecycle.hpp.
use clsp.Base.{String, Option, none, some, [], ◌∷◌, if◌then◌else◌, string_eq}
use clsp.Base.Int.{ℤ}
use clsp.Errors.{Result, ok, ◌>>=◌}
use clsp.Json.{JsonLib, at, assign_all}
use clsp.Protocol.{read_optional, read_present, put_optional}
use clsp.Protocol.Capabilities.{
  ClientCapabilities, ServerCapabilities, client_capabilities_from_json,
  server_capabilities_to_json,
}

-- `InitializeParams::ClientInfo` and `InitializeResult::ServerInfo`
pub record Info : Type 0 where
  pub name : String
  pub version : Option String

pub record InitializeParams (Json : Type 0) : Type 0 where
  pub process_id : Option ℤ
  pub client_info : Option Info
  pub root_path : Option String
  pub root_uri : Option String
  pub initialization_options : Option Json
  pub capabilities : ClientCapabilities
  pub trace : Option String

pub record InitializeResult : Type 0 where
  pub capabilities : ServerCapabilities
  pub server_info : Option Info

module _ (J : JsonLib) where
  open J use {Json, find, is_object, get_string, get_int, null, of_string, assign}

  unfoldable pub client_info_from_json : Json → Result Info
  unfolding read_present
  client_info_from_json j = do
    n ← at J j "name"
    name ← get_string n
    version ← read_present J get_string "version" j
    ok (record { name = name; version = version })

  -- `capabilities`, where it is an object.
  unfoldable pub read_capabilities : Json → Result ClientCapabilities
  unfolding client_capabilities_from_json
  read_capabilities j = elim (find "capabilities" j) [
    | none ↦ ok (record { general = none })
    | some c ↦
        if is_object c then client_capabilities_from_json J c else ok (record { general = none })
  ]

  unfoldable pub initialize_params_from_json : Json → Result (InitializeParams Json)
  unfolding read_optional read_present client_info_from_json read_capabilities
  initialize_params_from_json j = do
    process_id ← read_optional J get_int "processId" j
    client_info ← read_present J client_info_from_json "clientInfo" j
    root_path ← read_optional J get_string "rootPath" j
    root_uri ← read_optional J get_string "rootUri" j
    options ← read_optional J ok "initializationOptions" j
    trace ← read_optional J get_string "trace" j
    capabilities ← read_capabilities j
    ok (record {
      process_id = process_id;
      client_info = client_info;
      root_path = root_path;
      root_uri = root_uri;
      initialization_options = options;
      capabilities = capabilities;
      trace = trace;
    })

  unfoldable pub server_info_to_json : Info → Json
  unfolding put_optional
  server_info_to_json si =
      put_optional J of_string "version" si.version
        (assign_all J null (("name", of_string si.name) ∷ []))

  unfoldable pub initialize_result_to_json : InitializeResult → Json
  unfolding put_optional server_info_to_json server_capabilities_to_json
  initialize_result_to_json r =
      put_optional J server_info_to_json "serverInfo" r.server_info
        (assign_all J null (("capabilities", server_capabilities_to_json J r.capabilities) ∷ []))
