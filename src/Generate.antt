-- ===== src/Generate.antt =====
-- internal/generator/openapi.go: the generator and its sections (NewWithConfig, Generate). The
-- document is the values that marshalYAMLSection hands to the YAML encoder, a library; an error
-- of the encoder is not modelled.
pub mod Complete
pub mod Servers
use go_bricks_openapi.Prelude.{
  String, Bool, true, false, not, Option, none, some, List, [], ◌∷◌, ◌==◌, if◌then◌else◌,
}
use go_bricks_openapi.Prelude.Dict.{Dict, insert}
use go_bricks_openapi.Go.{Go}
use go_bricks_openapi.Models.{TypeInfo, Route, Project}
use go_bricks_openapi.Document.{PathItem, Schema}
use go_bricks_openapi.Routes.Emitted.{or_text, get_all_routes, emitted_routes}
use go_bricks_openapi.Routes.Ids.{assign_operation_ids, ◌>>=◌}
use go_bricks_openapi.Operations.Paths.{build_paths}
use go_bricks_openapi.Components.Names.{referenced_schema_names}
use go_bricks_openapi.Components.Standard.{create_standard_schemas}
use go_bricks_openapi.Components.Schemas.{generate_schemas_from_types, route_type_registry}

pub record License : Type 0 where
  pub name : String
  pub url : String

pub record Config : Type 0 where
  pub title : String
  pub version : String
  pub description : String
  pub servers : List String
  pub license : Option License
  pub disable_tenant_security : Bool
  pub tenant_header : String

pub record OpenApiGenerator : Type 0 where
  pub title : String
  pub version : String
  pub description : String
  pub servers : List String
  pub license : Option License
  pub tenant_auth : Bool
  pub tenant_header : String

pub record Server : Type 0 where
  pub url : String
  pub description : String

pub record SecurityScheme : Type 0 where
  pub typ : String
  pub location : String
  pub name : String
  pub description : String

pub record Info : Type 0 where
  pub title : String
  pub version : String
  pub description : String
  pub license : Option License

-- The sections in the order in which they are written.
pub record Document (F : Type 0) : Type 0 where
  pub info : Info
  pub servers : List Server
  pub paths : Dict (PathItem F)
  pub schemas : Dict (Schema F)
  pub security_schemes : Option (Dict SecurityScheme)
  pub security : Option (List (Dict (List String)))

unfoldable pub default_servers : List Server
default_servers = record { url = "/"; description = "Relative to the deployment host" } ∷ []

abbrev tenant_scheme_description : String
tenant_scheme_description =
    "Tenant identifier. Enforced only when the service runs with multitenancy enabled and a header-based tenant resolver; a missing or invalid tenant yields HTTP 400. Deployments resolving the tenant from the subdomain or URL path do not read this header."

unfoldable pub security_schemes : OpenApiGenerator → Dict SecurityScheme
security_schemes g =
    (
      "TenantID",
      record {
        typ = "apiKey";
        location = "header";
        name = g.tenant_header;
        description = tenant_scheme_description;
      },
    )
    ∷ []

unfoldable pub root_security : List (Dict (List String))
root_security = (("TenantID", []) ∷ []) ∷ []

-- getTitle, getVersion, getDescription: the configured value, the project's, the default.
unfoldable pub get_title : OpenApiGenerator → Project → String
get_title g p = or_text g.title (or_text p.name "Go-Bricks API")

unfoldable pub get_version : OpenApiGenerator → Project → String
get_version g p = or_text g.version (or_text p.version "1.0.0")

unfoldable pub get_description : OpenApiGenerator → Project → String
get_description g p = or_text g.description (or_text p.description "Generated API specification")

-- A license with no name is left out.
abbrev named_license : Option License → Option License
named_license none = none
named_license (some l) = if l.name == "" then none else some l

-- maps.Copy: every entry of the second map is written into the first.
unfoldable pub copy_into {ℓ} : {V : Type ℓ} → Dict V → Dict V → Dict V
copy_into dst [] = dst
copy_into dst ((k, v) ∷ src) = copy_into (insert k v dst) src

abbrev empty_config : Config
empty_config = record {
  title = "";
  version = "";
  description = "";
  servers = [];
  license = none;
  disable_tenant_security = false;
  tenant_header = "";
}

abbrev or_empty {ℓ} : {A : Type ℓ} → A → Option A → A
or_empty d none = d
or_empty d (some a) = a

module _ (go : Go) where
  open go use {Float, trim_space}

  abbrev generator_of : Config → OpenApiGenerator
  generator_of cfg = record {
    title = cfg.title;
    version = cfg.version;
    description = cfg.description;
    servers = cfg.servers;
    license = cfg.license;
    tenant_auth = not cfg.disable_tenant_security;
    tenant_header = or_text (trim_space cfg.tenant_header) "X-Tenant-ID";
  }

  -- A nil configuration reads as the empty one.
  unfoldable pub new_with_config : Option Config → OpenApiGenerator
  new_with_config cfg = generator_of (or_empty empty_config cfg)

  unfoldable pub trimmed_servers : List String → List Server
  trimmed_servers [] = []
  trimmed_servers (u ∷ us) =
      if trim_space u == ""
      then trimmed_servers us
      else record { url = trim_space u; description = "" } ∷ trimmed_servers us

  abbrev pub or_default : List Server → List Server
  or_default [] = default_servers
  or_default (s ∷ ss) = s ∷ ss

  unfoldable pub configured_servers : OpenApiGenerator → List Server
  configured_servers g = or_default (trimmed_servers g.servers)

  unfoldable pub info_of : OpenApiGenerator → Project → Info
  info_of g p = record {
    title = get_title g p;
    version = get_version g p;
    description = get_description g p;
    license = named_license g.license;
  }

  -- project.Types, or the flat registry of a project without one.
  unfoldable pub types_of : Project → Dict (Option TypeInfo)
  types_of p = or_empty (route_type_registry p) p.types

  -- The component schemas: the generated ones override the standard ones.
  unfoldable pub schemas_of : Project → List Route → Option (Dict (Schema Float))
  schemas_of p emitted = do
    standard ← create_standard_schemas emitted
    some (
        copy_into standard (
          generate_schemas_from_types go (types_of p)
            (referenced_schema_names emitted (types_of p))))

  abbrev when : {A : Type 0} → Bool → A → Option A
  when true a = some a
  when false a = none

  abbrev pub document_of :
      OpenApiGenerator → Project → Dict (PathItem Float) → Dict (Schema Float) → Document Float
  document_of g p paths schemas = record {
    info = info_of g p;
    servers = configured_servers g;
    paths = paths;
    schemas = schemas;
    security_schemes = when g.tenant_auth (security_schemes g);
    security = when g.tenant_auth root_security;
  }

  -- `none` stands for a loop that ran out of its fuel or a builder that is missing.
  unfoldable pub generate : OpenApiGenerator → Project → Option (Document Float)
  generate g p = do
    let emitted = emitted_routes go (get_all_routes p)
    ids ← assign_operation_ids go emitted
    schemas ← schemas_of p emitted
    some (document_of g p (build_paths go g.tenant_auth ids emitted) schemas)
