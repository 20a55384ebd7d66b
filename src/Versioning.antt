-- ===== src/Versioning.antt =====
-- packages/api/src/versioning.ts: which version of the interface a request asks for.
pub mod Laws
use Prim.Native.String as Text
use omnidat.Prelude.{
  ℕ, suc, ◌+◌, String, Bool, true, false, not, Option, none, some, List, [], ◌∷◌, ◌++◌, ◌==◌, ◌&&◌,
  if◌then◌else◌, leb, string_eq,
}

-- `ApiVersion`; a value of this type may be any text where the source casts one to it.
pub data ApiVersion : Type 0 where
  v1 v2 : ApiVersion

abbrev pub default_api_version : ApiVersion
default_api_version = v1

-- `VersioningConfig`
pub record VersioningConfig : Type 0 where
  pub default_version : ApiVersion
  pub allow_url_versioning : Bool
  pub allow_header_versioning : Bool
  pub include_version_in_response : Bool

abbrev pub default_versioning_config : VersioningConfig
default_versioning_config = record {
  default_version = default_api_version;
  allow_url_versioning = true;
  allow_header_versioning = true;
  include_version_in_response = true;
}

pub version_name : ApiVersion → String
version_name v1 = "v1"
version_name v2 = "v2"

-- `.replace(/^v/, "")`
pub without_v : String → String
without_v Text.[] = ""
without_v (Text.◌∷◌ c s) = if Text.◌∷◌ c Text.[] == "v" then s else Text.◌∷◌ c s

-- the version of `API_VERSIONS` that a text names, if it names one
pub version_named : String → Option ApiVersion
version_named name = if name == "v1" then some v1 else if name == "v2" then some v2 else none

pub data Source : Type 0 where
  url header default : Source

-- `DeprecationInfo`, without the date
pub record DeprecationInfo : Type 0 where
  pub is_deprecated : Bool
  pub message : Option String

-- `VersionContext`
pub record VersionContext : Type 0 where
  pub version : ApiVersion
  pub source : Source
  pub is_deprecated : Bool
  pub deprecation_message : Option String

-- `VERSION_DEPRECATION_MAP`, which is changed at run time
abbrev pub DeprecationMap : Type 0
DeprecationMap = ApiVersion → DeprecationInfo

abbrev pub version_deprecation_map : DeprecationMap
version_deprecation_map version = record { is_deprecated = false; message = none }

pub get_version_deprecation_info : DeprecationMap → ApiVersion → DeprecationInfo
get_version_deprecation_info infos version = infos version

abbrev pub same_version : ApiVersion → ApiVersion → Bool
same_version v1 v1 = true
same_version v1 v2 = false
same_version v2 v1 = false
same_version v2 v2 = true

pub mark_version_deprecated : ApiVersion → String → DeprecationMap → DeprecationMap
mark_version_deprecated version message infos other =
    if same_version other version
    then record { is_deprecated = true; message = some message }
    else infos other

-- `API_VERSIONS.indexOf(version)`
abbrev pub version_index : ApiVersion → ℕ
version_index v1 = 0
version_index v2 = 1

-- the version that a feature needs, when the map has it
pub is_feature_available : String → ApiVersion → (String → Option ApiVersion) → Bool
is_feature_available feature version feature_version_map = elim (feature_version_map feature) [
  | none ↦ true
  | some required ↦ leb (version_index required) (version_index version)
]

pub get_version_response_headers : VersionContext → List (String × String)
get_version_response_headers context =
    ("X-API-Version", version_name context.version)
    ∷ (if context.is_deprecated
        then ("Deprecation", "true") ∷ elim context.deprecation_message [
          | none ↦ []
          | some message ↦ if message == "" then [] else ("X-Deprecation-Notice", message) ∷ []
        ]
        else [])

-- The request: what its headers hold, and the digits that its URL's version pattern captures.
pub record Request : Type 0 where
  pub header : String → Option String
  pub url_digits : Option String

-- `lower` is `toLowerCase`.
module _ (lower : String → String) where
  -- `v${cleaned}`
  pub normalize_version : String → String
  normalize_version version = Text.◌++◌ "v" (without_v (lower version))

  abbrev pub has_version : Option ApiVersion → Bool
  has_version none = false
  has_version (some version) = true

  pub is_valid_version : String → Bool
  is_valid_version version = has_version (version_named (normalize_version version))

  -- `value && isValidVersion(value)`, then the version it is normalized to
  abbrev pub header_version : Option String → Option ApiVersion
  header_version none = none
  header_version (some value) =
      if value == "" then none else version_named (normalize_version value)

  abbrev pub first_of : Option ApiVersion → Option ApiVersion → Option ApiVersion
  first_of none other = other
  first_of (some version) other = some version

  pub extract_version_from_headers : Request → Option ApiVersion
  extract_version_from_headers request =
      first_of (header_version (request.header "x-api-version"))
        (header_version (request.header "api-version"))

  -- A version in the URL is valid when its normal form is, and is returned as it stands there;
  -- the two agree, as the digits have no letter.
  pub extract_version_from_url : Request → Option ApiVersion
  extract_version_from_url request = elim request.url_digits [
    | none ↦ none
    | some digits ↦
        if is_valid_version (Text.◌++◌ "v" digits)
        then version_named (Text.◌++◌ "v" digits)
        else none
  ]

  abbrev pub when : Bool → Option ApiVersion → Option ApiVersion
  when false version = none
  when true version = version

  abbrev pub or_default : Option ApiVersion → ApiVersion → ApiVersion
  or_default none version = version
  or_default (some found) version = found

  pub resolve_api_version : Request → VersioningConfig → ApiVersion
  resolve_api_version request config =
      or_default
        (first_of (when config.allow_url_versioning (extract_version_from_url request))
          (when config.allow_header_versioning (extract_version_from_headers request)))
        config.default_version

  abbrev pub found_in : Source → Option ApiVersion → ApiVersion × Source → ApiVersion × Source
  found_in source none other = other
  found_in source (some version) other = (version, source)

  abbrev pub is_default : Source → Bool
  is_default url = false
  is_default header = false
  is_default default = true

  pub create_version_context : DeprecationMap → Request → VersioningConfig → VersionContext
  create_version_context infos request config =
      let by_url =
        found_in url (when config.allow_url_versioning (extract_version_from_url request))
          (config.default_version, default) in
      let chosen =
        if is_default by_url.1 && config.allow_header_versioning
        then found_in header (extract_version_from_headers request) by_url
        else by_url in
      let info = get_version_deprecation_info infos chosen.0 in
      record {
        version = chosen.0;
        source = chosen.1;
        is_deprecated = info.is_deprecated;
        deprecation_message = info.message;
      }
