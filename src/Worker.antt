-- ===== src/Worker.antt =====
-- src/worker/omnidat-worker.mjs: signed sessions and states, the guards, and the OAuth routes.
pub mod Flow
use Prim.Native.Char.{code}
use Prim.Native.String as Text
use omnidat.Prelude.{
  ℕ, String, Bool, true, false, not, Option, none, some, get_or, List, [], ◌∷◌, ◌==◌, ◌||◌, ◌&&◌,
  any, includes, find, nat_eq, string_eq, if◌then◌else◌,
}

pub record User : Type 0 where
  pub id : String
  pub email : String
  pub campsite : String
  pub roles : List String
  pub provider : String
  pub subject : String

-- The object of a token: a session has a user, a state where to return to. `issuedAt` is read nowhere.
pub record Payload : Type 0 where
  pub user : Option User
  pub return_to : Option String

-- `seal` is `base64UrlEncode(JSON.stringify(…))`, `unseal` undoes it and is `none` where a part of it
-- throws; `sign` is `sessionSignature`, `split` splits at the dots.
pub record Tokens : Type 0 where
  pub seal : Payload → String
  pub unseal : String → Option Payload
  pub sign : (payload secret : String) → String
  pub split : String → List String

-- `startsWith`
unfoldable pub starts_with : String → String → Bool
starts_with s Text.[] = true
starts_with Text.[] (Text.◌∷◌ c prefix) = false
starts_with (Text.◌∷◌ d s) (Text.◌∷◌ c prefix) = code d == code c && starts_with s prefix

-- `includes("\\")`
unfoldable pub has_backslash : String → Bool
has_backslash Text.[] = false
has_backslash (Text.◌∷◌ c s) = code c == 92 || has_backslash s

abbrev pub is_local : String → Bool
is_local path = starts_with path "/" && (not (starts_with path "//") && not (has_backslash path))

unfoldable pub safe_return_to : Option String → String
safe_return_to none = "/console"
safe_return_to (some path) =
    if not (starts_with path "/") || (starts_with path "//" || has_backslash path)
    then "/console"
    else path

-- `AUTH_SECRET`, or the default
pub auth_secret : Option String → String
auth_secret none = "omnidat-local-test-secret"
auth_secret (some secret) = if secret == "" then "omnidat-local-test-secret" else secret

-- where a state leads
abbrev pub returns : Option Payload → Option String
returns none = none
returns (some p) = some (safe_return_to p.return_to)

module _ (tokens : Tokens) where
  abbrev pub token : Payload → String → String
  token p secret = Text.◌++◌ (tokens.seal p) (Text.◌++◌ "." (tokens.sign (tokens.seal p) secret))

  unfoldable pub encode_session : User → String → String
  encode_session user secret = token (record { user = some user; return_to = none }) secret

  abbrev pub opened : String → List String → Option Payload
  opened secret (payload ∷ signature ∷ rest) =
      if payload == "" || (signature == "")
      then none
      else if signature == tokens.sign payload secret
      then tokens.unseal payload
      else none
  opened secret _ = none

  unfoldable pub decode_session : String → String → Option Payload
  decode_session text secret = opened secret (tokens.split text)

  unfoldable pub encode_state : Option String → String → String
  encode_state return_to secret =
      token (record { user = none; return_to = some (safe_return_to return_to) }) secret

  unfoldable pub decode_state : String → String → Option String
  decode_state text secret = returns (opened secret (tokens.split text))

-- `session?.user?.roles || []`
abbrev pub roles_of : Option User → List String
roles_of none = []
roles_of (some user) = user.roles

unfoldable pub has_role : Payload → List String → Bool
has_role session roles = any (λ role. includes (roles_of session.user) role) roles

-- a response: an error as JSON, a redirect with the session cookie that it sets, the page of those
-- without clearance, or what a handler gives
pub data Response : Type 0 where
  error : ℕ → String → Response
  redirect : (location : String) → (session : Option String) → Response
  forbidden : Response
  handled : Option Payload → Response

abbrev page_for : List String → Option Payload → (login : String) → Response
page_for roles none login = redirect login none
page_for roles (some session) login =
    if has_role session roles then handled (some session) else forbidden

abbrev api_for : List String → Option Payload → Response
api_for roles none = error 401 "authentication required"
api_for roles (some session) =
    if has_role session roles then handled (some session) else error 403 "insufficient clearance"

module _ (tokens : Tokens) (secret : String) where
  -- `login` is the address that `loginRedirect` makes.
  pub require_page_session : (cookie : String) → List String → (login : String) → Response
  require_page_session cookie roles login =
      page_for roles (decode_session tokens cookie secret) login

  unfoldable pub require_api_session : (cookie : String) → List String → Response
  require_api_session cookie roles = api_for roles (decode_session tokens cookie secret)

-- `authProvider`: the id that an alias stands for, if it is of a provider
abbrev canonical : String → String
canonical id = if id == "shadytel-omniauth" || (id == "shadytel") then "omniauth" else id

unfoldable pub auth_provider : String → Option String
auth_provider id = find (λ p. p == canonical id) ("omniauth" ∷ "forgegraph" ∷ "github" ∷ [])

abbrev demo_domain : String → String
demo_domain provider =
    if provider == "forgegraph" then "forgegraf.com" else Text.◌++◌ provider ".example"

abbrev joined : String → String → String → String
joined a b c = Text.◌++◌ a (Text.◌++◌ b c)

-- the user that a code of a provider stands for
unfoldable pub demo_user : (provider code : String) → User
demo_user provider code =
    let kind = if code == "demo-admin-code" then "admin" else "operator" in
    record {
      id = joined "usr_" provider (Text.◌++◌ "_" kind);
      email = joined kind "@" (demo_domain provider);
      campsite = "Camp Laminar";
      roles =
          if code == "demo-admin-code" then "user" ∷ "noc" ∷ "admin" ∷ [] else "user" ∷ "noc" ∷ [];
      provider = provider;
      subject = joined provider "-demo-" kind;
    }

module _ (tokens : Tokens) (secret : String) where
  abbrev called_back : (provider code : String) → Option String → Response
  called_back provider code none = error 400 "invalid oauth state"
  called_back provider code (some return_to) =
      redirect return_to (some (encode_session tokens (demo_user provider code) secret))

  abbrev with_code : (provider : String) → (code : String) → (state : String) → Response
  with_code provider code state =
      if code == ""
      then error 400 (Text.◌++◌ provider " callback requires code")
      else called_back provider code (decode_state tokens state secret)

  abbrev by_provider : Option String → (code state : String) → Response
  by_provider none code state = error 404 "unknown auth provider"
  by_provider (some provider) code state = with_code provider code state

  -- `code` and `state` are the parameters of the request, empty where they are absent.
  unfoldable pub auth_callback : (provider_id code state : String) → Response
  auth_callback provider_id code state = by_provider (auth_provider provider_id) code state
