-- ===== src/Tests/Worker.antt =====
-- Runs of a sign-in, with a seal that tells two objects apart.
use omnidat.Prelude.{
  String, Option, none, some, List, [], ◌∷◌, ◌≡◌, refl, ◌==◌, string_eq, if◌then◌else◌,
}
use omnidat.Worker.{
  User, Payload, Tokens, encode_session, redirect, auth_callback, demo_user, auth_provider,
}
use omnidat.Worker.Flow.{IsLawful, auth_callback-encode_session}

abbrev operator_code : String
operator_code = "x1"

abbrev operator : User
operator = demo_user "github" "x1"

abbrev session_payload : Payload
session_payload = record { user = some operator; return_to = none }

abbrev state_payload : Payload
state_payload = record { user = none; return_to = some "/console" }

abbrev seal : Option User → String
seal none = "state"
seal (some user) = "session"

abbrev unseal : String → Option Payload
unseal s = if s == "state" then some state_payload else some session_payload

abbrev split : String → List String
split s = if s == "state.seal" then "state" ∷ "seal" ∷ [] else "session" ∷ "seal" ∷ []

abbrev tokens : Tokens
tokens = record {
  seal = λ p. seal p.user;
  unseal = unseal;
  sign = λ payload secret. "seal";
  split = split;
}

session-IsLawful : IsLawful tokens "s3cret" session_payload
session-IsLawful = record { parts = refl; full = refl; reads_back = refl }

github_known : auth_provider "github" ≡ some "github"
unfolding auth_provider
github_known = refl

auth_callback-encode_session_example :
    auth_callback tokens "s3cret" "github" "x1" (encode_session tokens operator "s3cret")
    ≡ redirect "/console" (some (encode_session tokens operator "s3cret"))
auth_callback-encode_session_example =
    auth_callback-encode_session tokens "s3cret" "github" "github" "x1" operator github_known refl
      session-IsLawful
