-- ===== src/Worker/Flow.antt =====
-- src/worker/omnidat-worker.mjs: where a sign-in leads, and what its tokens are good for.
use omnidat.Prelude.{
  String, Bool, true, false, not, Option, none, some, [], ◌∷◌, ◌≡◌, refl, ap, ◌==◌, ◌||◌, ◌&&◌,
  if_either, ==_refl, string_eq, Bool-cases, Option-cases, inl, inr, arith,
}
use omnidat.Worker.{
  User, Payload, Tokens, starts_with, has_backslash, is_local, safe_return_to, token,
  encode_session, decode_state, opened, returns, Response, redirect, auth_callback, auth_provider,
  demo_user, called_back,
}

-- base64url and JSON at one payload: its token splits into the two parts, which are not empty, and
-- the first reads back.
pub record IsLawful (tokens : Tokens) (secret : String) (p : Payload) : Type 0 where
  pub parts :
      tokens.split (token tokens p secret) ≡ tokens.seal p ∷ tokens.sign (tokens.seal p) secret ∷ []
  pub full : (tokens.seal p == "" || (tokens.sign (tokens.seal p) secret == "")) ≡ false
  pub reads_back : tokens.unseal (tokens.seal p) ≡ some p

kept_local :
    (rooted double back : Bool)
    → (not rooted || (double || back)) ≡ false
    → (rooted && (not double && not back)) ≡ true
kept_local rooted double back h = ground arith

safe_return_to-is_local : (path : Option String) → is_local (safe_return_to path) ≡ true
unfolding safe_return_to starts_with has_backslash
safe_return_to-is_local none = refl
safe_return_to-is_local (some path) =
    if_either (λ p. is_local p ≡ true)
      (not (starts_with path "/") || (starts_with path "//" || has_backslash path)) "/console" path
      (λ _. refl)
      (λ kept. kept_local (starts_with path "/") (starts_with path "//") (has_backslash path) kept)

-- where a response sends the browser
abbrev leads_home : Response → Bool
leads_home (redirect location session) = is_local location
leads_home _ = true

module _ (tokens : Tokens) (secret : String) where
  opened-token :
      (p : Payload)
      → IsLawful tokens secret p
      → opened tokens secret (tokens.split (token tokens p secret)) ≡ some p
  opened-token p h = rw (h.parts, h.full, ==_refl (tokens.sign (tokens.seal p) secret)) h.reads_back

  called_back-leads_home :
      (provider code : String) (state : Option Payload)
      → leads_home (called_back tokens secret provider code (returns state)) ≡ true
  called_back-leads_home provider code none = refl
  called_back-leads_home provider code (some p) = safe_return_to-is_local p.return_to

  -- Whatever provider, code and state a callback is called with, it sends the browser
  -- nowhere, or to what starts with a slash, not with two, and has no backslash.
  auth_callback-leads_home :
      (provider_id code state : String)
      → leads_home (auth_callback tokens secret provider_id code state) ≡ true
  unfolding auth_callback decode_state
  auth_callback-leads_home provider_id code state =
      elim (Option-cases (auth_provider provider_id)) [
        | inl unknown ↦ rw unknown refl
        | inr (provider, known) ↦ rw known (elim (Bool-cases (code == "")) [
          | inl absent ↦ rw absent refl
          | inr present ↦
              rw present
                (called_back-leads_home provider code (opened tokens secret (tokens.split state)))
        ])
      ]

  callback_with :
      (provider_id provider code state return_to : String)
      → auth_provider provider_id ≡ some provider
      → (code == "") ≡ false
      → decode_state tokens state secret ≡ some return_to
      → auth_callback tokens secret provider_id code state
        ≡ redirect return_to (some (encode_session tokens (demo_user provider code) secret))
  unfolding auth_callback
  callback_with provider_id provider code state return_to known present decoded =
      rw (known, present, decoded) refl

  -- A session's token passes for the state of a sign-in: a callback that is given one in place of a
  -- state signs in and leads to the console.
  pub auth_callback-encode_session :
      (provider_id provider code : String) (user : User)
      → auth_provider provider_id ≡ some provider
      → (code == "") ≡ false
      → IsLawful tokens secret (record { user = some user; return_to = none })
      → auth_callback tokens secret provider_id code (encode_session tokens user secret)
        ≡ redirect "/console" (some (encode_session tokens (demo_user provider code) secret))
  unfolding decode_state encode_session safe_return_to
  auth_callback-encode_session provider_id provider code user known present h =
      callback_with provider_id provider code _ "/console" known present
        (ap returns (opened-token _ h))
