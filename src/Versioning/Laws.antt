-- ===== src/Versioning/Laws.antt =====
-- The two ways in which versioning.ts finds a request's version agree.
use omnidat.Prelude.{String, Bool, true, false, Option, none, some, ◌≡◌, refl, if◌then◌else◌, ◌&&◌}
use omnidat.Versioning.{
  ApiVersion, VersioningConfig, Source, url, header, default, DeprecationMap, Request,
  extract_version_from_headers, extract_version_from_url, resolve_api_version,
  create_version_context, first_of, when, or_default, found_in, is_default,
  get_version_deprecation_info,
}

module _ (lower : String → String) where
  -- The context of a request has the version that the request resolves to, tells whether it came
  -- from the URL, else a header, else the configuration, and carries that version's deprecation.
  pub create_version_context-resolves :
      (infos : DeprecationMap) (request : Request) (config : VersioningConfig)
      → let context = create_version_context lower infos request config in
        (context.version ≡ resolve_api_version lower request config)
        × (context.is_deprecated ≡ (infos (resolve_api_version lower request config)).is_deprecated)
        × (context.source
            ≡ (found_in lower url
                (when lower config.allow_url_versioning (extract_version_from_url lower request))
                (found_in lower header
                  (when lower config.allow_header_versioning
                    (extract_version_from_headers lower request))
                  (config.default_version, default))).1)
  unfolding create_version_context resolve_api_version get_version_deprecation_info
  create_version_context-resolves infos request config =
      go config.allow_url_versioning config.allow_header_versioning
        (extract_version_from_url lower request) (extract_version_from_headers lower request)
    where
      Chosen : Bool → Bool → Option ApiVersion → Option ApiVersion → ApiVersion × Source
      Chosen a b u h =
          let by_url = found_in lower url (when lower a u) (config.default_version, default) in
          if is_default lower by_url.1 && b then found_in lower header h by_url else by_url

      go :
          (a b : Bool) (u h : Option ApiVersion)
          → ((Chosen a b u h).0
              ≡ or_default lower
                  (first_of lower (when lower a u) (when lower b h))
                  config.default_version)
            × ((infos (Chosen a b u h).0).is_deprecated
                ≡ (infos (
                    or_default lower
                      (first_of lower (when lower a u) (when lower b h))
                      config.default_version)).is_deprecated)
            × ((Chosen a b u h).1
                ≡ (found_in lower url
                    (when lower a u)
                    (found_in lower header (when lower b h) (config.default_version, default))).1)
      go true b (some v) h = (refl, refl, refl)
      go true true none (some v) = (refl, refl, refl)
      go true true none none = (refl, refl, refl)
      go true false none h = (refl, refl, refl)
      go false true u (some v) = (refl, refl, refl)
      go false true u none = (refl, refl, refl)
      go false false u h = (refl, refl, refl)
