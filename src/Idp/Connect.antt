-- ===== src/Idp/Connect.antt =====
-- src/services/idp-origins.ts: the origins that identity providers need.
use couch_companion_ui.Prelude.{
  not, Option, none, some, List, [], ◌∷◌, map, Text, if◌then◌else◌, text_eq, is_nil, contains, add,
  filter, trim, option_or,
}
use couch_companion_ui.SingleServer.{Platform}

-- What of a provider the functions read; `none` where a field is absent, `null` or no array.
pub record IdpRef : Type 0 where
  pub csp_origins : Option (List Text)
  pub well_known_url : Option Text

abbrev pub add_each : List Text → List Text → List Text
add_each [] origins = origins
add_each (origin ∷ more) origins = add_each more (add origin origins)

module _ (p : Platform) where
  -- The origin of one URL; `none` where it is skipped.
  abbrev pub origin_of : Option Text → Option Text
  origin_of none = none
  origin_of (some url) =
      if is_nil (trim url)
      then none
      else elim (p.parse_url (trim url)) [ none ↦ none | some u ↦ some u.origin ]

  abbrev pub collect_unique : List (Option Text) → List Text → List Text
  collect_unique [] origins = origins
  collect_unique (url ∷ urls) origins = elim (origin_of url) [
    | none ↦ collect_unique urls origins
    | some origin ↦ collect_unique urls (add origin origins)
  ]

  unfoldable pub unique_origins : List (Option Text) → List Text
  unique_origins urls = collect_unique urls []

  abbrev pub idp_connect_origins : Option Text → Option Text → Option Text → List Text
  idp_connect_origins well_known_url jwks_uri token_endpoint =
      unique_origins (well_known_url ∷ jwks_uri ∷ token_endpoint ∷ [])

  abbrev pub contributed : IdpRef → List Text
  contributed idp =
      let stored = option_or idp.csp_origins [] in
      if is_nil stored
      then unique_origins (idp.well_known_url ∷ [])
      else unique_origins (map (λ o. some o) stored)

  abbrev pub require_each : List IdpRef → List Text → List Text
  require_each [] origins = origins
  require_each (idp ∷ idps) origins = require_each idps (add_each (contributed idp) origins)

  unfoldable pub required_idp_origins : List IdpRef → List Text
  required_idp_origins idps = require_each idps []

  unfoldable pub releasable_idp_origins : IdpRef → List IdpRef → List Text
  releasable_idp_origins removed remaining =
      let still_needed = required_idp_origins remaining in
      filter (λ origin. not (contains origin still_needed)) (required_idp_origins (removed ∷ []))
