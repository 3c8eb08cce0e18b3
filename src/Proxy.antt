-- ===== src/Proxy.antt =====
-- internal/adapter/proxy/router.go: the choice of the provider for a proxied request.
pub mod Provider
pub mod Stream
pub mod Targets
pub mod Policy
pub mod Redaction
pub mod Handler
pub mod Laws
mod Tests
use crabwise.Common.{
  ℕ, ◌||◌, Bool, true, false, Option, none, some, List, [], ◌∷◌, Text, codes, ◌==◌, non_empty,
  to_lower, trim_space, has_prefix, has_suffix, trim_suffix, contains, any, Map, lookup,
  if◌then◌else◌,
}
use crabwise.Proxy.Provider.{ProviderRuntime}
use crabwise.Common.Result.{Result, ok, err}

pub record Router : Type 0 where
  pub default_provider : Text
  pub providers : Map ProviderRuntime

pub data RouterError : Type 0 where
  no_providers default_required no_route : RouterError
  default_unregistered unknown_provider : Text → RouterError

abbrev has_entry : Map ProviderRuntime → Bool
has_entry [] = false
has_entry (entry ∷ entries) = true

unfoldable pub new_router : Text → Map ProviderRuntime → Result RouterError Router
new_router default_provider providers =
    if has_entry providers
    then (if non_empty default_provider
        then elim (lookup default_provider providers) [
          | none ↦ err (default_unregistered default_provider)
          | some rt ↦ ok (record { default_provider = default_provider; providers = providers })
        ]
        else err default_required)
    else err no_providers

-- `match` is path.Match, `none` an error.
module _ (match : Text → Text → Option Bool) where
  unfoldable pub route_matches : Text → Text → Bool
  route_matches pattern path =
      let p = trim_space pattern in
      if non_empty p
      then (if has_suffix p (codes "*")
          then has_prefix path (trim_suffix p (codes "*"))
          else if contains p (codes "*") || contains p (codes "?")
          then elim (match p path) [ none ↦ false | some matched ↦ matched ]
          else path == p)
      else false

  -- The loops over the providers, in the order the map is visited, and their patterns.
  unfoldable pub find_route : Text → Map ProviderRuntime → Option (Text × ProviderRuntime)
  unfolding route_matches
  find_route path [] = none
  find_route path ((name, rt) ∷ providers) =
      if any (λ pattern. route_matches pattern path) rt.route_patterns
      then some (name, rt)
      else find_route path providers

  -- `header` is the value of X-Crabwise-Provider, empty if it is absent.
  unfoldable pub resolve : Router → Text → Text → Result RouterError (ProviderRuntime × Text)
  unfolding find_route
  resolve r header path =
      let explicit = trim_space (to_lower header) in
      if non_empty explicit
      then elim (lookup explicit r.providers) [
        | some rt ↦ ok (rt, explicit)
        | none ↦ err (unknown_provider explicit)
      ]
      else elim (find_route path r.providers) [
        | some (name, rt) ↦ ok (rt, name)
        | none ↦ elim (lookup r.default_provider r.providers) [
          | some rt ↦ ok (rt, r.default_provider)
          | none ↦ err no_route
        ]
      ]
