-- ===== src/Proxy/Laws.antt =====
-- What a router that was built answers for a request.
use crabwise.Common.{
  ◌≡◌, refl, ap, Bool, true, false, Option, none, some, [], ◌∷◌, ◌++◌, ◌⊎◌, inl, inr, Text,
  non_empty, to_lower, trim_space, any, All, Map, lookup, arith, if◌then◌else◌, if-intro,
  Option-cases,
}
use crabwise.Common.Result.{Result, ok, err}
use crabwise.Proxy.Provider.{ProviderRuntime}
use crabwise.Proxy.{
  Router, RouterError, new_router, route_matches, find_route, resolve, no_route, unknown_provider,
}

module _ (match : Text → Text → Option Bool) where
  abbrev pub routes : Text → Text × ProviderRuntime → Bool
  routes path (name, rt) = any (λ pattern. route_matches match pattern path) rt.route_patterns

  -- The first provider, in the order visited, that has a pattern for the path.
  abbrev pub FirstRoute : Text → Map ProviderRuntime → Text → ProviderRuntime → Type 0
  FirstRoute path providers name rt =
      (l : Map ProviderRuntime) × (r : Map ProviderRuntime) × (providers ≡ l ++ ((name, rt) ∷ r))
      × All (λ (p : Text × ProviderRuntime). routes path p ≡ false) l
      × (routes path (name, rt) ≡ true)

  abbrev pub NoRoute : Text → Map ProviderRuntime → Type 0
  NoRoute path providers = All (λ (p : Text × ProviderRuntime). routes path p ≡ false) providers

  abbrev Finds : Text → Map ProviderRuntime → Option (Text × ProviderRuntime) → Type 0
  Finds path providers none = NoRoute path providers
  Finds path providers (some (name, rt)) = FirstRoute path providers name rt

  Finds-skip :
      (path : Text) (p : Text × ProviderRuntime) (ps : Map ProviderRuntime)
      (found : Option (Text × ProviderRuntime))
      → routes path p ≡ false
      → Finds path ps found
      → Finds path (p ∷ ps) found
  Finds-skip path p ps none miss rest = (miss, rest)
  Finds-skip path p ps (some (name, rt)) miss (l, r, at, before, hit) =
      (p ∷ l, r, ap (λ (t : Map ProviderRuntime). p ∷ t) at, (miss, before), hit)

  find_route-Finds :
      (path : Text) (providers : Map ProviderRuntime)
      → Finds path providers (find_route match path providers)
  unfolding find_route
  find_route-Finds path [] = tt
  find_route-Finds path ((name, rt) ∷ ps) =
      if-intro (Finds path ((name, rt) ∷ ps)) (routes path (name, rt)) _ _
        (λ hit. ([], ps, refl, tt, hit))
        (λ miss.
          Finds-skip path (name, rt) ps (find_route match path ps) miss (find_route-Finds path ps))

  -- What the router answers: the provider that the header names, or an error if there is none of
  -- that name; without a header the first provider with a pattern for the path, and the default
  -- provider if there is none.
  abbrev pub Resolves : Router → Text → Text → Result RouterError (ProviderRuntime × Text) → Type 0
  Resolves r header path answer =
      let explicit = trim_space (to_lower header) in
      if non_empty explicit
      then ((rt : ProviderRuntime) × (lookup explicit r.providers ≡ some rt)
          × (answer ≡ ok (rt, explicit)))
        ⊎ ((lookup explicit r.providers ≡ none) × (answer ≡ err (unknown_provider explicit)))
      else (rt : ProviderRuntime) × (name : Text) × (answer ≡ ok (rt, name))
        × (FirstRoute path r.providers name rt
            ⊎ ((name ≡ r.default_provider)
                × NoRoute path r.providers
                × (lookup r.default_provider r.providers ≡ some rt)))

  abbrev HasDefault : Router → Type 0
  HasDefault r = (rt : ProviderRuntime) × (lookup r.default_provider r.providers ≡ some rt)

  new_router-HasDefault :
      (default_provider : Text) (providers : Map ProviderRuntime) (r : Router)
      → new_router default_provider providers ≡ ok r
      → HasDefault r
  unfolding new_router
  new_router-HasDefault default_provider providers r h =
      elim (Option-cases (lookup default_provider providers)) [
        | inl missing ↦ absurd (ground (arith, missing))
        | inr (rt, registered) ↦ (rt, ground (arith, registered))
      ]

  resolve-Resolves :
      (r : Router) (header path : Text)
      → HasDefault r
      → Resolves r header path (resolve match r header path)
  unfolding resolve
  resolve-Resolves r header path (rt, registered) =
      go (non_empty explicit) (lookup explicit r.providers) (find_route match path r.providers)
        (lookup r.default_provider r.providers) (find_route-Finds path r.providers) registered
    where
      explicit : Text
      explicit = trim_space (to_lower header)

      answer :
          Bool
          → Option ProviderRuntime
          → Option (Text × ProviderRuntime)
          → Option ProviderRuntime
          → Result RouterError (ProviderRuntime × Text)
      answer b o f d =
          if b
          then elim o [ some x ↦ ok (x, explicit) | none ↦ err (unknown_provider explicit) ]
          else elim f [
            | some (name, x) ↦ ok (x, name)
            | none ↦ elim d [ some x ↦ ok (x, r.default_provider) | none ↦ err no_route ]
          ]

      go :
          (b : Bool) (o : Option ProviderRuntime) (f : Option (Text × ProviderRuntime))
          (d : Option ProviderRuntime)
          → Finds path r.providers f
          → d ≡ some rt
          → if b
            then ((x : ProviderRuntime) × (o ≡ some x) × (answer b o f d ≡ ok (x, explicit)))
              ⊎ ((o ≡ none) × (answer b o f d ≡ err (unknown_provider explicit)))
            else (x : ProviderRuntime) × (name : Text) × (answer b o f d ≡ ok (x, name))
              × (FirstRoute path r.providers name x
                  ⊎ ((name ≡ r.default_provider) × NoRoute path r.providers × (d ≡ some x)))
      go true (some x) f d found e = inl (x, refl, refl)
      go true none f d found e = inr (refl, refl)
      go false o (some (name, x)) d found e = (x, name, refl, inl found)
      go false o none (some x) found e = (x, r.default_provider, refl, inr (refl, found, refl))
      go false o none none found e = absurd cc

  -- A router that was built answers every request. If the header names a provider, the answer is that
  -- one, or an error if it is not registered; otherwise it is the first provider, in the order
  -- visited, that has a pattern for the path, and the default provider if there is none.
  pub new_router-Resolves :
      (default_provider : Text) (providers : Map ProviderRuntime) (r : Router) (header path : Text)
      → new_router default_provider providers ≡ ok r
      → Resolves r header path (resolve match r header path)
  new_router-Resolves default_provider providers r header path h =
      resolve-Resolves r header path (new_router-HasDefault default_provider providers r h)
