-- ===== src/App/McpServer/Routes.antt =====
-- The routes for discovery.
use fastgeoapi.Base.{◌≡◌, ◌⊎◌, inl, inr, refl, true, ◌&&◌, List, [], ◌∷◌, Bool-cases}
use fastgeoapi.Text.{ends_with}
use fastgeoapi.App.McpServer.{Route, alias_of, mount_route, mount_well_known}

-- The route is in the list.
abbrev pub IsIn : Route → List Route → Type 0
IsIn route [] = ⊥
IsIn route (r ∷ routes) = (r ≡ route) ⊎ IsIn route routes

mount_route-IsIn :
    (route new : Route) (routes : List Route)
    → IsIn route routes
    → IsIn route (mount_route new routes)
unfolding mount_route
mount_route-IsIn route new routes h = elim (Bool-cases (new.is_route && ends_with new.path "/")) [
  | inl slash ↦ rw slash (inr (inr h))
  | inr plain ↦ rw plain (inr h)
]

mount_well_known_keeps :
    (route : Route) (well_known routes : List Route)
    → IsIn route routes
    → IsIn route (mount_well_known well_known routes)
unfolding mount_well_known
mount_well_known_keeps route [] routes h = h
mount_well_known_keeps route (new ∷ well_known) routes h =
    mount_well_known_keeps route well_known (mount_route new routes)
      (mount_route-IsIn route new routes h)

mount_route_new : (route : Route) (routes : List Route) → IsIn route (mount_route route routes)
unfolding mount_route
mount_route_new route routes = elim (Bool-cases (route.is_route && ends_with route.path "/")) [
  | inl slash ↦ rw slash (inr (inl refl))
  | inr plain ↦ rw plain (inl refl)
]

mount_route_alias :
    (route : Route) (routes : List Route)
    → route.is_route ≡ true
    → ends_with route.path "/" ≡ true
    → IsIn (alias_of route) (mount_route route routes)
unfolding mount_route
mount_route_alias route routes r slash = rw (r, slash) (inl refl)

keeps_new :
    (route new : Route) (well_known routes : List Route)
    → new ≡ route
    → IsIn route (mount_well_known well_known (mount_route new routes))
keeps_new route new well_known routes e =
    mount_well_known_keeps route well_known (mount_route new routes)
      (rw (← e) (mount_route_new new routes))

keeps_alias :
    (route new : Route) (well_known routes : List Route)
    → new ≡ route
    → route.is_route ≡ true
    → ends_with route.path "/" ≡ true
    → IsIn (alias_of route) (mount_well_known well_known (mount_route new routes))
keeps_alias route new well_known routes e r slash =
    mount_well_known_keeps (alias_of route) well_known (mount_route new routes)
      (rw e (mount_route_alias route routes r slash))

-- After mounting, the routes of the application hold every route that they held before, every
-- discovery route and, for each one that is a `Route` whose path ends in a slash, its alias without
-- the slashes at the end.
pub mount_well_known-IsIn :
    (well_known routes : List Route) (route : Route)
    → (IsIn route routes → IsIn route (mount_well_known well_known routes))
      × (IsIn route well_known → IsIn route (mount_well_known well_known routes))
      × (IsIn route well_known
          → route.is_route ≡ true
          → ends_with route.path "/" ≡ true
          → IsIn (alias_of route) (mount_well_known well_known routes))
unfolding mount_well_known
mount_well_known-IsIn [] routes route = (λ h. h, λ h. elim h [ ], λ h r slash. elim h [ ])
mount_well_known-IsIn (new ∷ well_known) routes route =
    let (old, later, alias) = mount_well_known-IsIn well_known (mount_route new routes) route in
    (
      λ h. mount_well_known_keeps route (new ∷ well_known) routes h,
      λ h. elim h [ inl e ↦ keeps_new route new well_known routes e | inr rest ↦ later rest ],
      λ h r slash. elim h [
        | inl e ↦ keeps_alias route new well_known routes e r slash
        | inr rest ↦ alias rest r slash
      ],
    )
