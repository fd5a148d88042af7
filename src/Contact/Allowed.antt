-- ===== src/Contact/Allowed.antt =====
-- Where ContactService may send: only to a target that the configuration and the route admit.
use hermes_life_bridge.Prelude.{ℕ, ◌≡◌, Option, some, String}
use hermes_life_bridge.Calendar.{Calendar}
use hermes_life_bridge.Routing.{RouteStatus, StoredRoute, route_status}
use hermes_life_bridge.Contact.Setting.{ContactIntentEnvelope, ContactConfig, ContactHost}
use hermes_life_bridge.Contact.Checks.{platform_label}

module _ (calendar : Calendar) (sanitize : String → String) (host : ContactHost)
    (config : ContactConfig) where
  open host use {lower}

  -- The configuration admits a target: there is none configured, it is the configured one, or the
  -- configured one is the label of its platform.
  pub data IsAdmitted : String → Type 0 where
    unrestricted : {target : String} → config.contact_target ≡ "" → IsAdmitted target
    exactly : IsAdmitted config.contact_target
    on_platform :
        {target : String}
        → config.contact_target ≡ platform_label calendar sanitize host config config.contact_target
        → platform_label calendar sanitize host config target
          ≡ platform_label calendar sanitize host config config.contact_target
        → IsAdmitted target

  -- Where the route leads: to its own target if it is fresh, and otherwise, if none was learned, to
  -- the configured target or to the intent's.
  pub data IsRouted (learned : Option StoredRoute) (intent : ContactIntentEnvelope) (now : ℕ)
      : String → Type 0 where
    by_route :
        (r : StoredRoute)
        → learned ≡ some r
        → route_status calendar lower learned config.route_max_age now ≡ RouteStatus.fresh
        → IsRouted learned intent now r.target
    by_configuration :
        route_status calendar lower learned config.route_max_age now ≡ RouteStatus.unknown
        → IsRouted learned intent now config.contact_target
    by_intent :
        route_status calendar lower learned config.route_max_age now ≡ RouteStatus.unknown
        → config.contact_target ≡ ""
        → IsRouted learned intent now intent.target
