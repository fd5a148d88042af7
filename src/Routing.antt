-- ===== src/Routing.antt =====
-- routing.py: the learned route and how far it may be trusted. The file of a RouteStore is a value,
-- and `str.lower` is a parameter.
use Prim.Native.String.{◌++◌ as append}
use hermes_life_bridge.Prelude.{
  ℕ, ◌+◌, Bool, true, false, not, ◌&&◌, ◌||◌, Option, none, some, String, ◌==◌, ltb, eqb,
  if◌then◌else◌, codes, has_prefix,
}
use hermes_life_bridge.Calendar.{Stamp, Calendar, strip_left, strip_right, replace_zulu}

-- RouteStatus of reliability_contract.py
pub data RouteStatus : Type 0 where
  fresh stale invalid unknown : RouteStatus

pub record HermesRoute : Type 0 where
  pub platform : String
  pub chat_id : String
  pub thread_id : String
  pub message_id : String

-- What the file of a RouteStore holds; `invalidated_at` is "" where the key is missing.
pub record StoredRoute : Type 0 where
  pub platform : String
  pub chat_id : String
  pub thread_id : String
  pub message_id : String
  pub target : String
  pub updated_at : String
  pub valid : Bool
  pub invalidated_at : String

abbrev pub is_empty : String → Bool
is_empty s = s == ""

-- `HermesRoute.target`
unfoldable pub route_target : HermesRoute → String
route_target r =
    if is_empty r.platform
    then ""
    else if not (is_empty r.chat_id) && not (is_empty r.thread_id)
    then append r.platform (append ":" (append r.chat_id (append ":" r.thread_id)))
    else if not (is_empty r.chat_id)
    then append r.platform (append ":" r.chat_id)
    else r.platform

-- NON_DELIVERY_PLATFORMS
abbrev pub is_non_delivery : String → Bool
is_non_delivery p = p == "" || p == "gateway" || p == "cli" || p == "hlb-selftest"

unfoldable pub is_delivery_route : HermesRoute → Bool
unfolding route_target
is_delivery_route r =
    not (is_empty r.platform)
    && not (is_non_delivery r.platform)
    && not (is_empty r.chat_id)
    && not (is_empty (route_target r))

-- `value.strip()`
abbrev pub strip : String → String
strip s = strip_right (strip_left s)

-- `RouteStore.save` at the time `now`, where `kept` says that a path was given.
unfoldable pub save_route : Bool → HermesRoute → String → Option StoredRoute → Option StoredRoute
unfolding is_delivery_route route_target
save_route kept r now file =
    if not kept || not (is_delivery_route r)
    then file
    else some (record {
      platform = r.platform;
      chat_id = r.chat_id;
      thread_id = r.thread_id;
      message_id = r.message_id;
      target = route_target r;
      updated_at = now;
      valid = true;
      invalidated_at = "";
    })

-- `RouteStore.invalidate`
unfoldable pub invalidate_route : String → Option StoredRoute → Option StoredRoute
invalidate_route now none = none
invalidate_route now (some r) = some (record r { valid = false; invalidated_at = now })

module _ (calendar : Calendar) (lower : String → String) where
  open calendar use {from_iso}

  -- The part of `route_status` after the time was read; the clocks may differ by five minutes.
  abbrev pub status_of_age : Option Stamp → ℕ → ℕ → RouteStatus
  status_of_age none max_age now = RouteStatus.stale
  status_of_age (some s) max_age now =
      if not s.aware
      then RouteStatus.stale
      else if ltb (now + 300000000) s.instant
      then RouteStatus.invalid
      else if ltb (s.instant + max_age) now
      then RouteStatus.stale
      else RouteStatus.fresh

  abbrev pub is_misshapen : StoredRoute → Bool
  is_misshapen r =
      let platform = lower (strip r.platform) in
      is_non_delivery platform
      || is_empty (strip r.chat_id)
      || is_empty (strip r.target)
      || not (has_prefix (codes (append platform ":")) (codes (strip r.target)))

  -- `route_status`; times in microseconds, a `max_age` of zero standing for every one below it too.
  unfoldable pub route_status : Option StoredRoute → ℕ → ℕ → RouteStatus
  unfolding replace_zulu
  route_status none max_age now = RouteStatus.unknown
  route_status (some r) max_age now =
      if not r.valid || not (is_empty r.invalidated_at)
      then RouteStatus.invalid
      else if is_misshapen r
      then RouteStatus.invalid
      else if eqb max_age 0
      then RouteStatus.stale
      else if is_empty (strip r.updated_at)
      then RouteStatus.stale
      else status_of_age (from_iso (replace_zulu (strip r.updated_at))) max_age now
