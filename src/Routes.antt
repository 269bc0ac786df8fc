-- ===== src/Routes.antt =====
-- internal/hostcmd/route_pool.go: the gateways and event transports that a host can use, with their
-- health. -1 as an index is `none`. The channels that only wake up waiting requests are left out.
pub mod Pool
pub mod Probing
pub mod Choice
pub mod Moves
pub mod Generations
pub mod Failover
use Prim.Native.String.{◌++◌ as join}
use remote_dev_skillkit.Prelude.{
  ℕ, ◌-◌, String, Bool, true, false, not, ◌&&◌, ◌||◌, Option, none, some, List, [], ◌∷◌, map, any,
  length, ℤ, pos, ◌==◌, ◌!=◌, string_eq, nat_eq, String_discrete, Eq, if◌then◌else◌, ltb, leb,
}
use remote_dev_skillkit.Prelude.Int.{ltb_ℤ, ◌+ℤ◌}
use remote_dev_skillkit.Prelude.Text.{
  trim_space, trim_slashes, trim_left, contains_code, split_slashes,
}
use native.Mathlib.Decide.{ℕ_discrete}
use remote_dev_skillkit.ControlPlane.Session.{Time}
use remote_dev_skillkit.ControlPlane.World.{is_zero, before}

pub record RouteCandidate : Type 0 where
  pub url : String
  pub transport : String

unfoldable pub route_key : RouteCandidate → String
route_key r = join r.url (join "\0" r.transport)

unfoldable pub RouteCandidate_discrete : Discrete RouteCandidate
RouteCandidate_discrete = hlevel String_discrete

instance abbrev pub candidate_eq : Eq RouteCandidate
candidate_eq = record { dec = RouteCandidate_discrete }

instance abbrev pub index_eq : Eq (Option ℕ)
index_eq = record { dec = hlevel ℕ_discrete }

-- `failed` says whether the probe has an error.
pub record RouteProbeResult : Type 0 where
  pub healthy : Bool
  pub latency : ℤ
  pub failed : Bool

pub record RouteState : Type 0 where
  pub candidate : RouteCandidate
  pub healthy : Bool
  pub latency : ℤ
  pub failures : ℕ
  pub cooldown_until : Time
  pub fast_streak : ℕ
  pub epoch : ℕ

pub record RouteConfig : Type 0 where
  pub max_concurrent : ℤ
  pub probe_timeout : ℤ
  pub cooldown : ℤ
  pub reprobe_interval : ℤ

pub record RoutePool : Type 0 where
  pub routes : List RouteState
  pub active : Option ℕ
  pub initialized : Bool
  pub generation : ℕ
  pub last_probe : Time
  pub config : RouteConfig

pub record RouteSnapshot : Type 0 where
  pub candidate : RouteCandidate
  pub generation : ℕ

-- `at` is the clock where the observation is taken up.
pub record RouteProbeObservation : Type 0 where
  pub index : ℕ
  pub epoch : ℕ
  pub result : RouteProbeResult
  pub at : Time

-- `url.URL`, as far as it is read.
pub record Url : Type 0 where
  pub scheme : String
  pub opaque : String
  pub has_user : Bool
  pub hostname : String
  pub port : String
  pub path : String
  pub force_query : Bool
  pub raw_query : String
  pub fragment : String

-- `url.Parse`, and `strings.ToLower`.
pub record UrlLibrary : Type 0 where
  pub parse : String → Option Url
  pub to_lower : String → String

-- A backslash, NUL, and the ends of lines.
is_bad_code : ℕ → Bool
is_bad_code c = c == 0x5c || c == 0 || c == 13 || c == 10

is_local : Url → Bool
is_local u =
    (u.scheme == "http" || u.scheme == "https")
    && (u.hostname == "127.0.0.1" || u.hostname == "::1" || u.hostname == "localhost")
    && u.port != ""

unfoldable pub is_local_dev_gateway_url : Option Url → Bool
unfolding is_local
is_local_dev_gateway_url none = false
is_local_dev_gateway_url (some u) = is_local u

has_dot_segment : String → Bool
has_dot_segment path =
    any (λ s. s == "." || s == "..")
      (split_slashes (trim_slashes (trim_left (λ c. c == b'/') path)))

is_safe : Option Url → Bool
unfolding has_dot_segment
is_safe none = false
is_safe (some u) =
    if u.opaque != ""
      || u.hostname == ""
      || u.has_user
      || u.raw_query != ""
      || u.fragment != ""
      || u.force_query
    then false
    else if u.scheme != "https" && u.scheme != "http"
    then false
    else if contains_code (λ c. c == 0x5c) u.path
    then false
    else if has_dot_segment u.path
    then false
    else if u.scheme == "http"
    then is_local_dev_gateway_url (some u)
    else true

module _ (l : UrlLibrary) where
  unfoldable pub safe_route_url : String → Bool
  unfolding is_bad_code is_safe
  safe_route_url value =
      if value == "" || contains_code is_bad_code value then false else is_safe (l.parse value)

  unfoldable pub known_transport : String → String
  known_transport t =
      if t == "long-poll" then "long-poll" else if t == "poll" || t == "" then "poll" else ""

  unfoldable pub normalize_route_transport : String → String
  unfolding known_transport
  normalize_route_transport value = known_transport (trim_space (l.to_lower value))

  abbrev pub normalized : RouteCandidate → RouteCandidate
  normalized c = record {
    url = trim_slashes (trim_space c.url);
    transport = normalize_route_transport c.transport;
  }

  abbrev pub usable_route : RouteCandidate → Bool
  usable_route c = safe_route_url c.url && c.transport != ""

  -- The loop of `newRoutePool`; `room` is how many routes may still be added, `seen` those added.
  unfoldable pub collect_routes :
      ℕ → List RouteCandidate → List RouteCandidate → List RouteCandidate
  collect_routes room seen [] = []
  collect_routes room seen (given ∷ rest) =
      let c = normalized given in
      let skipped = collect_routes room seen rest in
      let added = collect_routes (room - 1) (c ∷ seen) rest in
      if room == 0
      then []
      else if not (usable_route c) || any (λ d. route_key d == route_key c) seen
      then skipped
      else c ∷ added
