-- ===== src/Acquisition/Tor.antt =====
-- packages/acquisition/tor_strategy.py: the lanes by which requests leave, direct then one per
-- Tor proxy, and the coordinator that moves a whole run from one lane to the next.
pub mod Lanes
use airflow_kbo.Prelude.{
  ℕ, zero, suc, ◌+◌, ◌-◌, ◌≤◌, ◌<◌, String, ◌≡◌, refl, Bool, true, false, not, ◌&&◌, ◌||◌, Option,
  none, some, List, [], ◌∷◌, ◌++◌, arith, nat_eq, ltb, if◌then◌else◌, length, any, get_elem?,
}

-- "direct", or "tor" with a number.
pub data LaneName : Type 0 where
  direct : LaneName
  tor : ℕ → LaneName

abbrev pub same_lane : LaneName → LaneName → Bool
same_lane direct direct = true
same_lane (tor m) (tor n) = nat_eq m n
same_lane _ _ = false

-- `proxy_url` is `none` for the direct connection.
pub record KboEgressLane : Type 0 where
  pub name : LaneName
  pub proxy_url : Option String

abbrev pub direct_lane : KboEgressLane
direct_lane = record { name = direct; proxy_url = none }

-- One lane per proxy, numbered from `index`.
unfoldable pub number_proxies : ℕ → List String → List KboEgressLane
number_proxies index [] = []
number_proxies index (p ∷ ps) =
    record { name = tor index; proxy_url = some p } ∷ number_proxies (suc index) ps

-- `if not lanes: lanes.append(direct)`
abbrev pub or_direct : List KboEgressLane → List KboEgressLane
or_direct [] = direct_lane ∷ []
or_direct (lane ∷ lanes) = lane ∷ lanes

unfoldable pub build_kbo_lanes : Bool → List String → List KboEgressLane
build_kbo_lanes direct_first tor_proxies =
    or_direct ((if direct_first then direct_lane ∷ [] else []) ++ number_proxies 1 tor_proxies)

-- KboTorScheduler and the fields that KboTorLaneCoordinator adds to it; `rested` says that a cycle
-- was completed before, so that the next one waits.
pub record Coordinator : Type 0 where
  pub lanes : List KboEgressLane
  pub tor_loop : Bool
  pub lane_index : ℕ
  pub loop_cycles : ℕ
  pub lanes_used : List LaneName
  pub rested : Bool

unfoldable pub start_coordinator : List KboEgressLane → Bool → Coordinator
start_coordinator lanes tor_loop = record {
  lanes = lanes;
  tor_loop = tor_loop;
  lane_index = 0;
  loop_cycles = 1;
  lanes_used = [];
  rested = false;
}

-- `_lanes_used.add(name)`
abbrev pub use_lane : LaneName → Coordinator → Coordinator
use_lane name c =
    if any (same_lane name) c.lanes_used
    then c
    else record c { lanes_used = c.lanes_used ++ name ∷ [] }

-- `self.lanes[self.lane_index]`, an IndexError outside the list.
unfoldable pub lane_at : Coordinator → Option KboEgressLane
lane_at c = get_elem? c.lanes c.lane_index

abbrev pub use_current : Option KboEgressLane → Coordinator → Coordinator
use_current none c = c
use_current (some lane) c = use_lane lane.name c

unfoldable pub current_lane : Coordinator → Option KboEgressLane × Coordinator
current_lane c = (lane_at c, use_current (lane_at c) c)

-- The scheduler's steps.
unfoldable pub advance_lane : Coordinator → Bool × Coordinator
advance_lane c =
    if ltb (c.lane_index + 1) (length c.lanes)
    then (true, record c { lane_index = c.lane_index + 1 })
    else (false, c)

unfoldable pub reset_cycle : Coordinator → Coordinator
reset_cycle c = record c { lane_index = 0; loop_cycles = c.loop_cycles + 1 }

unfoldable pub can_loop_again : Coordinator → Bool
can_loop_again c = c.tor_loop && ltb c.loop_cycles 50

-- The coordinator's steps.
unfoldable pub escalate_on_captcha : Coordinator → Bool × Coordinator
unfolding advance_lane
escalate_on_captcha c =
    let (moved, c') = advance_lane c in
    if moved then (true, use_current (lane_at c') c') else (false, c')

unfoldable pub restart_loop_cycle : Coordinator → Bool × Coordinator
unfolding reset_cycle
restart_loop_cycle c =
    if not (can_loop_again c)
    then (false, c)
    else (let c' = reset_cycle (record c { rested = true }) in (true, use_current (lane_at c') c'))
