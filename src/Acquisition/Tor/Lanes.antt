-- ===== src/Acquisition/Tor/Lanes.antt =====
-- tor_strategy.py: the lanes are never none, the coordinator always stands on one, and the moves
-- that it grants use up a budget.
use airflow_kbo.Prelude.{
  ℕ, zero, suc, ◌+◌, ◌-◌, ◌*◌, ◌≤◌, ◌<◌, String, ◌≡◌, refl, Bool, true, false, ◌&&◌, Option, none,
  some, List, [], ◌∷◌, arith, ltb, length, get_elem?, Bool-cases, ltb→lt, inl, inr,
}
use airflow_kbo.Acquisition.Tor.{
  KboEgressLane, direct, tor, Coordinator, build_kbo_lanes, or_direct, start_coordinator, lane_at,
  advance_lane, reset_cycle, can_loop_again, escalate_on_captcha, restart_loop_cycle, use_current,
}

-- The coordinator stands on a lane and has counted at most 50 cycles.
pub IsOnLane : Coordinator → Type 0
IsOnLane c = (c.lane_index < length c.lanes) × (c.loop_cycles ≤ 50)

-- An upper bound for the moves that are left.
unfoldable pub moves_left : Coordinator → ℕ
moves_left c = (length c.lanes - c.lane_index) + (50 - c.loop_cycles) * length c.lanes

or_direct-length : (lanes : List KboEgressLane) → 1 ≤ length (or_direct lanes)
or_direct-length [] = omega arith
or_direct-length (lane ∷ lanes) = omega arith

pub start_coordinator-IsOnLane :
    (direct_first : Bool) (tor_proxies : List String) (tor_loop : Bool)
    → IsOnLane (start_coordinator (build_kbo_lanes direct_first tor_proxies) tor_loop)
unfolding IsOnLane start_coordinator build_kbo_lanes
start_coordinator-IsOnLane direct_first tor_proxies tor_loop = (or_direct-length _, omega arith)

-- The lane that a run is to start on.
abbrev pub first_lane : Bool → List String → KboEgressLane
first_lane true proxies = record { name = direct; proxy_url = none }
first_lane false [] = record { name = direct; proxy_url = none }
first_lane false (p ∷ proxies) = record { name = tor 1; proxy_url = some p }

get_elem?-some :
    (lanes : List KboEgressLane) (i : ℕ)
    → i < length lanes
    → (lane : KboEgressLane) × (get_elem? lanes i ≡ some lane)
get_elem?-some [] i h = absurd (omega arith)
get_elem?-some (lane ∷ lanes) zero h = (lane, refl)
get_elem?-some (lane ∷ lanes) (suc i) h = get_elem?-some lanes i (omega arith)

pub lane_at-some : (c : Coordinator) → IsOnLane c → (lane : KboEgressLane) × (lane_at c ≡ some lane)
unfolding IsOnLane lane_at
lane_at-some c h = get_elem?-some c.lanes c.lane_index h.0

-- Noting a lane as used changes nothing else.
pub use_current-IsOnLane :
    (o : Option KboEgressLane) (c : Coordinator) → IsOnLane c → IsOnLane (use_current o c)
unfolding IsOnLane
use_current-IsOnLane none c h = h
use_current-IsOnLane (some lane) c h = ground arith

pub use_current-moves_left :
    (o : Option KboEgressLane) (c : Coordinator) → moves_left (use_current o c) ≡ moves_left c
unfolding moves_left
use_current-moves_left none c = refl
use_current-moves_left (some lane) c = ground arith

advanced : Coordinator → Coordinator
advanced c = record c { lane_index = c.lane_index + 1 }

restarted : Coordinator → Coordinator
restarted c = record c { lane_index = 0; loop_cycles = c.loop_cycles + 1; rested = true }

advanced_lem :
    (c : Coordinator)
    → IsOnLane c
    → c.lane_index + 1 < length c.lanes
    → IsOnLane (advanced c) × (suc (moves_left (advanced c)) ≤ moves_left c)
unfolding advanced IsOnLane moves_left
advanced_lem c h more = ((more, h.1), omega arith)

-- A cycle costs one round of the lanes.
round_lem : (n lanes : ℕ) → n < 50 → (50 - n) * lanes ≡ lanes + (50 - (n + 1)) * lanes
round_lem n lanes h = let e : 50 - n ≡ suc (50 - (n + 1)) = omega arith in rw e (omega arith)

restarted_lem :
    (c : Coordinator)
    → IsOnLane c
    → c.loop_cycles < 50
    → IsOnLane (restarted c) × (suc (moves_left (restarted c)) ≤ moves_left c)
unfolding restarted IsOnLane moves_left
restarted_lem c h again = (
  (omega (arith, h), omega arith),
  omega (arith, h, round_lem c.loop_cycles (length c.lanes) again),
)

-- A granted move ends on a lane again and uses up the budget; a refused one changes nothing.
abbrev pub IsMove : Coordinator → Bool × Coordinator → Type 0
IsMove c (granted, c') =
    (granted ≡ true → IsOnLane c' × (suc (moves_left c') ≤ moves_left c))
    × (granted ≡ false → c' ≡ c)

pub escalate_on_captcha_lem : (c : Coordinator) → IsOnLane c → IsMove c (escalate_on_captcha c)
unfolding escalate_on_captcha advance_lane advanced
escalate_on_captcha_lem c h = elim (Bool-cases (ltb (c.lane_index + 1) (length c.lanes))) [
  | inl more ↦
      let c' = advanced c in
      let (on, less) = advanced_lem c h (ltb→lt _ _ more) in
      rw more (
        (λ e. (
          use_current-IsOnLane (lane_at c') c' on,
          rw (use_current-moves_left (lane_at c') c') less,
        )),
        λ e. absurd cc,
      )
  | inr last ↦ rw last ((λ e. absurd cc), λ e. refl)
]

pub restart_loop_cycle_lem : (c : Coordinator) → IsOnLane c → IsMove c (restart_loop_cycle c)
unfolding restart_loop_cycle reset_cycle can_loop_again restarted
restart_loop_cycle_lem c h = elim (Bool-cases (c.tor_loop && ltb c.loop_cycles 50)) [
  | inl again ↦
      let c' = restarted c in
      let (on, less) = restarted_lem c h (ground arith) in
      rw again (
        (λ e. (
          use_current-IsOnLane (lane_at c') c' on,
          rw (use_current-moves_left (lane_at c') c') less,
        )),
        λ e. absurd cc,
      )
  | inr over ↦ rw over ((λ e. absurd cc), λ e. refl)
]
