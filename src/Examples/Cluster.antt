-- ===== src/Examples/Cluster.antt =====
-- src/services/cluster.service.js at concrete inputs.
use live_server.Common.{◌≡◌, ◌≤◌, refl, false, none, some, List, [], ◌∷◌, arith}
use live_server.Common.Store.{empty_store}
use live_server.Common.Redis.{Redis, concrete_redis}
use live_server.Cluster.Leader.{acquire}
use live_server.Cluster.Leader.Lease.{Act, acquires, renews, perform, any_usurps, leader_exclusive}
use live_server.Cluster.Timers.Deadlines.{store_deadlines}
use live_server.Cluster.Timers.{
  World, Event, schedules, timer_fires, stops, sweeps, goes_on, happens, happen,
}
use live_server.Cluster.Timers.Claims.{runs_of, schedules_of, runs_bounded}

abbrev r : Redis
r = concrete_redis

-- Node 1 takes lock 7 at 0, node 2 tries at 10, node 1 renews, and node 2 tries again.
abbrev take_it : Act
take_it = record { command = acquires; name = 7; node = 1; now = 0 }

abbrev contest : List Act
contest =
    record { command = acquires; name = 7; node = 2; now = 10 }
    ∷ record { command = renews; name = 7; node = 2; now = 10 }
    ∷ record { command = renews; name = 7; node = 1; now = 5000 }
    ∷ record { command = acquires; name = 7; node = 2; now = 14999 }
    ∷ []

leader_exclusive_example : any_usurps r 7 1 (perform r empty_store take_it).0 contest ≡ false
unfolding perform acquire
leader_exclusive_example = leader_exclusive r empty_store take_it contest refl (
  omega arith,
  omega arith,
  refl,
  (
    omega arith,
    omega arith,
    refl,
    (omega arith, omega arith, refl, (omega arith, omega arith, refl, tt)),
  ),
)

-- Node 1 schedules member 5 twice; node 2 takes it over when node 1 stops.
abbrev start : World store_deadlines
start = record {
  shared = (empty_store, empty_store);
  local_timers = λ n. empty_store;
  claims = [];
  runs = [];
}

abbrev story : List (Event store_deadlines)
story =
    schedules 1 5 1000 77
    ∷ schedules 1 5 2000 78
    ∷ stops 1
    ∷ sweeps 2 5 3500
    ∷ sweeps 3 5 3500
    ∷ goes_on 0
    ∷ []

runs_bounded_example :
    runs_of 5 (happen store_deadlines start story).runs ≤ schedules_of store_deadlines 5 story
runs_bounded_example = runs_bounded store_deadlines 5 start story refl refl refl

story_run :
    (happen store_deadlines start story).runs ≡ record { member = 5; payload = some 78 } ∷ []
unfolding happens
story_run = refl

-- Node 2 schedules the member again between the claim and the read of node 1, which takes the new
-- payload; node 2 stops, and the sweep of node 3 finds none.
abbrev overtaken : List (Event store_deadlines)
overtaken =
    schedules 1 5 1000 77
    ∷ timer_fires 1 5
    ∷ schedules 2 5 2000 78
    ∷ goes_on 0
    ∷ stops 2
    ∷ sweeps 3 5 3500
    ∷ goes_on 0
    ∷ []

overtaken_run :
    (happen store_deadlines start overtaken).runs
    ≡ record { member = 5; payload = none } ∷ record { member = 5; payload = some 78 } ∷ []
unfolding happens
overtaken_run = refl
