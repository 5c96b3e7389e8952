-- ===== src/Proxy/Tasks/Tests.antt =====
-- Where the accept loop can be when the proxy is dropped.
use wiretally.Prelude.{◌≡◌, refl, false}
use wiretally.Text.{chars}
use wiretally.Stats
use wiretally.Stats.{Registry, new, track_open}
use wiretally.Stats.View.{IsRegistry}
use wiretally.Proxy.Tasks.Invariant.{reached-IsRegistry}
use wiretally.Proxy.Tasks.{Tasks, bound, asks, ◌⟶*◌, accepts, starts, works, stops, here, then}

-- A connection was accepted, and its task has not run.
abbrev not_run : Tasks
not_run = record bound { accepting = false; spawned = 1 }

accepted_and_not_run : (bound ⟶* not_run) × (not_run.registry.open_connections ≡ 0)
unfolding new
accepted_and_not_run = (then (accepts bound refl) (then (stops _) here), refl)

-- A task that was started has asked for two hosts.
abbrev asked : Registry
asked = (Stats.endpoint (chars "b.dev") (Stats.endpoint (chars "a.dev") (track_open new)).1).1

reached-IsRegistry_example : IsRegistry asked
reached-IsRegistry_example =
    reached-IsRegistry (record bound { registry = asked; handled = 1 })
      (then (accepts bound refl) (
        then (starts _ 0 refl) (
          then (works _ _ (asks (chars "a.dev") (track_open new))) (
            then
              (works _ _ (asks (chars "b.dev") (Stats.endpoint (chars "a.dev") (track_open new)).1))
              here))))
