-- ===== src/PubSub/Tests.antt =====
-- A subscription that breaks twice before the context is cancelled.
use server_monitor.Base.{◌/◌, ◌≡◌, refl, true, false, some, List, [], ◌∷◌, arith}
use server_monitor.Errors.{message}
use server_monitor.PubSub.{
  received, taken, context_done, channel_closed, subscribe_failed, subscribed, Turn, run,
}
use server_monitor.PubSub.Hub.{Hub}
use server_monitor.PubSub.Reconnect.{Persists, run-Persists}

-- Each wait is as short as can be, then as it is without the random part, then as long as can be.
abbrev turns : List Turn
turns =
    record {
      attempt = subscribe_failed (message "i/o timeout");
      int64_n = λ n. 0;
      done_in_wait = false;
    }
    ∷ record {
      attempt = subscribed (received "m1" taken ∷ channel_closed ∷ []);
      int64_n = λ n. n / 2;
      done_in_wait = false;
    }
    ∷ record {
      attempt = subscribed (received "m2" taken ∷ context_done ∷ []);
      int64_n = λ n. 0;
      done_in_wait = false;
    }
    ∷ []

ran :
    run (some true) true "alerts" turns
    ≡ record { returned = true; waits = 800000000 ∷ 2000000000 ∷ []; passed = "m1" ∷ "m2" ∷ [] }
unfolding run
ran = refl

run-Persists_example : Persists turns (run (some true) true "alerts" turns)
run-Persists_example =
    run-Persists "alerts" turns refl ((λ n h. h), ((λ n h. omega (arith, h)), ((λ n h. h), tt)))

-- A hub with room for one message takes two, the second after the first is read, and is closed.
abbrev closed_hub : Hub
closed_hub = record { messages = "m2" ∷ []; capacity = 1; closed = true }
