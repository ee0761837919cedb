-- ===== src/Sockets/Tests.antt =====
-- A hub for two clients.
use server_monitor.Base.{◌≡◌, refl, List, [], ◌∷◌, arith}
use server_monitor.Base.Int.{pos}
use server_monitor.Sockets.{
  Hub, Event, register, unregister, broadcast, written, new_hub, run, stop,
}
use server_monitor.Sockets.Closing.{Accounted, run-Accounted, stop-closes}

abbrev start : Hub
start = new_hub (pos 2)

start-Accounted : Accounted [] start
unfolding new_hub
start-Accounted = record {
  once = λ c. omega arith;
  distinct = λ c. omega arith;
  bounded = omega arith;
  allowed = omega arith;
  shown = refl;
}

-- The third client is one too many; the first leaves.
abbrev events : List Event
events =
    register 1
    ∷ register 2
    ∷ register 3
    ∷ broadcast "up"
    ∷ written 1
    ∷ unregister 1
    ∷ unregister 1
    ∷ []

abbrev ended : Hub
ended = run events start

run-Accounted_example : Accounted (3 ∷ 2 ∷ 1 ∷ []) ended
run-Accounted_example = run-Accounted events [] start start-Accounted (refl, (refl, (refl, tt)))

stop-closes_example :
    ((stop ended).closes 3 ≡ 1) × ((stop ended).clients ≡ []) × ((stop ended).gauge ≡ 0)
stop-closes_example =
    stop-closes (3 ∷ 2 ∷ 1 ∷ []) ended 3
      (run-Accounted events [] start start-Accounted (refl, (refl, (refl, tt))))
