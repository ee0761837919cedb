-- ===== src/Shutdown/Tests.antt =====
-- A shutdown of two phases, the first of which fails.
use server_monitor.Base.{ℕ, none, some}
use server_monitor.Base.Int.{pos}
use server_monitor.Errors.{message}
use server_monitor.Shutdown.{Phase}

abbrev http_server : Phase ℕ
http_server = record {
  name = "http-server";
  timeout = pos 0;
  run = λ limit s. (some (message "context deadline exceeded"), 1);
}

abbrev tracer : Phase ℕ
tracer = record { name = "tracer"; timeout = pos 0; run = λ limit s. (none, 2) }
