-- ===== src/WebRedis/Tests.antt =====
-- The client over a server in memory.
use server_monitor.Base.{ℕ, ◌≤◌, ◌≡◌, refl, true, [], ◌∷◌, arith, filter_by}
use server_monitor.Base.Int.{pos, ◌-ℤ◌}
use server_monitor.WebRedis.{allow_sliding_window}
use server_monitor.WebRedis.Window.{Accounts, count_from, allowed_within_limit}
use server_monitor.WebRedis.Memory.{Memory, empty, server, server-WindowLaws}

abbrev exact : ℕ → ℕ
exact n = n

abbrev call : ℕ → Memory → Memory
call now s = (allow_sliding_window server exact true "ip" (pos 2) (pos 10) now s).1

-- Calls at 101 and 105, then one at 112, when the first has left the window.
abbrev before : Memory
before = call 105 (call 101 empty)

abbrev after : Memory
after = call 112 before

before-Accounts : Accounts server server-WindowLaws exact "ip" 95 (105 ∷ 101 ∷ []) before
unfolding allow_sliding_window filter_by
before-Accounts b h = ground arith

allowed_within_limit_example :
    Accounts server server-WindowLaws exact "ip" 102 (112 ∷ 105 ∷ 101 ∷ []) after
    × (true ≡ true → count_from 102 (112 ∷ 105 ∷ 101 ∷ []) ≤ 2)
unfolding allow_sliding_window filter_by ◌-ℤ◌
allowed_within_limit_example =
    allowed_within_limit server server-WindowLaws exact true "ip" (pos 2) (pos 10) (pos 0) 112 95
      (105 ∷ 101 ∷ []) true before after (λ a b h. h) (omega arith) before-Accounts refl
