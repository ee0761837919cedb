-- ===== src/RedisServer.antt =====
-- The Redis server, which the repository does not hold: the commands that the Lua scripts of
-- alert-service/redis/client.go call, with what Redis documents of them. A command that fails has
-- changed nothing, and one that succeeds changes its own key alone.
pub mod Memory
use server_monitor.Base.{
  ℕ, ◌+◌, String, ◌≡◌, ◌≢◌, Bool, true, ◌&&◌, Option, none, some, ◌==◌, if◌then◌else◌,
}

-- What a command answers: a new state or a value, or the text of an error.
pub data Answer {ℓ} (A : Type ℓ) : Type ℓ where
  done : A → Answer A
  refused : String → Answer A

pub record Redis : Type 1 where
  pub State : Type 0
  -- EXISTS key
  pub exists : String → State → Bool
  -- HGET key field, an error where the key holds another type
  pub hget : String → String → State → Answer (Option String)
  -- HSET key field value
  pub hset : String → String → String → State → Answer State
  -- HDEL key field
  pub hdel : String → String → State → Answer State
  -- HINCRBY key field by
  pub hincrby : String → String → ℕ → State → Answer State
  -- SET key value PX milliseconds
  pub set_px : String → String → ℕ → State → Answer State
  -- the number that a field holds for HINCRBY, 0 where it is missing
  pub hcount : String → String → State → ℕ

pub record RedisLaws (R : Redis) : Type 0 where
  pub hget-hset :
      (k f v j g : String) (s t : R.State)
      → R.hset k f v s ≡ done t
      → R.hget j g t ≡ (if (k == j) && (f == g) then done (some v) else R.hget j g s)
  pub hget-hdel :
      (k f j g : String) (s t : R.State)
      → R.hdel k f s ≡ done t
      → R.hget j g t ≡ (if (k == j) && (f == g) then done none else R.hget j g s)
  pub hget-hincrby :
      (k f j g : String) (n : ℕ) (s t : R.State)
      → R.hincrby k f n s ≡ done t
      → ((k == j) && (f == g)) ≢ true
      → R.hget j g t ≡ R.hget j g s
  pub hget-set_px :
      (k v j g : String) (n : ℕ) (s t : R.State)
      → R.set_px k v n s ≡ done t
      → k ≢ j
      → R.hget j g t ≡ R.hget j g s
  pub exists-hset :
      (k f v j : String) (s t : R.State)
      → R.hset k f v s ≡ done t
      → k ≢ j
      → R.exists j t ≡ R.exists j s
  pub exists-hdel :
      (k f j : String) (s t : R.State) → R.hdel k f s ≡ done t → k ≢ j → R.exists j t ≡ R.exists j s
  pub exists-hincrby :
      (k f j : String) (n : ℕ) (s t : R.State)
      → R.hincrby k f n s ≡ done t
      → k ≢ j
      → R.exists j t ≡ R.exists j s
  pub exists-set_px_ne :
      (k v j : String) (n : ℕ) (s t : R.State)
      → R.set_px k v n s ≡ done t
      → k ≢ j
      → R.exists j t ≡ R.exists j s
  pub exists-set_px :
      (k v : String) (n : ℕ) (s t : R.State) → R.set_px k v n s ≡ done t → R.exists k t ≡ true
  pub hcount-hset :
      (k f v j g : String) (s t : R.State)
      → R.hset k f v s ≡ done t
      → k ≢ j
      → R.hcount j g t ≡ R.hcount j g s
  pub hcount-hdel :
      (k f j g : String) (s t : R.State)
      → R.hdel k f s ≡ done t
      → k ≢ j
      → R.hcount j g t ≡ R.hcount j g s
  pub hcount-hincrby :
      (k f g : String) (n : ℕ) (s t : R.State)
      → R.hincrby k f n s ≡ done t
      → R.hcount k g t ≡ (if f == g then R.hcount k g s + n else R.hcount k g s)
  pub hcount-set_px :
      (k v j g : String) (n : ℕ) (s t : R.State)
      → R.set_px k v n s ≡ done t
      → k ≢ j
      → R.hcount j g t ≡ R.hcount j g s
