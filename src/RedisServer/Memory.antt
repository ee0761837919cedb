-- ===== src/RedisServer/Memory.antt =====
-- A Redis server in memory that meets the laws, for the tests. Keys do not expire in it, and the
-- counters under one chosen hash cannot be incremented.
use server_monitor.Base.{
  ℕ, ◌+◌, String, ◌&&◌, ◌||◌, Option, none, some, List, [], ◌∷◌, arith, ◌==◌, eq_iff, if◌then◌else◌,
}
use server_monitor.Base.Keyed.{member}
use server_monitor.RedisServer.{Redis, RedisLaws, Answer, done, refused}

pub record Memory : Type 0 where
  pub strings : List String
  pub hashes : List String
  pub field : String → String → Option String
  pub number : String → String → ℕ

abbrev pub empty : Memory
empty = record { strings = []; hashes = []; field = λ k f. none; number = λ k f. 0 }

abbrev set_field : String → String → Option String → Memory → Memory
set_field k f v s = record s {
  hashes = k ∷ s.hashes;
  field = λ j g. if (k == j) && (f == g) then v else s.field j g;
}

abbrev wrong_type : String
wrong_type = "WRONGTYPE"

abbrev memory_hset : String → String → String → Memory → Answer Memory
memory_hset k f v s =
    if member k s.strings then refused wrong_type else done (set_field k f (some v) s)

abbrev memory_hdel : String → String → Memory → Answer Memory
memory_hdel k f s =
    if member k s.strings
    then refused wrong_type
    else done (record s { field = λ j g. if (k == j) && (f == g) then none else s.field j g })

abbrev memory_hincrby : String → String → String → ℕ → Memory → Answer Memory
memory_hincrby broken k f n s =
    if (k == broken) || member k s.strings
    then refused wrong_type
    else done (record s {
      hashes = k ∷ s.hashes;
      number = λ j g. if (k == j) && (f == g) then s.number j g + n else s.number j g;
    })

abbrev memory_set_px : String → String → ℕ → Memory → Answer Memory
memory_set_px k v n s = done (record s { strings = k ∷ s.strings })

abbrev pub memory : String → Redis
memory broken = record {
  State = Memory;
  exists = λ k s. member k s.strings || member k s.hashes;
  hget = λ k f s. done (s.field k f);
  hset = memory_hset;
  hdel = memory_hdel;
  hincrby = memory_hincrby broken;
  set_px = memory_set_px;
  hcount = λ k f s. s.number k f;
}

pub memory-RedisLaws : (broken : String) → RedisLaws (memory broken)
unfolding member
memory-RedisLaws broken = record {
  hget-hset = λ k f v j g s t h. ground arith;
  hget-hdel = λ k f j g s t h. ground arith;
  hget-hincrby = λ k f j g n s t h d. ground arith;
  hget-set_px = λ k v j g n s t h d. ground arith;
  exists-hset = λ k f v j s t h d. ground (arith, eq_iff k j);
  exists-hdel = λ k f j s t h d. ground arith;
  exists-hincrby = λ k f j n s t h d. ground (arith, eq_iff k j);
  exists-set_px_ne = λ k v j n s t h d. ground (arith, eq_iff k j);
  exists-set_px = λ k v n s t h. ground (arith, eq_iff k k);
  hcount-hset = λ k f v j g s t h d. ground arith;
  hcount-hdel = λ k f j g s t h d. ground arith;
  hcount-hincrby = λ k f g n s t h. ground (arith, eq_iff k k);
  hcount-set_px = λ k v j g n s t h d. ground arith;
}
