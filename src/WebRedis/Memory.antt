-- ===== src/WebRedis/Memory.antt =====
-- A Redis server in memory that meets the laws, for the tests. Its connection never breaks and its
-- keys do not expire.
use server_monitor.Base.{
  ℕ, String, refl, true, not, ◌&&◌, Option, none, some, List, [], ◌∷◌, arith, length, filter_by,
  ltb, ◌==◌, eq_iff, eq_refl, if◌then◌else◌,
}
use server_monitor.Base.Keyed.{member}
use server_monitor.Errors.{ok}
use server_monitor.RedisServer.{done}
use server_monitor.WebRedis.{delivered, Server}
use server_monitor.WebRedis.Script.{ServerLaws}
use server_monitor.WebRedis.Window.{WindowLaws}

pub record Memory : Type 0 where
  pub keys : List String
  pub values : String → String → Option String
  pub sorted : String → List ℕ

abbrev pub empty : Memory
empty = record { keys = []; values = λ k f. none; sorted = λ k. [] }

abbrev add_key : String → Memory → Memory
add_key k s = record s { keys = k ∷ s.keys }

abbrev put : String → String → Option String → Memory → Memory
put k f v s = record s {
  keys = k ∷ s.keys;
  values = λ j g. if (k == j) && (f == g) then v else s.values j g;
}

abbrev set_sorted : String → List ℕ → Memory → Memory
set_sorted k xs s = record s { sorted = λ j. if k == j then xs else s.sorted j }

abbrev pub server : Server
server = record {
  State = Memory;
  get = λ k s. ok none;
  set = λ k v ttl s. (none, add_key k s);
  set_nx = λ k v ttl s. (ok true, add_key k s);
  h_set = λ k f v s. (none, put k f (some v) s);
  h_del = λ k f s. (none, put k f none s);
  h_get_all = λ k s. ok [];
  publish = λ c v s. (none, s);
  x_rev_range_n = λ k n s. ok [];
  link = λ s. delivered;
  exists = λ k s. member k s.keys;
  x_add = λ k n v s. done (add_key k s);
  set_px = λ k v n s. done (add_key k s);
  z_rem_range_below = λ k bound s. set_sorted k (filter_by (λ x. not (ltb x bound)) (s.sorted k)) s;
  z_add = λ k x s. set_sorted k (x ∷ s.sorted k) s;
  z_card = λ k s. length (s.sorted k);
  expire = λ k ttl s. s;
  field = λ k f s. s.values k f;
  entries = λ k s. [];
  scores = λ k s. s.sorted k;
}

pub server-ServerLaws : ServerLaws server
unfolding member
server-ServerLaws = record {
  field-h_set = λ k f v j g s t h. ground arith;
  field-h_del = λ k f j g s t h. ground arith;
  exists-h_set = λ k f v j s n. ground (arith, eq_iff k j);
  exists-h_del = λ k f j s n. ground (arith, eq_iff k j);
  exists-x_add = λ k v j n s t h. ground (arith, eq_iff k j);
  exists-set_px = λ k v j n s t h. ground (arith, eq_iff k j);
  field-x_add = λ k v j g n s t h a. ground arith;
  field-set_px = λ k v j g n s t h a. ground arith;
  exists-publish = λ c v j s. refl;
  field-publish = λ c v j g s. refl;
}

pub server-WindowLaws : WindowLaws server
server-WindowLaws = record {
  scores-z_rem = λ k bound s. rw (eq_refl k) refl;
  scores-z_add = λ k x s. rw (eq_refl k) refl;
  z_card-length = λ k s. refl;
  scores-expire = λ k ttl s. refl;
}
