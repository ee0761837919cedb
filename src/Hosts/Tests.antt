-- ===== src/Hosts/Tests.antt =====
-- Three hosts, with natural numbers for the loads.
use server_monitor.Base.{
  ℕ, ◌+◌, ◌/◌, String, ◌≡◌, refl, true, Option, none, some, List, [], ◌∷◌, arith, eqb, leb, ltb,
}
use server_monitor.Base.Text.{contains, text_less}
use server_monitor.Base.Sort.{sort_stable}
use server_monitor.Base.Keyed.{member}
use server_monitor.Errors.{ok}
use server_monitor.Hosts.{
  Floats, Host, ListOptions, sort_hosts, hosts, filter_by_risk, filter_by_query, filter_by_status,
  filter_by_instances,
}
use server_monitor.Hosts.Order.{FloatLaws}

abbrev loads : Floats
loads = record {
  Float = ℕ;
  of_nat = λ n. n;
  at_least = λ a b. leb b a;
  same = eqb;
  above = λ a b. ltb b a;
  plus = λ a b. a + b;
  divided = λ a b. a / b;
}

loads-FloatLaws : FloatLaws loads
loads-FloatLaws = record {
  asymmetric = λ a b h. ground arith;
  not_above_trans = λ a b c p q. ground arith;
  same-above = λ a b. ground arith;
}

abbrev host : String → ℕ → String → Host loads
host name load status = record {
  host_instance = name;
  cpu = load;
  memory = 50;
  status = status;
  last_scrape = "";
}

abbrev known : List (Host loads)
known = host "web-1" 20 "up" ∷ host "db-1" 90 "up" ∷ host "web-2" 90 "down" ∷ []

abbrev options : ListOptions loads
options = record {
  status = "";
  query = "";
  sort = "cpu_desc";
  risk = "high_cpu";
  group_filtered = true;
  group_instances = "web-2" ∷ "db-1" ∷ [];
}

-- The state is what the cache holds.
abbrev get_hosts : Option (List (Host loads)) → Option (List (Host loads))
get_hosts s = s

abbrev cache_hosts : List (Host loads) → Option (List (Host loads)) → Option (List (Host loads))
cache_hosts l s = some l

listed :
    hosts loads get_hosts cache_hosts true options (ok known) none
    ≡ (ok (host "db-1" 90 "up" ∷ host "web-2" 90 "down" ∷ []), some known)
unfolding hosts member contains sort_hosts sort_stable text_less filter_by_risk filter_by_query
    filter_by_status filter_by_instances
listed = refl
