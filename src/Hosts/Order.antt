-- ===== src/Hosts/Order.antt =====
-- The order of the list of hosts, and what the dashboard counts.
use server_monitor.Base.{
  ◌+◌, String, ◌≡◌, Bool, true, false, not, ◌||◌, List, [], ◌∷◌, arith, length, ◌==◌, Bool-cases,
  inl, inr,
}
use server_monitor.Base.Text.{text_less-asymmetric, text_less-not_less_trans}
use server_monitor.Base.Sort.{
  IsOrdered, count_if, sort_stable-count_if, IsStrict, sort_stable-IsOrdered,
}
use server_monitor.Hosts.{
  Floats, Host, less_by_instance, less_by_cpu, less_by_memory, less_by, sort_hosts, Totals,
  add_host, add_hosts, build_dashboard_overview,
}

module _ (F : Floats) where
  -- Numbers without NaN are ordered.
  pub record FloatLaws : Type 0 where
    pub asymmetric : (a b : F.Float) → F.above a b ≡ true → F.above b a ≡ false
    pub not_above_trans :
        (a b c : F.Float) → F.above a b ≡ false → F.above b c ≡ false → F.above a c ≡ false
    pub same-above : (a b : F.Float) → F.same a b ≡ not (F.above a b || F.above b a)

  less_by_cpu-IsStrict : FloatLaws → IsStrict (less_by_cpu F)
  less_by_cpu-IsStrict l = record {
    asymmetric = λ a b h. ground (
      arith,
      l.asymmetric a.cpu b.cpu,
      l.same-above a.cpu b.cpu,
      l.same-above b.cpu a.cpu,
      text_less-asymmetric a.host_instance b.host_instance,
    );
    not_less_trans = λ a b c p q. ground (
      arith,
      l.same-above a.cpu b.cpu,
      l.same-above b.cpu c.cpu,
      l.same-above a.cpu c.cpu,
      l.not_above_trans a.cpu b.cpu c.cpu,
      l.not_above_trans c.cpu a.cpu b.cpu,
      l.not_above_trans b.cpu c.cpu a.cpu,
      l.not_above_trans c.cpu b.cpu a.cpu,
      l.not_above_trans b.cpu a.cpu c.cpu,
      l.not_above_trans a.cpu c.cpu b.cpu,
      text_less-not_less_trans a.host_instance b.host_instance c.host_instance,
    );
  }

  less_by_memory-IsStrict : FloatLaws → IsStrict (less_by_memory F)
  less_by_memory-IsStrict l = record {
    asymmetric = λ a b h. ground (
      arith,
      l.asymmetric a.memory b.memory,
      l.same-above a.memory b.memory,
      l.same-above b.memory a.memory,
      text_less-asymmetric a.host_instance b.host_instance,
    );
    not_less_trans = λ a b c p q. ground (
      arith,
      l.same-above a.memory b.memory,
      l.same-above b.memory c.memory,
      l.same-above a.memory c.memory,
      l.not_above_trans a.memory b.memory c.memory,
      l.not_above_trans c.memory a.memory b.memory,
      l.not_above_trans b.memory c.memory a.memory,
      l.not_above_trans c.memory b.memory a.memory,
      l.not_above_trans b.memory a.memory c.memory,
      l.not_above_trans a.memory c.memory b.memory,
      text_less-not_less_trans a.host_instance b.host_instance c.host_instance,
    );
  }

  pub less_by_instance-IsStrict : IsStrict (less_by_instance F)
  less_by_instance-IsStrict = record {
    asymmetric = λ a b h. text_less-asymmetric a.host_instance b.host_instance h;
    not_less_trans =
        λ a b c p q. text_less-not_less_trans a.host_instance b.host_instance c.host_instance p q;
  }

  less_by-IsStrict : FloatLaws → (sort_by : String) → IsStrict (less_by F sort_by)
  less_by-IsStrict l sort_by = elim (Bool-cases (sort_by == "cpu_desc")) [
    | inl y ↦ rw y (less_by_cpu-IsStrict l)
    | inr n ↦ elim (Bool-cases (sort_by == "memory_desc")) [
      | inl y ↦ rw (n, y) (less_by_memory-IsStrict l)
      | inr m ↦ rw (n, m) less_by_instance-IsStrict
    ]
  ]

  -- Sorting keeps each host as often as it stood there, and leaves no host that is less than one
  -- before it: by falling load or memory and then by name, or by name.
  pub sort_hosts-IsOrdered :
      (l : FloatLaws) (known : List (Host F)) (sort_by : String) (p : Host F → Bool)
      → IsOrdered (less_by F sort_by) (sort_hosts F known sort_by)
        × (count_if (less_by F sort_by) p (sort_hosts F known sort_by)
            ≡ count_if (less_by F sort_by) p known)
  unfolding sort_hosts
  sort_hosts-IsOrdered l known sort_by p = (
    sort_stable-IsOrdered (less_by F sort_by) (less_by-IsStrict l sort_by) known,
    sort_stable-count_if (less_by F sort_by) p known,
  )

  abbrev pub is_up : Host F → Bool
  is_up host = host.status == "up"

  add_hosts-counts :
      (known : List (Host F)) (t : Totals F)
      → ((add_hosts F known t).healthy ≡ t.healthy + count_if (less_by_instance F) is_up known)
        × ((add_hosts F known t).down
            ≡ t.down + count_if (less_by_instance F) (λ h. not (is_up h)) known)
  unfolding add_hosts
  add_hosts-counts [] t = (omega arith, omega arith)
  add_hosts-counts (host ∷ known) t =
      let (h, d) = add_hosts-counts known (add_host F host t) in
      (ground (arith, h), ground (arith, d))

  count_if-not :
      (p : Host F → Bool) (known : List (Host F))
      → count_if (less_by_instance F) p known + count_if (less_by_instance F) (λ h. not (p h)) known
        ≡ length known
  count_if-not p [] = omega arith
  count_if-not p (h ∷ known) = ground (arith, count_if-not p known)

  -- The dashboard counts each host once: those that are up as healthy, all others as down, and the
  -- total is their sum.
  build_dashboard_overview-counts :
      (known : List (Host F))
      → ((build_dashboard_overview F known).healthy_hosts
          ≡ count_if (less_by_instance F) is_up known)
        × ((build_dashboard_overview F known).healthy_hosts
              + (build_dashboard_overview F known).down_hosts
            ≡ (build_dashboard_overview F known).total_hosts)
  unfolding build_dashboard_overview
  build_dashboard_overview-counts known =
      let (h, d) =
        add_hosts-counts known
          (record { healthy = 0; down = 0; total_cpu = F.of_nat 0; total_memory = F.of_nat 0 }) in
      (omega (arith, h), omega (arith, h, d, count_if-not is_up known))
