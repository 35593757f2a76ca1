-- ===== src/Args/Laws.antt =====
-- What the environment of evalArgs holds.
use microkube.Base.{
  String, Bool, true, Option, some, List, ◌≡◌, refl, sym, ap, subst, ◌∙◌, Option-cases, Bool-cases,
  inl, inr,
}
use microkube.Base.Bytes.{Bytes}
use microkube.Handlers.Env.{ExecutionEnvironment, init_ports}
use microkube.Network.Ip.{IpNet, parse_cidr}
use microkube.Network.Bind.{BindAddress, bound, fatal, panicked, find_address}
use microkube.Network.Ranges.{
  Ranges, Calculated, calculated, parse_error, no_address, index_panic, cluster_ip_range,
  calculate_ip_ranges,
}
use microkube.Args
use microkube.Args.{
  ArgHandlerGlobalState, ArgHandler, evaluated, base_exec_env, dns_address, eval_args,
}

module _ (parse_ipv6 : Bytes → Option Bytes)
    (interfaces : Option (List (Option (List Bytes)))) where
  -- Where the parts of calculated ranges come from.
  pub record Origin (pod_range service_range : Bytes) (ranges : Ranges) : Type 0 where
    pub pod_address : Bytes
    pub pod_parsed : parse_cidr parse_ipv6 pod_range ≡ some (pod_address, ranges.pod)
    pub service_parsed :
        parse_cidr parse_ipv6 service_range ≡ some (ranges.first_svc, ranges.service)
    pub bind_found : find_address parse_ipv6 interfaces ≡ bound ranges.bind
    pub cluster_found :
        cluster_ip_range (pod_address, ranges.pod) (ranges.first_svc, ranges.service)
        ≡ some ranges.cluster

  calculated-Origin :
      (pod_range service_range : Bytes) (ranges : Ranges)
      → calculate_ip_ranges parse_ipv6 interfaces pod_range service_range ≡ calculated ranges
      → Origin pod_range service_range ranges
  unfolding calculate_ip_ranges
  calculated-Origin pod_range service_range ranges h =
      elim (Option-cases (parse_cidr parse_ipv6 pod_range)) [
        | inl p ↦ absurd (not_error (rw (p, calculate_ip_ranges) at h))
        | inr (pod, p) ↦ elim (Option-cases (parse_cidr parse_ipv6 service_range)) [
          | inl s ↦ absurd (not_error (rw (p, calculate_ip_ranges, s) at h))
          | inr (service, s) ↦ go pod p service s (find_address parse_ipv6 interfaces) refl
        ]
      ]
    where
      not_error : {r : Ranges} → ¬ (parse_error ≡ calculated r)
      not_error e = cc

      not_fatal : {r : Ranges} → ¬ (no_address ≡ calculated r)
      not_fatal e = cc

      not_panic : {r : Ranges} → ¬ (index_panic ≡ calculated r)
      not_panic e = cc

      calculated_ranges : {q r : Ranges} → calculated q ≡ calculated r → q ≡ r
      calculated_ranges e = cc

      go :
          (pod : Bytes × IpNet)
          → parse_cidr parse_ipv6 pod_range ≡ some pod
          → (service : Bytes × IpNet) → parse_cidr parse_ipv6 service_range ≡ some service
          → (b : BindAddress) → find_address parse_ipv6 interfaces ≡ b
          → Origin pod_range service_range ranges
      go pod p service s fatal f = absurd (not_fatal (rw (p, calculate_ip_ranges, s, f) at h))
      go pod p service s panicked f = absurd (not_panic (rw (p, calculate_ip_ranges, s, f) at h))
      go pod p service s (bound b) f = elim (Option-cases (cluster_ip_range pod service)) [
        | inl c ↦ absurd (not_panic (rw (p, calculate_ip_ranges, s, f, c) at h))
        | inr (cluster, c) ↦
            subst (Origin pod_range service_range)
              (calculated_ranges (rw (p, calculate_ip_ranges, s, f, c) at h))
              (record {
                pod_address = pod.0;
                pod_parsed = p;
                service_parsed = s;
                bind_found = f;
                cluster_found = c;
              })
      ]

-- The base environment: the calculated addresses, the sudo tool, ten ports from 7000 on, and no
-- more.
pub record IsBaseEnv (ranges : Ranges) (sudo_method : String) (e : ExecutionEnvironment)
    : Type 0 where
  pub listen_at : e.listen_address ≡ ranges.bind
  pub service_at : e.service_address ≡ ranges.first_svc
  pub dns_at : e.dns_address ≡ dns_address ranges.first_svc
  pub sudo : e.sudo_method ≡ sudo_method
  pub etcd_ports : (e.etcd_client_port ≡ 7000) × (e.etcd_peer_port ≡ 7001)
  pub api_ports : (e.kube_api_port ≡ 7002) × (e.kube_node_api_port ≡ 7003)
  pub manager_port : e.kube_controller_manager_port ≡ 7004
  pub kubelet_port : e.kubelet_health_port ≡ 7005
  pub proxy_ports : (e.kube_proxy_health_port ≡ 7006) × (e.kube_proxy_metrics_port ≡ 7007)
  pub scheduler_ports :
      (e.kube_scheduler_health_port ≡ 7008) × (e.kube_scheduler_metrics_port ≡ 7009)
  pub unset : (e.binary ≡ "") × (e.workdir ≡ "") × (e.output_handler ≡ 0) × (e.exit_handler ≡ 0)

base_exec_env-IsBaseEnv :
    (ranges : Ranges) (sudo_method : String)
    → IsBaseEnv ranges sudo_method (init_ports (base_exec_env ranges sudo_method) 7000)
unfolding init_ports base_exec_env
base_exec_env-IsBaseEnv ranges sudo_method = record {
  listen_at = refl;
  service_at = refl;
  dns_at = refl;
  sudo = refl;
  etcd_ports = (refl, refl);
  api_ports = (refl, refl);
  manager_port = refl;
  kubelet_port = refl;
  proxy_ports = (refl, refl);
  scheduler_ports = (refl, refl);
  unset = (refl, refl, refl, refl);
}

module _ (expand : String → Option String) (is_regular : String → Bool)
    (parse_ipv6 : Bytes → Option Bytes) (interfaces : Option (List (Option (List Bytes)))) where
  -- What holds of the results of evalArgs.
  pub record FromFlags (gs : ArgHandlerGlobalState) (a : ArgHandler) (e : ExecutionEnvironment)
      : Type 0 where
    pub ranges : Ranges
    pub origin : Origin parse_ipv6 interfaces gs.pod_range gs.service_range ranges
    pub base_found : expand gs.root ≡ some a.base_dir
    pub extra_found : expand gs.extra_bin_dir ≡ some a.extra_bin_dir
    pub sudo_found : is_regular gs.sudo_method ≡ true
    pub nets :
        (a.pod_range_net ≡ ranges.pod)
        × (a.service_range_net ≡ ranges.service)
        × (a.cluster_ip_range ≡ ranges.cluster)
    pub environment : IsBaseEnv ranges gs.sudo_method e
    pub switches :
        (a.enable_kube_dash ≡ gs.enable_kube_dash)
        × (a.enable_dns ≡ gs.enable_dns)
        × (a.verbose ≡ gs.verbose)

  not_fatal : {a : ArgHandler} {e : ExecutionEnvironment} → ¬ (Args.fatal ≡ evaluated a e)
  not_fatal h = cc

  not_panic : {a : ArgHandler} {e : ExecutionEnvironment} → ¬ (Args.panicked ≡ evaluated a e)
  not_panic h = cc

  handlers : {a b : ArgHandler} {e f : ExecutionEnvironment} → evaluated a e ≡ evaluated b f → a ≡ b
  handlers h = cc

  environments :
      {a b : ArgHandler} {e f : ExecutionEnvironment} → evaluated a e ≡ evaluated b f → e ≡ f
  environments h = cc

  -- If evalArgs returns, then both directories could be expanded, the ranges were calculated, the
  -- sudo tool is a regular file, the handler has the expanded directories, the calculated ranges
  -- and the switches of the flags, and the environment has the bind address as listen address, the
  -- address of the service range, the DNS address that is made from it, the sudo tool, the ports
  -- 7000 to 7009 in the order of InitPorts and nothing else.
  pub eval_args-FromFlags :
      (gs : ArgHandlerGlobalState) {a : ArgHandler} {e : ExecutionEnvironment}
      → eval_args expand is_regular parse_ipv6 interfaces gs ≡ evaluated a e
      → FromFlags gs a e
  unfolding eval_args
  eval_args-FromFlags gs {a} {e} h = elim (Option-cases (expand gs.root)) [
    | inl b ↦ absurd (not_fatal (rw (b, eval_args) at h))
    | inr (base, b) ↦ elim (Option-cases (expand gs.extra_bin_dir)) [
      | inl x ↦ absurd (not_fatal (rw (b, eval_args, x) at h))
      | inr (extra, x) ↦
          go base b extra x
            (calculate_ip_ranges parse_ipv6 interfaces gs.pod_range gs.service_range) refl
    ]
  ]
    where
      go :
          (base : String)
          → expand gs.root ≡ some base
          → (extra : String) → expand gs.extra_bin_dir ≡ some extra
          → (c : Calculated)
          → calculate_ip_ranges parse_ipv6 interfaces gs.pod_range gs.service_range ≡ c
          → FromFlags gs a e
      go base b extra x parse_error c = absurd (not_fatal (rw (b, eval_args, x, c) at h))
      go base b extra x no_address c = absurd (not_fatal (rw (b, eval_args, x, c) at h))
      go base b extra x index_panic c = absurd (not_panic (rw (b, eval_args, x, c) at h))
      go base b extra x (calculated ranges) c = elim (Bool-cases (is_regular gs.sudo_method)) [
        | inr r ↦ absurd (not_fatal (rw (b, eval_args, x, c, r) at h))
        | inl r ↦
            let result = rw (b, eval_args, x, c, r) at h in
            let same = handlers result in
            record {
              ranges = ranges;
              origin =
                  calculated-Origin parse_ipv6 interfaces gs.pod_range gs.service_range ranges c;
              base_found = b ∙ ap (λ (t : ArgHandler). some t.base_dir) same;
              extra_found = x ∙ ap (λ (t : ArgHandler). some t.extra_bin_dir) same;
              sudo_found = r;
              nets = (
                sym (ap (λ (t : ArgHandler). t.pod_range_net) same),
                sym (ap (λ (t : ArgHandler). t.service_range_net) same),
                sym (ap (λ (t : ArgHandler). t.cluster_ip_range) same),
              );
              environment =
                  subst (IsBaseEnv ranges gs.sudo_method) (environments result)
                    (base_exec_env-IsBaseEnv ranges gs.sudo_method);
              switches = (
                sym (ap (λ (t : ArgHandler). t.enable_kube_dash) same),
                sym (ap (λ (t : ArgHandler). t.enable_dns) same),
                sym (ap (λ (t : ArgHandler). t.verbose) same),
              );
            }
      ]
