-- ===== src/Kubernetes.antt =====
-- pkg/k8s/client.go: which configuration the client of the API server is made of. client-go and the
-- home directory are arguments.
use podwatcher.Prelude.{
  String, ◌≡◌, ◌≢◌, ◌⊎◌, Option, none, some, ◌==◌, if◌then◌else◌, Bool-cases, inl, inr, ==false→ne,
  eq_iff, arith, Option-cases, ap, ◌∙◌, subst,
}
use podwatcher.Checked.{Checked, ok, err, required, ◌>>=◌, bind_then, required_then, ok_same}

-- What is outside: the configuration of a kubeconfig file and of the pod itself, the path of the
-- kubeconfig in a home directory, the home directory, and the client of a configuration.
pub record ClientGo (C S : Type 0) : Type 0 where
  pub build_config_from_flags : String → Option C
  pub in_cluster_config : Option C
  pub home_dir : String
  pub join_kube_config : String → String
  pub new_for_config : C → Option S

pub record Client (C S : Type 0) : Type 0 where
  pub clientset : S
  pub config : C

pub data ClientError : Type 0 where
  bad_kubeconfig not_in_cluster no_clientset : ClientError

module _ {C S : Type 0} where
  -- the kubeconfig of the home directory, where there is one
  unfoldable pub fallback : ClientGo C S → Checked ClientError C
  fallback go =
      let path = if go.home_dir == "" then "" else go.join_kube_config go.home_dir in
      if path == ""
      then err not_in_cluster
      else required bad_kubeconfig (go.build_config_from_flags path)

  abbrev pub in_cluster_or : ClientGo C S → Option C → Checked ClientError C
  in_cluster_or go (some config) = ok config
  in_cluster_or go none = fallback go

  unfoldable pub choose_config : ClientGo C S → String → Checked ClientError C
  unfolding fallback
  choose_config go kubeconfig_path =
      if kubeconfig_path == ""
      then in_cluster_or go go.in_cluster_config
      else required bad_kubeconfig (go.build_config_from_flags kubeconfig_path)

  unfoldable pub new_client : ClientGo C S → String → Checked ClientError (Client C S)
  unfolding choose_config
  new_client go kubeconfig_path = do
    config ← choose_config go kubeconfig_path
    clientset ← required no_clientset (go.new_for_config config)
    ok (record { clientset = clientset; config = config })

module _ {C S : Type 0} (go : ClientGo C S) where
  -- where a configuration is taken from
  abbrev pub IsFrom : String → C → Type 0
  IsFrom kubeconfig_path config =
      ((kubeconfig_path ≢ "") × (go.build_config_from_flags kubeconfig_path ≡ some config))
      ⊎ ((kubeconfig_path ≡ "") × (go.in_cluster_config ≡ some config))
      ⊎ ((kubeconfig_path ≡ "")
          × (go.in_cluster_config ≡ none)
          × (go.home_dir ≢ "")
          × (go.build_config_from_flags (go.join_kube_config go.home_dir) ≡ some config))

  required_is :
      {A : Type 0} (e : ClientError) (o : Option A) (a : A) → required e o ≡ ok a → o ≡ some a
  required_is e none a h = cc
  required_is e (some b) a h = cc

  fallback-home :
      (config : C)
      → fallback go ≡ ok config
      → (go.home_dir ≢ "")
        × (go.build_config_from_flags (go.join_kube_config go.home_dir) ≡ some config)
  unfolding fallback
  fallback-home config h = elim (Bool-cases (go.home_dir == "")) [
    | inl homeless ↦ let lost : err not_in_cluster ≡ ok config = (rw homeless at h) in cc
    | inr home ↦ elim (Bool-cases (go.join_kube_config go.home_dir == "")) [
      | inl nowhere ↦ let lost : err not_in_cluster ≡ ok config = (simp (home, nowhere) at h) in cc
      | inr path ↦
          let built : required bad_kubeconfig
                (go.build_config_from_flags (go.join_kube_config go.home_dir))
              ≡ ok config =
            (simp (home, path) at h) in
          (==false→ne go.home_dir "" home, required_is bad_kubeconfig _ config built)
    ]
  ]

  choose_config-IsFrom :
      (kubeconfig_path : String) (config : C)
      → choose_config go kubeconfig_path ≡ ok config
      → IsFrom kubeconfig_path config
  unfolding choose_config
  choose_config-IsFrom kubeconfig_path config h = elim (Bool-cases (kubeconfig_path == "")) [
    | inl none_given ↦
        let unset : kubeconfig_path ≡ "" = ground (arith, eq_iff kubeconfig_path "") in
        elim (Option-cases go.in_cluster_config) [
          | inl outside ↦
              let chosen : fallback go ≡ ok config = (simp (none_given, outside) at h) in
              let (home, built) = fallback-home config chosen in
              inr (inr (unset, outside, home, built))
          | inr (own, inside) ↦
              let chosen : ok own ≡ ok config = (simp (none_given, inside) at h) in
              inr (inl (unset, cc))
        ]
    | inr given ↦
        let built : required bad_kubeconfig (go.build_config_from_flags kubeconfig_path)
            ≡ ok config =
          (rw given at h) in
        inl (==false→ne kubeconfig_path "" given, required_is bad_kubeconfig _ config built)
  ]

  -- A client that is made has the configuration of the given kubeconfig, if one is given; else that of
  -- the pod that the program runs in; and else, if that fails, that of the home directory's kubeconfig.
  pub new_client-IsFrom :
      (kubeconfig_path : String) (client : Client C S)
      → new_client go kubeconfig_path ≡ ok client
      → (go.new_for_config client.config ≡ some client.clientset)
        × IsFrom kubeconfig_path client.config
  unfolding new_client
  new_client-IsFrom kubeconfig_path client h =
      let (config, chosen, rest) = bind_then (choose_config go kubeconfig_path) _ client h in
      let (clientset, made, same) =
        required_then no_clientset (go.new_for_config config) _ client rest in
      let built : record { clientset = clientset; config = config } ≡ client = ok_same same in
      let of_config : config ≡ client.config = ap (λ c. c.config) built in
      let of_set : clientset ≡ client.clientset = ap (λ c. c.clientset) built in
      (
        subst (λ c. go.new_for_config c ≡ some client.clientset) of_config (made ∙ ap some of_set),
        subst (IsFrom kubeconfig_path) of_config
            (choose_config-IsFrom kubeconfig_path config chosen),
      )
