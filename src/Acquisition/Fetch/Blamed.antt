-- ===== src/Acquisition/Fetch/Blamed.antt =====
-- packages/acquisition/fetch.py: what a request leaves in the pool.
use airflow_kbo.Prelude.{
  ℕ, zero, suc, String, ◌≡◌, ◌&&◌, ◌≢◌, refl, subst, sym, All, Bool, true, false, Option, none,
  some, List, [], ◌∷◌, arith, get_elem?, ◌⊎◌, inl, inr,
}
use airflow_kbo.Text.{◌<>◌}
use airflow_kbo.Acquisition.Models.{FetchJob, FetchResult}
use airflow_kbo.Acquisition.Proxies.{
  Numbers, ProxyEntry, ProxyPool, available, pick, change_at, record_failure, lower_weight,
}
use airflow_kbo.Acquisition.Proxies.Available.{HasPicked, pick_lem}
use airflow_kbo.Acquisition.Fetch.{
  Transport, Reply, answered, tunnel_failed, os_failed, fetch, settle_reply, Route, picked_route,
  entry_route, direct_route, lacks_proxy, request,
}

get_elem?-change_at {ℓ} :
    {A : Type ℓ} (f : A → A) (xs : List A) (i : ℕ) {x : A}
    → get_elem? xs i ≡ some x
    → get_elem? (change_at i f xs) i ≡ some (f x)
unfolding change_at
get_elem?-change_at f [] i h = absurd cc
get_elem?-change_at f (y ∷ xs) zero h = cc
get_elem?-change_at f (y ∷ xs) (suc i) h = get_elem?-change_at f xs i h

the_same : {i j : ℕ} → some j ≡ some i → i ≡ j
the_same e = cc

module _ {F : Type 0} ⦃nums : Numbers F⦄ where
  -- An entry that cannot be chosen is not.
  not_picked :
      (pool : ProxyPool F) (i : ℕ) (e : ProxyEntry F)
      → get_elem? pool.entries i ≡ some e
      → available e ≡ false
      → (pick pool).0 ≢ some i
  not_picked pool i e at gone picked =
      let (e', at', here) = subst (HasPicked pool.entries) picked (pick_lem pool) in absurd cc

  failure-Stops :
      (pool : ProxyPool F) (entry : Option ℕ) (i : ℕ) (reason : String) {e : ProxyEntry F}
      → entry ≡ some i
      → get_elem? pool.entries i ≡ some e
      → (lower_weight reason e).healthy ≡ false
      → (pick (record_failure entry reason pool)).0 ≢ some i
  unfolding record_failure
  failure-Stops pool none i reason r at sick = absurd cc
  failure-Stops pool (some j) i reason {e} r at sick =
      not_picked (record_failure (some j) reason pool) i (lower_weight reason e)
        (subst
          (λ k.
            get_elem? (change_at k (lower_weight reason) pool.entries) i
            ≡ some (lower_weight reason e))
          (the_same r) (get_elem?-change_at (lower_weight reason) pool.entries i at))
        (rw sick)

module _ {F S : Type 0} ⦃nums : Numbers F⦄ where
  -- The request by the entry `i` was answered, or the entry is not chosen next.
  abbrev pub IsBlamed : ℕ → FetchResult × ProxyPool F × S → Type 0
  IsBlamed i out = (out.0.error ≡ none) ⊎ ((out.0.body ≡ none) × ((pick out.1).0 ≢ some i))

  module _ ⦃net : Transport S⦄ (job : FetchJob) (n : ℕ) where
    settle_reply-Blames :
        (i : ℕ) (route : Route) (pool : ProxyPool F) (answer : Reply × S) {e : ProxyEntry F}
        → route.entry ≡ some i
        → get_elem? pool.entries i ≡ some e
        → IsBlamed i (settle_reply job n route pool answer)
    settle_reply-Blames i route pool (answered response, s) r at = inl refl
    settle_reply-Blames i route pool (tunnel_failed m, s) r at =
        inr (refl, failure-Stops pool route.entry i "tunnel" r at refl)
    settle_reply-Blames i route pool (os_failed m, s) r at =
        inr (refl, failure-Stops pool route.entry i "connection" r at refl)

    settle_reply-sent :
        (route : Route) (pool : ProxyPool F) (answer : Reply × S)
        → (settle_reply job n route pool answer).2 ≡ answer.1
    settle_reply-sent route pool (answered response, s) = refl
    settle_reply-sent route pool (tunnel_failed m, s) = refl
    settle_reply-sent route pool (os_failed m, s) = refl

    -- The one request went to the address of an available entry, whose name the result has.
    abbrev pub ByEntry : List (ProxyEntry F) → ℕ → S → FetchResult × ProxyPool F × S → Type 0
    ByEntry es i s out =
        (e : ProxyEntry F) × (get_elem? es i ≡ some e)
        × ((e.healthy ≡ true) × (nums.less (nums.decimal 0 0) e.weight ≡ true))
        × (out.0.proxy_or_ip ≡ e.host <> ":" <> nums.str e.port)
        × (out.2 ≡ (net.get job.url (some ("http://" <> e.host <> ":" <> nums.str e.port)) s).1)
        × IsBlamed i out

    settle_reply-label :
        (route : Route) (pool : ProxyPool F) (answer : Reply × S)
        → (settle_reply job n route pool answer).0.proxy_or_ip ≡ route.proxy_label
    settle_reply-label route pool (answered response, s) = refl
    settle_reply-label route pool (tunnel_failed m, s) = refl
    settle_reply-label route pool (os_failed m, s) = refl

    -- What a request by what was picked does.
    abbrev pub IsFetched : ProxyPool F → S → FetchResult × ProxyPool F × S → Type 0
    IsFetched pool s out =
        ((i : ℕ) × ByEntry pool.entries i s out)
        ⊎ (All (λ (e : ProxyEntry F). (e.healthy && nums.less (nums.decimal 0 0) e.weight) ≡ false)
              pool.entries
            × (((pool.allow_direct ≡ true)
                  × (out.0.proxy_or_ip ≡ "direct")
                  × (out.2 ≡ (net.get job.url none s).1))
                ⊎ ((pool.allow_direct ≡ false)
                    × (out.0.error ≡ some "no_proxy_available")
                    × (out.2 ≡ s))))

    direct_lem :
        (pool : ProxyPool F) (s : S) (b : Bool)
        → pool.allow_direct ≡ b
        → All (λ e. available e ≡ false) pool.entries
        → IsFetched pool s (request job n (lacks_proxy false b direct_route) direct_route pool s)
    direct_lem pool s true a out = inr (
      out,
      inl (a, settle_reply-label direct_route pool _, settle_reply-sent direct_route pool _),
    )
    direct_lem pool s false a out = inr (out, inr (a, refl, refl))

    entry_lem :
        (pool : ProxyPool F) (s : S) (i : ℕ) {e : ProxyEntry F}
        → get_elem? pool.entries i ≡ some e
        → available e ≡ true
        → let route = entry_route i (some e) in
          IsFetched pool s (request job n (lacks_proxy false pool.allow_direct route) route pool s)
    entry_lem pool s i {e} at here =
        let route = entry_route i (some e) in
        inl (
          i,
          (
            e,
            at,
            ground (arith, here),
            settle_reply-label route pool _,
            settle_reply-sent route pool _,
            settle_reply-Blames i route pool _ refl at,
          ),
        )

    request_lem :
        (pool : ProxyPool F) (s : S) (p : Option ℕ)
        → HasPicked pool.entries p
        → let route = picked_route pool.entries p in
          IsFetched pool s (request job n (lacks_proxy false pool.allow_direct route) route pool s)
    request_lem pool s none out = direct_lem pool s pool.allow_direct refl out
    request_lem pool s (some i) (e, at, here) =
        subst
          (λ found.
            let route = entry_route i found in
            IsFetched pool s
              (request job n (lacks_proxy false pool.allow_direct route) route pool s))
          (sym at) (entry_lem pool s i at here)

    -- Without a forced lane one request is sent, through the address of a healthy proxy of the pool
    -- with a positive weight, whose host and port the result names; when it is not answered, the
    -- result has no body and that proxy is not the next choice. When the pool has no such proxy, the
    -- request is sent without a proxy if the pool allows it; otherwise nothing is sent, and the
    -- result has the error "no_proxy_available".
    pub fetch_lem : (pool : ProxyPool F) (s : S) → IsFetched pool s (fetch job pool n none none s)
    unfolding fetch pick
    fetch_lem pool s = request_lem (pick pool).1 s (pick pool).0 (pick_lem pool)
