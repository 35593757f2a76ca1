-- ===== src/KubeClient/Node/Laws.antt =====
-- How the wait for a node ends.
use microkube.Base.{
  ℕ, zero, suc, ◌+◌, ◌<◌, String, true, false, Option, none, some, [], ◌∷◌, ◌≡◌, ◌⊎◌, inl, inr,
  refl, sym, ap, subst, ◌∙◌, arith, Bool-cases, Option-cases,
}
use microkube.KubeClient.Node.{
  Node, Listing, nodes, KubeClient, take_node, find_node, is_ready, Tick, Waited, ready,
  deadline_exceeded, fatal, out_of_fuel, wait_for_node,
}

-- The client with its node forgotten, as each round of the loop starts.
abbrev pub refreshed : KubeClient → KubeClient
refreshed k = record k { node = "" }

abbrev pub client_of : Node → KubeClient
client_of n = record { node = n.name; node_ref = some n }

-- No node is known, or the one that is known is not ready.
abbrev pub IsUnready : Option Node → Type 0
IsUnready none = Unit
IsUnready (some n) = is_ready n ≡ false

-- A round before the deadline that finds no node, or a single node that is not ready.
abbrev pub IsQuiet : Tick → Type 0
IsQuiet t =
    (t.expired ≡ false)
    × ((t.listing ≡ nodes []) ⊎ ((n : Node) × (t.listing ≡ nodes (n ∷ [])) × (is_ready n ≡ false)))

-- What the end of a wait comes with: a node that is ready.
abbrev pub IsSettled : Waited → Type 0
IsSettled (ready k schedulable) =
    (n : Node) × (k.node_ref ≡ some n) × (is_ready n ≡ true) × (schedulable ≡ n.unschedulable)
IsSettled deadline_exceeded = Unit
IsSettled fatal = Unit
IsSettled out_of_fuel = ⊥

find_node-refreshed :
    (k : KubeClient) (l : Listing) → find_node (refreshed k) l ≡ take_node (refreshed k) l
unfolding find_node
find_node-refreshed k l = refl

module _ (tick : ℕ → Tick) where
  -- A round that goes on.
  wait_on :
      (fuel i : ℕ) (k : KubeClient) (name : String) (o : Option Node)
      → (tick i).expired ≡ false
      → take_node (refreshed k) (tick i).listing ≡ some (record { node = name; node_ref = o })
      → IsUnready o
      → wait_for_node tick (suc fuel) i k
        ≡ wait_for_node tick fuel (i + 1) (record { node = name; node_ref = o })
  unfolding wait_for_node
  wait_on fuel i k name none e f u = rw (e, wait_for_node, find_node-refreshed k, f) refl
  wait_on fuel i k name (some n) e f u = rw (e, wait_for_node, find_node-refreshed k, f, u) refl

  -- A round that finds the node ready.
  wait_done :
      (fuel i : ℕ) (k : KubeClient) (name : String) (n : Node)
      → (tick i).expired ≡ false
      → take_node (refreshed k) (tick i).listing ≡ some (record { node = name; node_ref = some n })
      → is_ready n ≡ true
      → wait_for_node tick (suc fuel) i k
        ≡ ready (record { node = name; node_ref = some n }) n.unschedulable
  unfolding wait_for_node
  wait_done fuel i k name n e f t = rw (e, wait_for_node, find_node-refreshed k, f, t) refl

  -- A quiet round leaves the client without a ready node.
  quiet_takes :
      (i : ℕ) (k : KubeClient)
      → IsUnready k.node_ref
      → IsQuiet (tick i)
      → (k' : KubeClient) × (take_node (refreshed k) (tick i).listing ≡ some k')
        × IsUnready k'.node_ref
  unfolding take_node
  quiet_takes i k u (e, inl l) = (refreshed k, rw l refl, u)
  quiet_takes i k u (e, inr (n, l, b)) = (client_of n, rw l refl, b)

  -- Where rounds i, ..., i + m - 1 are quiet and round i + m finds a single ready node, m + 1
  -- rounds are enough.
  ready_after :
      (m i : ℕ) (k : KubeClient) (n : Node)
      → IsUnready k.node_ref
      → ((j : ℕ) → j < m → IsQuiet (tick (i + j)))
      → tick (i + m) ≡ record { expired = false; listing = nodes (n ∷ []) }
      → is_ready n ≡ true
      → wait_for_node tick (suc m) i k ≡ ready (client_of n) n.unschedulable
  unfolding take_node
  ready_after zero i k n u q t b =
      let here : i + 0 ≡ i = omega arith in
      let t' = sym (ap tick here) ∙ t in
      wait_done 0 i k n.name n (ap (λ x. x.expired) t') (rw t' refl) b
  ready_after (suc m) i k n u q t b =
      let here : i + 0 ≡ i = omega arith in
      let (k', f, u') =
        quiet_takes i k u (subst (λ x. IsQuiet (tick x)) here (q 0 (omega arith))) in
      let (e, _) = subst (λ x. IsQuiet (tick x)) here (q 0 (omega arith)) in
      wait_on (suc m) i k k'.node k'.node_ref e f u'
      ∙ ready_after m (i + 1) k' n u'
          (λ j lt.
            let next : i + suc j ≡ i + 1 + j = omega arith in
            subst (λ x. IsQuiet (tick x)) next (q (suc j) (omega arith)))
          (let last : i + 1 + m ≡ i + suc m = omega arith in ap tick last ∙ t) b

  -- A wait that starts without a node reference, or with that of a node that is not ready, whose
  -- rounds up to the m-th are before the deadline and find no node, or a single node that is not
  -- ready, and whose m-th round is before the deadline and finds a single ready node, returns no
  -- error: the client refers to that node, which is made schedulable if it was not.
  pub wait_for_node_ready :
      (m : ℕ) (k : KubeClient) (n : Node)
      → IsUnready k.node_ref
      → ((j : ℕ) → j < m → IsQuiet (tick j))
      → tick m ≡ record { expired = false; listing = nodes (n ∷ []) }
      → is_ready n ≡ true
      → wait_for_node tick (suc m) 0 k ≡ ready (client_of n) n.unschedulable
  wait_for_node_ready m k n u q t b =
      ready_after m 0 k n u
        (λ j lt. let same : j ≡ 0 + j = omega arith in subst (λ x. IsQuiet (tick x)) same (q j lt))
        (let same : 0 + m ≡ m = omega arith in ap tick same ∙ t) b

  expired_at :
      (fuel i : ℕ) (k : KubeClient)
      → (tick i).expired ≡ true
      → wait_for_node tick (suc fuel) i k ≡ deadline_exceeded
  unfolding wait_for_node
  expired_at fuel i k e = rw (e, wait_for_node) refl

  fatal_at :
      (fuel i : ℕ) (k : KubeClient)
      → (tick i).expired ≡ false
      → take_node (refreshed k) (tick i).listing ≡ none
      → wait_for_node tick (suc fuel) i k ≡ fatal
  unfolding wait_for_node
  fatal_at fuel i k e f = rw (e, wait_for_node, find_node-refreshed k, f) refl

  -- A round before the deadline ends in a settled state or goes on.
  round_cases :
      (fuel i : ℕ) (k : KubeClient)
      → (tick i).expired ≡ false
      → IsSettled (wait_for_node tick (suc fuel) i k)
        ⊎ ((k' : KubeClient) × (wait_for_node tick (suc fuel) i k
              ≡ wait_for_node tick fuel (i + 1) k'))
  round_cases fuel i k e = elim (Option-cases (take_node (refreshed k) (tick i).listing)) [
    | inl f ↦ inl (subst IsSettled (sym (fatal_at fuel i k e f)) tt)
    | inr (k', f) ↦ go k'.node k'.node_ref f
  ]
    where
      go :
          (name : String) (o : Option Node)
          → take_node (refreshed k) (tick i).listing ≡ some (record { node = name; node_ref = o })
          → IsSettled (wait_for_node tick (suc fuel) i k)
            ⊎ ((k' : KubeClient) × (wait_for_node tick (suc fuel) i k
                  ≡ wait_for_node tick fuel (i + 1) k'))
      go name none f = inr (_, wait_on fuel i k name none e f tt)
      go name (some n) f = elim (Bool-cases (is_ready n)) [
        | inl t ↦ inl (subst IsSettled (sym (wait_done fuel i k name n e f t)) (n, refl, t, refl))
        | inr u ↦ inr (_, wait_on fuel i k name (some n) e f u)
      ]

  ends_from :
      (m i : ℕ) (k : KubeClient)
      → (tick (i + m)).expired ≡ true
      → IsSettled (wait_for_node tick (suc m) i k)
  ends_from zero i k d =
      let same : i + 0 ≡ i = omega arith in
      subst IsSettled (sym (expired_at 0 i k (ap (λ x. (tick x).expired) (sym same) ∙ d))) tt
  ends_from (suc m) i k d = elim (Bool-cases (tick i).expired) [
    | inl e ↦ subst IsSettled (sym (expired_at (suc m) i k e)) tt
    | inr e ↦ elim (round_cases (suc m) i k e) [
      | inl s ↦ s
      | inr (k', on) ↦
          let last : i + 1 + m ≡ i + suc m = omega arith in
          subst IsSettled (sym on) (ends_from m (i + 1) k' (ap (λ x. (tick x).expired) last ∙ d))
    ]
  ]

  -- If the deadline passes in round m, m + 1 rounds are enough: the wait has come to an end by
  -- then, and if it returns no error, then the node that the client refers to is ready.
  pub wait_for_node_ends :
      (m : ℕ) (k : KubeClient)
      → (tick m).expired ≡ true
      → IsSettled (wait_for_node tick (suc m) 0 k)
  wait_for_node_ends m k d =
      let same : 0 + m ≡ m = omega arith in ends_from m 0 k (ap (λ x. (tick x).expired) same ∙ d)

  -- A round that finds no node at all is enough if the client still refers to a node that was
  -- ready earlier: the wait returns no error, with no node's name in the client.
  pub wait_for_node_stale :
      (fuel : ℕ) (k : KubeClient) (n : Node)
      → k.node_ref ≡ some n
      → is_ready n ≡ true
      → tick 0 ≡ record { expired = false; listing = nodes [] }
      → wait_for_node tick (suc fuel) 0 k
        ≡ ready (record { node = ""; node_ref = some n }) n.unschedulable
  unfolding take_node
  wait_for_node_stale fuel k n r b t =
      wait_done fuel 0 k "" n (ap (λ x. x.expired) t)
        (rw t (ap (λ o. some (record { node = ""; node_ref = o })) r)) b
