-- ===== src/Network/Bind/Choice.antt =====
-- Which address FindBindAddress chooses.
use microkube.Base.{
  Option, none, some, Bool, true, false, not, ◌&&◌, List, [], ◌∷◌, ◌++◌, ◌≡◌, ◌⊎◌, inl, inr, refl,
  sym, ◌∙◌, append_assoc, map, concat, ap, subst, All, All-append, if◌then◌else◌, Bool-cases,
  Option-cases,
}
use microkube.Base.Bytes.{Bytes, codes}
use microkube.Files.Store.{true-ne-false}
use microkube.Network.Ip.{IpNet, to4, parse_cidr}
use microkube.Network.Bind.{
  bound, fatal, in_net, net_of, is_some, is_private, first_private, find_bind_address, usable,
  add_usable, candidates, find_address,
}

-- The address texts of an interface; there are none where they cannot be read.
abbrev texts_of : Option (List Bytes) → List Bytes
texts_of none = []
texts_of (some addrs) = addrs

module _ (parse_ipv6 : Bytes → Option Bytes) where
  -- An IPv4 address that is not a loopback address.
  pub record IsUsable (address : Bytes) : Type 0 where
    pub octets : Bytes
    pub ipv4 : to4 address ≡ some octets
    pub outside : in_net parse_ipv6 (net_of parse_ipv6 (codes "127.0.0.1/8")) address ≡ false

  abbrev pub IsPublic : Bytes → Type 0
  IsPublic address = is_private parse_ipv6 address ≡ false

  -- The first private one of the candidates, or the first of all where none is private.
  pub record Chosen (items : List Bytes) (address : Bytes) : Type 0 where
    pub before : List Bytes
    pub after : List Bytes
    pub splits : items ≡ before ++ address ∷ after
    pub skipped : All IsPublic before
    pub choice : (is_private parse_ipv6 address ≡ true) ⊎ ((before ≡ []) × All IsPublic items)

  first_private_cases :
      (items : List Bytes)
      → ((first_private parse_ipv6 items ≡ none) × All IsPublic items)
        ⊎ ((address : Bytes) × (first_private parse_ipv6 items ≡ some address)
            × (is_private parse_ipv6 address ≡ true)
            × Chosen items address)
  unfolding first_private
  first_private_cases [] = inl (refl, tt)
  first_private_cases (item ∷ items) = elim (Bool-cases (is_private parse_ipv6 item)) [
    | inl e ↦ inr (
      item,
      rw e refl,
      e,
      record { before = []; after = items; splits = refl; skipped = tt; choice = inl e },
    )
    | inr e ↦ elim (first_private_cases items) [
      | inl (n, all) ↦ inl (rw e n, (e, all))
      | inr (address, f, private, c) ↦ inr (
        address,
        rw e f,
        private,
        record {
          before = item ∷ c.before;
          after = c.after;
          splits = ap (λ t. item ∷ t) c.splits;
          skipped = (e, c.skipped);
          choice = inl private;
        },
      )
    ]
  ]

  loopback : Bytes → Bool
  loopback address = in_net parse_ipv6 (net_of parse_ipv6 (codes "127.0.0.1/8")) address

  All-usable : (str : Bytes) → All IsUsable (usable parse_ipv6 str)
  unfolding usable loopback
  All-usable str = elim (Option-cases (parse_cidr parse_ipv6 str)) [
    | inl e ↦ rw (e, usable) tt
    | inr (r, e) ↦ rw (e, usable) (go r.0 (to4 r.0) refl (loopback r.0) refl)
  ]
    where
      go :
          (address : Bytes) (o : Option Bytes)
          → to4 address ≡ o
          → (b : Bool) → loopback address ≡ b
          → All IsUsable (if is_some o && not b then address ∷ [] else [])
      go address none o true b = tt
      go address none o false b = tt
      go address (some octets) o true b = tt
      go address (some octets) o false b = (record { octets = octets; ipv4 = o; outside = b }, tt)

  All-candidates :
      (ifaces : List (Option (List Bytes))) → All IsUsable (candidates parse_ipv6 ifaces)
  unfolding candidates
  All-candidates [] = tt
  All-candidates (none ∷ ifaces) = All-candidates ifaces
  All-candidates (some addrs ∷ ifaces) = All-append IsUsable _ _ (go addrs) (All-candidates ifaces)
    where
      go : (strs : List Bytes) → All IsUsable (add_usable parse_ipv6 strs)
      go [] = tt
      go (str ∷ strs) = All-append IsUsable _ _ (All-usable str) (go strs)

  All-split :
      (before after : List Bytes) (address : Bytes)
      → All IsUsable (before ++ address ∷ after)
      → IsUsable address
  All-split [] after address h = h.0
  All-split (b ∷ before) after address h = All-split before after address h.1

  Chosen-IsUsable :
      {items : List Bytes} {address : Bytes}
      → All IsUsable items
      → Chosen items address
      → IsUsable address
  Chosen-IsUsable {address} h c =
      All-split c.before c.after address (subst (All IsUsable) c.splits h)

  find_bind_address_cases :
      (item : Bytes) (items : List Bytes)
      → (address : Bytes) × (find_bind_address parse_ipv6 (item ∷ items) ≡ bound address)
        × Chosen (item ∷ items) address
  unfolding find_bind_address
  find_bind_address_cases item items = elim (first_private_cases (item ∷ items)) [
    | inl (n, all) ↦ (
      item,
      rw (n, find_bind_address) refl,
      record { before = []; after = items; splits = refl; skipped = tt; choice = inr (refl, all) },
    )
    | inr (address, f, private, c) ↦ (address, rw (f, find_bind_address) refl, c)
  ]

  -- The address texts of the interfaces whose addresses can be read, in order.
  abbrev pub readable : List (Option (List Bytes)) → List Bytes
  readable ifaces = concat (map texts_of ifaces)

  -- Of an address text: the address in it, if it is usable, and nothing otherwise.
  abbrev pub ComesOf : Bytes → List Bytes → Type 0
  ComesOf str items =
      ((address : Bytes) × (net : IpNet) × (parse_cidr parse_ipv6 str ≡ some (address, net))
        × IsUsable address
        × (items ≡ address ∷ []))
      ⊎ (((address : Bytes) (net : IpNet)
            → parse_cidr parse_ipv6 str ≡ some (address, net)
            → ¬ IsUsable address)
          × (items ≡ []))

  -- Exactly the usable addresses of the texts, in their order.
  abbrev pub Collects : List Bytes → List Bytes → Type 0
  Collects [] items = items ≡ []
  Collects (str ∷ strs) items =
      (xs : List Bytes) × (ys : List Bytes) × ComesOf str xs × Collects strs ys × (items ≡ xs ++ ys)

  usable-ComesOf : (str : Bytes) → ComesOf str (usable parse_ipv6 str)
  unfolding usable loopback
  usable-ComesOf str = elim (Option-cases (parse_cidr parse_ipv6 str)) [
    | inl e ↦ inr (λ address net h. absurd (some_is_some (sym e ∙ h)), rw (e, usable) refl)
    | inr (r, e) ↦
        subst (ComesOf str) (sym (tested r e)) (go r e (to4 r.0) refl (loopback r.0) refl)
  ]
    where
      some_is_some : {r : Bytes × IpNet} → ¬ (none ≡ some r)
      some_is_some h = cc

      tested :
          (r : Bytes × IpNet)
          → parse_cidr parse_ipv6 str ≡ some r
          → usable parse_ipv6 str
            ≡ (if is_some (to4 r.0) && not (loopback r.0) then r.0 ∷ [] else [])
      tested r e = rw (e, usable) refl

      same :
          (r : Bytes × IpNet)
          → parse_cidr parse_ipv6 str ≡ some r
          → (address : Bytes) (net : IpNet) → parse_cidr parse_ipv6 str ≡ some (address, net)
          → address ≡ r.0
      same r e address net h =
          ap (λ o. elim o as (λ _. Bytes) [ some x ↦ x.0 | none ↦ [] ]) (sym h ∙ e)

      no_octets : {octets : Bytes} → ¬ (none ≡ some octets)
      no_octets h = cc

      go :
          (r : Bytes × IpNet)
          → parse_cidr parse_ipv6 str ≡ some r
          → (o : Option Bytes) → to4 r.0 ≡ o
          → (b : Bool) → loopback r.0 ≡ b
          → ComesOf str (if is_some o && not b then r.0 ∷ [] else [])
      go r e none o true b = inr (
        λ address net h u. no_octets (sym o ∙ (ap to4 (sym (same r e address net h)) ∙ u.ipv4)),
        refl,
      )
      go r e none o false b = inr (
        λ address net h u. no_octets (sym o ∙ (ap to4 (sym (same r e address net h)) ∙ u.ipv4)),
        refl,
      )
      go r e (some octets) o true b = inr (
        λ address net h u.
            true-ne-false (sym b ∙ (ap loopback (sym (same r e address net h)) ∙ u.outside)),
        refl,
      )
      go r e (some octets) o false b =
          inl (r.0, r.1, e, record { octets = octets; ipv4 = o; outside = b }, refl)

  Collects-append :
      (front rest items others : List Bytes)
      → Collects front items
      → Collects rest others
      → Collects (front ++ rest) (items ++ others)
  Collects-append [] rest items others e c = rw e c
  Collects-append (str ∷ front) rest items others (xs, ys, f, c, e) d = (
    xs,
    ys ++ others,
    f,
    Collects-append front rest ys others c d,
    ap (λ t. t ++ others) e ∙ append_assoc xs ys others,
  )

  candidates-Collects :
      (ifaces : List (Option (List Bytes)))
      → Collects (readable ifaces) (candidates parse_ipv6 ifaces)
  unfolding candidates
  candidates-Collects [] = refl
  candidates-Collects (none ∷ ifaces) = candidates-Collects ifaces
  candidates-Collects (some addrs ∷ ifaces) =
      Collects-append addrs (readable ifaces) _ _ (go addrs) (candidates-Collects ifaces)
    where
      go : (strs : List Bytes) → Collects strs (add_usable parse_ipv6 strs)
      go [] = refl
      go (str ∷ strs) = (_, _, usable-ComesOf str, go strs, refl)

  -- FindBindAddress, when the interfaces can be listed, by the list of the IPv4 addresses outside
  -- 127.0.0.0/8 that the readable interfaces have, in their order: it is fatal exactly when this
  -- list is empty. Otherwise it returns one of these addresses: the first private one, or the first
  -- of all if none is private. It never panics.
  pub find_address_cases :
      (ifaces : List (Option (List Bytes)))
      → (items : List Bytes) × Collects (readable ifaces) items
        × (((find_address parse_ipv6 (some ifaces) ≡ fatal) × (items ≡ []))
            ⊎ ((address : Bytes) × (find_address parse_ipv6 (some ifaces) ≡ bound address)
                × Chosen items address
                × IsUsable address))
  unfolding find_address
  find_address_cases ifaces = (candidates parse_ipv6 ifaces, candidates-Collects ifaces, cases)
    where
      go :
          (items : List Bytes)
          → candidates parse_ipv6 ifaces ≡ items
          → All IsUsable items
          → ((find_address parse_ipv6 (some ifaces) ≡ fatal) × (candidates parse_ipv6 ifaces ≡ []))
            ⊎ ((address : Bytes) × (find_address parse_ipv6 (some ifaces) ≡ bound address)
                × Chosen (candidates parse_ipv6 ifaces) address
                × IsUsable address)
      go [] e h = inl (rw (e, find_address) refl, e)
      go (item ∷ items) e h =
          let (address, f, c) = find_bind_address_cases item items in
          inr (address, rw (e, find_address) f, rw e c, Chosen-IsUsable h c)

      cases :
          ((find_address parse_ipv6 (some ifaces) ≡ fatal) × (candidates parse_ipv6 ifaces ≡ []))
          ⊎ ((address : Bytes) × (find_address parse_ipv6 (some ifaces) ≡ bound address)
              × Chosen (candidates parse_ipv6 ifaces) address
              × IsUsable address)
      cases = go (candidates parse_ipv6 ifaces) refl (All-candidates ifaces)
