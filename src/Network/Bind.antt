-- ===== src/Network/Bind.antt =====
-- FindBindAddress and findBindAddress: the address that services are bound to.
pub mod Choice
use microkube.Base.{
  Option, none, some, Bool, true, false, ◌&&◌, ◌||◌, not, List, [], ◌∷◌, ◌++◌, if◌then◌else◌,
}
use microkube.Base.Bytes.{Bytes, codes}
use microkube.Network.Ip.{IpNet, net_contains, to4, parse_cidr}

-- What FindBindAddress comes to: `fatal` is a logrus Fatal, which ends the process, and `panicked`
-- an index out of range.
pub data BindAddress : Type 0 where
  bound : Bytes → BindAddress
  fatal : BindAddress
  panicked : BindAddress

abbrev is_some : {A : Type 0} → Option A → Bool
is_some (some _) = true
is_some none = false

module _ (parse_ipv6 : Bytes → Option Bytes) where
  -- The network of a constant text; the code ignores the error.
  abbrev pub net_of : Bytes → Option IpNet
  net_of s = elim (parse_cidr parse_ipv6 s) [ some r ↦ some r.1 | none ↦ none ]

  unfoldable pub in_net : Option IpNet → Bytes → Bool
  in_net (some n) address = net_contains n address
  in_net none address = false

  unfoldable pub is_private : Bytes → Bool
  is_private address =
      in_net (net_of (codes "10.0.0.0/8")) address
      || in_net (net_of (codes "172.16.0.0/12")) address
      || in_net (net_of (codes "192.168.0.0/16")) address

  -- The loop of findBindAddress: the first private candidate.
  unfoldable pub first_private : List Bytes → Option Bytes
  first_private [] = none
  first_private (item ∷ items) = if is_private item then some item else first_private items

  -- findBindAddress
  unfoldable pub find_bind_address : List Bytes → BindAddress
  unfolding first_private
  find_bind_address [] = panicked
  find_bind_address (item ∷ items) = elim (first_private (item ∷ items)) [
    | some address ↦ bound address
    | none ↦ bound item
  ]

  -- The inner loop of FindBindAddress over the address texts of one interface.
  unfoldable pub usable : Bytes → List Bytes
  usable str = elim (parse_cidr parse_ipv6 str) [
    | none ↦ []
    | some (address, _) ↦
        if is_some (to4 address) && not (in_net (net_of (codes "127.0.0.1/8")) address)
        then address ∷ []
        else []
  ]

  add_usable : List Bytes → List Bytes
  add_usable [] = []
  add_usable (str ∷ strs) = usable str ++ add_usable strs

  -- The loop over the interfaces; `none` is an interface whose addresses cannot be read.
  unfoldable pub candidates : List (Option (List Bytes)) → List Bytes
  unfolding add_usable
  candidates [] = []
  candidates (none ∷ ifaces) = candidates ifaces
  candidates (some addrs ∷ ifaces) = add_usable addrs ++ candidates ifaces

  -- FindBindAddress, by what net.Interfaces returned; `none` is its error.
  unfoldable pub find_address : Option (List (Option (List Bytes))) → BindAddress
  find_address none = fatal
  find_address (some ifaces) = elim (candidates ifaces) [
    | [] ↦ fatal
    | item ∷ items ↦ find_bind_address (item ∷ items)
  ]
