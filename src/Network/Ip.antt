-- ===== src/Network/Ip.antt =====
-- Go's net.IP and net.IPNet, as internal/cmd/Network.go uses them. An address is its bytes: 4 or
-- 16 of them. `parse_ipv6` stands for the parser of IPv6 texts.
pub mod Agree
pub mod Contains
pub mod Printed
use Prim.Native.Nat.{bit_and}
use microkube.Base.{
  ℕ, zero, suc, ◌+◌, ◌-◌, ◌*◌, ◌/◌, ◌^◌, Option, none, some, Bool, true, false, ◌&&◌, not, [], ◌∷◌,
  ◌++◌, length, drop, ltb, leb, ◌==◌, if◌then◌else◌,
}
use mathlib.Core.Option.{get_or}
use microkube.Base.Bytes.{Bytes, equal}

pub record IpNet : Type 0 where
  pub ip : Bytes
  pub mask : Bytes

-- `^byte(0xff >> n)`
abbrev pub octet_mask : ℕ → ℕ
octet_mask n = 255 - 255 / 2 ^ n

-- The loop of net.CIDRMask over the octets.
unfoldable pub mask_bytes : ℕ → ℕ → Bytes
mask_bytes zero n = []
mask_bytes (suc l) n = if leb 8 n then 255 ∷ mask_bytes l (n - 8) else octet_mask n ∷ mask_bytes l 0

-- net.CIDRMask(ones, bits) for bits = 32 and bits = 128; `[]` is nil.
unfoldable pub cidr_mask : ℕ → ℕ → Bytes
unfolding mask_bytes
cidr_mask ones bits = if ltb bits ones then [] else mask_bytes (bits / 8) ones

abbrev pub v4_in_v6_prefix : Bytes
v4_in_v6_prefix = 0 ∷ 0 ∷ 0 ∷ 0 ∷ 0 ∷ 0 ∷ 0 ∷ 0 ∷ 0 ∷ 0 ∷ 255 ∷ 255 ∷ []

-- net.IPv4(a, b, c, d)
abbrev pub ipv4 : Bytes → Bytes
ipv4 octets = v4_in_v6_prefix ++ octets

-- IP.To4()
unfoldable pub to4 : Bytes → Option Bytes
unfolding equal
to4 (a ∷ b ∷ c ∷ d ∷ []) = some (a ∷ b ∷ c ∷ d ∷ [])
to4 (a ∷ b ∷ c ∷ d ∷ e ∷ f ∷ g ∷ h ∷ i ∷ j ∷ k ∷ l ∷ m ∷ n ∷ o ∷ p ∷ []) =
    if equal (a ∷ b ∷ c ∷ d ∷ e ∷ f ∷ g ∷ h ∷ i ∷ j ∷ k ∷ l ∷ []) v4_in_v6_prefix
    then some (m ∷ n ∷ o ∷ p ∷ [])
    else none
to4 _ = none

-- The octets of `ip` under those of `mask`.
unfoldable pub mask_octets : Bytes → Bytes → Bytes
mask_octets (x ∷ xs) (m ∷ ms) = bit_and x m ∷ mask_octets xs ms
mask_octets _ _ = []

-- The loop of IPNet.Contains over octets of equal number.
unfoldable pub octets_match : Bytes → Bytes → Bytes → Bool
octets_match (n ∷ ns) (m ∷ ms) (x ∷ xs) = bit_and n m == bit_and x m && octets_match ns ms xs
octets_match _ _ _ = true

-- networkNumberAndMask; `([], [])` is its pair of nils.
network_number : Option Bytes → IpNet → Bytes × Bytes
network_number (some number) n =
    if length n.mask == 4
    then (number, n.mask)
    else if length n.mask == 16
    then (number, drop 12 n.mask)
    else ([], [])
network_number none n =
    if length n.ip == 16 && length n.mask == 16 then (n.ip, n.mask) else ([], [])

-- IPNet.Contains(ip)
unfoldable pub net_contains : IpNet → Bytes → Bool
unfolding network_number to4 octets_match
net_contains n address =
    let (number, mask) = network_number (to4 n.ip) n in
    let x = get_or (to4 address) address in length x == length number && octets_match number mask x

-- IP.Mask(mask), for masks of 4 and of 16 octets
unfoldable pub apply_mask : Bytes → Bytes → Bytes
unfolding to4 mask_octets
apply_mask address mask =
    let x = if length mask == 4 then get_or (to4 address) address else address in
    if length x == length mask then mask_octets x mask else []

is_digit : ℕ → Bool
is_digit c = leb b'0' c && leb c b'9'

-- dtoi: a decimal number below 0xFFFFFF in front of the text, and the text behind it.
dtoi_from : ℕ → Bytes → Option (ℕ × Bytes)
dtoi_from n [] = some (n, [])
dtoi_from n (c ∷ cs) =
    let next = n * 10 + (c - b'0') in
    let rest = dtoi_from next cs in
    if not (is_digit c) then some (n, c ∷ cs) else if leb 0xFFFFFF next then none else rest

dtoi : Bytes → Option (ℕ × Bytes)
unfolding dtoi_from is_digit
dtoi [] = none
dtoi (c ∷ cs) = if is_digit c then dtoi_from 0 (c ∷ cs) else none

infixl 5 ◌>>=◌
abbrev ◌>>=◌ : {A B : Type 0} → Option A → (A → Option B) → Option B
some a >>= f = f a
none >>= f = none

abbrev when : Bool → Bytes → Option Bytes
when b s = if b then some s else none

-- `if i > 0 { … s[0] != '.' … }`
skip_dot : Bool → Bytes → Option Bytes
skip_dot first [] = none
skip_dot true s = some s
skip_dot false (c ∷ cs) = when (c == b'.') cs

-- parseIPv4: so many more octets, and nothing behind them.
parse_octets : ℕ → Bool → Bytes → Option Bytes
parse_octets zero first s = when (length s == 0) []
parse_octets (suc k) first s = do
  t ← skip_dot first s
  number ← dtoi t
  octet ← when (leb number.0 255) (number.0 ∷ [])
  octets ← parse_octets k false number.1
  some (octet ++ octets)

-- net.ParseIP; `none` is nil.
unfoldable pub parse_ip : (Bytes → Option Bytes) → Bytes → Option Bytes
unfolding parse_octets skip_dot dtoi
parse_ip parse_ipv6 s = elim (parse_octets 4 true s) [
  | some octets ↦ some (ipv4 octets)
  | none ↦ parse_ipv6 s
]

-- The text before and behind the first '/'.
split_slash : Bytes → Option (Bytes × Bytes)
split_slash [] = none
split_slash (c ∷ cs) =
    let rest = split_slash cs in
    if c == b'/' then some ([], cs) else rest >>= λ r. some (c ∷ r.0, r.1)

-- The mask's number of ones, at most `limit`.
parse_ones : Bytes → ℕ → Option ℕ
parse_ones s limit = do
  number ← dtoi s
  if length number.1 == 0 && leb number.0 limit then some number.0 else none

make_net : Bytes → ℕ → ℕ → Bytes × IpNet
unfolding cidr_mask apply_mask
make_net address ones bits =
    let mask = cidr_mask ones bits in
    (address, record { ip = apply_mask address mask; mask = mask })

-- net.ParseCIDR; `none` is its error.
unfoldable pub parse_cidr : (Bytes → Option Bytes) → Bytes → Option (Bytes × IpNet)
unfolding make_net parse_ones split_slash parse_octets skip_dot dtoi
parse_cidr parse_ipv6 s = do
  parts ← split_slash s
  elim (parse_octets 4 true parts.0) [
    | some octets ↦ do ones ← parse_ones parts.1 32; some (make_net (ipv4 octets) ones 32)
    | none ↦ do
      address ← parse_ipv6 parts.0
      ones ← parse_ones parts.1 128
      some (make_net address ones 128)
  ]
