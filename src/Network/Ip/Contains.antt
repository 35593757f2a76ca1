-- ===== src/Network/Ip/Contains.antt =====
-- IPv4 networks: which addresses IPNet.Contains accepts.
use microkube.Base.{ℕ, zero, suc, ◌-◌, some, true, [], ◌∷◌, ◌≡◌, ◌↔◌, refl, ap, ◌∙◌, arith, length}
use microkube.Base.Bytes.{Bytes, equal}
use microkube.Network.Ip.{ipv4, to4, mask_bytes, net_contains}
use microkube.Network.Ip.Agree.{AreOctets, Agree, octets_match_iff, mask_bytes-suc}

-- The four octets of an IPv4 address.
pub record IsV4 (octets : Bytes) : Type 0 where
  pub four : length octets ≡ 4
  pub bytes : AreOctets octets

pub to4-ipv4 : (octets : Bytes) → length octets ≡ 4 → to4 (ipv4 octets) ≡ some octets
unfolding to4 equal
to4-ipv4 (a ∷ b ∷ c ∷ d ∷ []) h = refl
to4-ipv4 _ h = absurd (omega arith)

pub to4_four : (octets : Bytes) → length octets ≡ 4 → to4 octets ≡ some octets
unfolding to4
to4_four (a ∷ b ∷ c ∷ d ∷ []) h = refl
to4_four _ h = absurd (omega arith)

pub length-mask_bytes : (l n : ℕ) → length (mask_bytes l n) ≡ l
unfolding mask_bytes
length-mask_bytes zero n = refl
length-mask_bytes (suc l) n = ap length (mask_bytes-suc l n) ∙ ap suc (length-mask_bytes l (n - 8))

-- A network given by an address in either form and by `n` ones accepts the IPv4 addresses that
-- agree with it in the first `n` bits.
pub net_contains_iff :
    (n : ℕ) (ip octets y : Bytes)
    → to4 ip ≡ some octets
    → length octets ≡ 4
    → length y ≡ 4
    → (net_contains (record { ip = ip; mask = mask_bytes 4 n }) (ipv4 y) ≡ true) ↔ Agree n octets y
unfolding net_contains
net_contains_iff n ip octets y e h k =
    rw (e, net_contains, to4-ipv4 y k, length-mask_bytes 4 n, h, k)
      (octets_match_iff 4 n octets y h k)
