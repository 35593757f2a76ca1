-- ===== src/Services/Shared/Printed.antt =====
-- IP.String() and net.ParseIP, which stand at the two ends of the names in a server certificate.
use microkube.Base.{ℕ, ◌<◌, Option, some, [], ◌∷◌, ◌++◌, ◌≡◌, refl, ap, ◌∙◌, String}
use microkube.Base.Bytes.{Bytes, codes}
use microkube.Base.Texts as Texts
use microkube.Base.Texts.{itoa}
use microkube.Base.Texts.Digits.{codes-append}
use microkube.Network.Ip.{to4, parse_ip, ipv4}
use microkube.Network.Ip.Printed.{octet, parse_ip-octets}
use microkube.Services.Shared.{dotted, ip_string}

dotted_step :
    (a : ℕ) (rest : String)
    → codes (Texts.◌++◌ (itoa a) (Texts.◌++◌ "." rest)) ≡ octet a ++ (b'.' ∷ codes rest)
dotted_step a rest =
    codes-append (itoa a) (Texts.◌++◌ "." rest) ∙ ap (λ t. octet a ++ t) (codes-append "." rest)

codes-dotted :
    (a b c d : ℕ)
    → codes (dotted (a ∷ b ∷ c ∷ d ∷ []))
      ≡ octet a ++ (b'.' ∷ (octet b ++ (b'.' ∷ (octet c ++ (b'.' ∷ octet d)))))
unfolding dotted
codes-dotted a b c d =
    dotted_step a _
    ∙ ap (λ t. octet a ++ (b'.' ∷ t))
        (dotted_step b _ ∙ ap (λ t. octet b ++ (b'.' ∷ t)) (dotted_step c _))

-- The text that IP.String() writes of an IPv4 address, in its form of 4 or of 16 bytes, is read by
-- net.ParseIP as the same address in its form of 16 bytes, so that the address a server is bound
-- to becomes an address of its certificate and not a DNS name.
pub parse_ip-ip_string :
    (ipv6_text : Bytes → String) (parse_ipv6 : Bytes → Option Bytes) (address : Bytes) (a b c d : ℕ)
    → to4 address ≡ some (a ∷ b ∷ c ∷ d ∷ [])
    → a < 256
    → b < 256
    → c < 256
    → d < 256
    → parse_ip parse_ipv6 (codes (ip_string ipv6_text address)) ≡ some (ipv4 (a ∷ b ∷ c ∷ d ∷ []))
unfolding ip_string
parse_ip-ip_string ipv6_text parse_ipv6 address a b c d e la lb lc ld =
    let shown : ip_string ipv6_text address ≡ dotted (a ∷ b ∷ c ∷ d ∷ []) =
      rw (e, ip_string) refl in
    ap (λ t. parse_ip parse_ipv6 (codes t)) shown
    ∙ (ap (parse_ip parse_ipv6) (codes-dotted a b c d)
        ∙ parse_ip-octets parse_ipv6 a b c d la lb lc ld)
