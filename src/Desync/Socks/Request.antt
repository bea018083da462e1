-- ===== src/Desync/Socks/Request.antt =====
-- The SOCKS5 request, against an encoder of what a client sends.
use sc_desktop_beautiful.Prelude.{List, [], length, ℕ, ◌%◌, ◌++◌, ◌/◌, ◌∷◌, ◌≡◌}
use sc_desktop_beautiful.Desync.Socks.{Host, domain, ipv4, ipv6}

-- The address as the client writes it, with its type in front.
unfoldable pub encode_host : Host → List ℕ
encode_host (ipv4 a) = 0x01 ∷ a
encode_host (domain s) = 0x03 ∷ length s ∷ s
encode_host (ipv6 a) = 0x04 ∷ a

-- A numeric address has its size.
unfoldable pub IsHost : Host → Type 0
IsHost (ipv4 a) = length a ≡ 4
IsHost (domain s) = Unit
IsHost (ipv6 a) = length a ≡ 16

-- A greeting with the methods offered, and a CONNECT request.
unfoldable pub encode : List ℕ → Host → ℕ → List ℕ
unfolding encode_host
encode methods host port =
    0x05
    ∷ length methods
    ∷ (methods ++ 0x05 ∷ 0x01 ∷ 0x00 ∷ (encode_host host ++ (port / 256) ∷ (port % 256) ∷ []))

abbrev atyp_of : Host → ℕ
atyp_of (ipv4 a) = 0x01
atyp_of (domain s) = 0x03
atyp_of (ipv6 a) = 0x04

abbrev body_of : Host → List ℕ
body_of (ipv4 a) = a
body_of (domain s) = length s ∷ s
body_of (ipv6 a) = a
