-- ===== src/Address/Tests.antt =====
-- An address to try real_ip of io_monitor/io_monitor.c on.
use io_monitor.Prelude.{◌+◌, ◌≤◌, some, [], ◌∷◌, Bytes, codes, length, ◌≡◌, refl, arith}
use io_monitor.Address.{SockaddrIn, real_ip}
use io_monitor.Address.Numbers.{IsSockaddr, numbers_from, real_ip_lem}

abbrev web_server : SockaddrIn
web_server = record { sa_family = 2; sin_port = (31, 144); sin_addr = (10, 0, 0, 255) }

web_server-text : real_ip web_server ≡ some (codes "10.0.0.255:8080")
unfolding real_ip
web_server-text = refl

web_server-IsSockaddr : IsSockaddr web_server
web_server-IsSockaddr = record {
  inet = refl;
  port = (omega arith, omega arith);
  address = (omega arith, omega arith, omega arith, omega arith);
}

real_ip_example :
    (text : Bytes) × (real_ip web_server ≡ some text)
    × (numbers_from 0 text ≡ 10 ∷ 0 ∷ 0 ∷ 255 ∷ 8080 ∷ [])
    × (length text + 1 ≤ 22)
real_ip_example = real_ip_lem web_server web_server-IsSockaddr
