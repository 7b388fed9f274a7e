-- ===== src/Address.antt =====
-- real_ip of io_monitor/io_monitor.c: the text of the address that a socket is connected to.
pub mod Numbers
mod Tests
use io_monitor.Prelude.{ℕ, ◌+◌, ◌*◌, Option, none, some, ◌∷◌, ◌++◌, Bytes, ◌==◌, if◌then◌else◌}
use io_monitor.Format.{decimal}

abbrev pub af_inet : ℕ
af_inet = 2

-- `struct sockaddr_in`: the family, and the bytes of the port and of the address as they lie in memory.
pub record SockaddrIn : Type 0 where
  pub sa_family : ℕ
  pub sin_port : ℕ × ℕ
  pub sin_addr : ℕ × ℕ × ℕ × ℕ

unfoldable pub be16toh : ℕ × ℕ → ℕ
be16toh (high, low) = high * 256 + low

-- `%u.%u.%u.%u:%u`
unfoldable pub ip_text : SockaddrIn → Bytes
unfolding be16toh decimal
ip_text addr =
    decimal addr.sin_addr.0
    ++ (b'.'
        ∷ (decimal addr.sin_addr.1
            ++ (b'.'
                ∷ (decimal addr.sin_addr.2
                    ++ (b'.'
                        ∷ (decimal addr.sin_addr.3 ++ (b':' ∷ decimal (be16toh addr.sin_port))))))))

-- `none` is the pointer 0. The text is the same whether it is written to `out` or to a block of malloc.
unfoldable pub real_ip : SockaddrIn → Option Bytes
unfolding ip_text
real_ip addr = if addr.sa_family == af_inet then some (ip_text addr) else none
