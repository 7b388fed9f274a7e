-- ===== src/Address/Numbers.antt =====
-- real_ip of io_monitor/io_monitor.c: how long the text is, and what it is read back as.
use io_monitor.Prelude.{
  ℕ, suc, ◌+◌, ◌-◌, ◌*◌, ◌≤◌, ◌<◌, true, false, some, List, [], ◌∷◌, ◌++◌, Bytes, All, length,
  length-append, if◌then◌else◌, ◌≡◌, refl, arith,
}
use io_monitor.Format.{decimal}
use io_monitor.Format.Laws.{is_digit, value_from, decimal-All, value-decimal, length-decimal}
use io_monitor.Address.{af_inet, SockaddrIn, be16toh, ip_text, real_ip}

-- The numbers of a text, which any other byte separates.
unfoldable pub numbers_from : ℕ → Bytes → List ℕ
numbers_from acc [] = acc ∷ []
numbers_from acc (c ∷ s) =
    if is_digit c then numbers_from (acc * 10 + (c - b'0')) s else acc ∷ numbers_from 0 s

numbers_from-append :
    (acc : ℕ) (digits : Bytes) (separator : ℕ) (s : Bytes)
    → All (λ c. is_digit c ≡ true) digits
    → is_digit separator ≡ false
    → numbers_from acc (digits ++ (separator ∷ s)) ≡ value_from acc digits ∷ numbers_from 0 s
unfolding numbers_from
numbers_from-append acc [] separator s all other = rw other refl
numbers_from-append acc (c ∷ digits) separator s all other =
    rw (all.0, numbers_from-append (acc * 10 + (c - b'0')) digits separator s all.1 other) refl

numbers_from-digits :
    (acc : ℕ) (digits : Bytes)
    → All (λ c. is_digit c ≡ true) digits
    → numbers_from acc digits ≡ value_from acc digits ∷ []
unfolding numbers_from
numbers_from-digits acc [] all = refl
numbers_from-digits acc (c ∷ digits) all =
    rw (all.0, numbers_from-digits (acc * 10 + (c - b'0')) digits all.1) refl

numbers_from-decimal :
    (n separator : ℕ) (s : Bytes)
    → is_digit separator ≡ false
    → numbers_from 0 (decimal n ++ (separator ∷ s)) ≡ n ∷ numbers_from 0 s
numbers_from-decimal n separator s other =
    rw (numbers_from-append 0 (decimal n) separator s (decimal-All n) other, value-decimal n) refl

numbers_from-last : (n : ℕ) → numbers_from 0 (decimal n) ≡ n ∷ []
numbers_from-last n = rw (numbers_from-digits 0 (decimal n) (decimal-All n), value-decimal n) refl

-- The bytes of the structure are bytes.
pub record IsSockaddr (addr : SockaddrIn) : Type 0 where
  pub inet : addr.sa_family ≡ af_inet
  pub port : (addr.sin_port.0 < 256) × (addr.sin_port.1 < 256)
  pub address :
      (addr.sin_addr.0 < 256)
      × (addr.sin_addr.1 < 256)
      × (addr.sin_addr.2 < 256)
      × (addr.sin_addr.3 < 256)

length-byte : (n : ℕ) → n < 256 → length (decimal n) ≤ 3
length-byte n h = length-decimal n 2 (omega (arith, h))

length-then :
    (s t : Bytes) (c : ℕ) {m k : ℕ}
    → length s ≤ m
    → length t ≤ k
    → length (s ++ (c ∷ t)) ≤ m + suc k
length-then s t c h l = rw (length-append s (c ∷ t)) (omega (arith, h, l))

numbers-ip_text :
    (addr : SockaddrIn)
    → numbers_from 0 (ip_text addr)
      ≡ addr.sin_addr.0
        ∷ addr.sin_addr.1
        ∷ addr.sin_addr.2
        ∷ addr.sin_addr.3
        ∷ (addr.sin_port.0 * 256 + addr.sin_port.1)
        ∷ []
unfolding ip_text be16toh
numbers-ip_text addr =
    rw
      (
        numbers_from-decimal addr.sin_addr.0 b'.' _ refl,
        numbers_from-decimal addr.sin_addr.1 b'.' _ refl,
        numbers_from-decimal addr.sin_addr.2 b'.' _ refl,
        numbers_from-decimal addr.sin_addr.3 b':' _ refl,
        numbers_from-last (addr.sin_port.0 * 256 + addr.sin_port.1),
      )
      refl

length-ip_text : (addr : SockaddrIn) → IsSockaddr addr → length (ip_text addr) ≤ 21
unfolding ip_text be16toh
length-ip_text addr h =
    length-then (decimal addr.sin_addr.0) _ b'.' (length-byte addr.sin_addr.0 h.address.0) (
      length-then (decimal addr.sin_addr.1) _ b'.' (length-byte addr.sin_addr.1 h.address.1) (
        length-then (decimal addr.sin_addr.2) _ b'.' (length-byte addr.sin_addr.2 h.address.2) (
          length-then (decimal addr.sin_addr.3) _ b':' (length-byte addr.sin_addr.3 h.address.3) (
            length-decimal (addr.sin_port.0 * 256 + addr.sin_port.1) 4
              (omega (arith, h.port.0, h.port.1))))))

-- For an address of the family AF_INET there is a text; its numbers are the four bytes of the address
-- and the port; and with its NUL it takes at most 22 of the 100 bytes.
pub real_ip_lem :
    (addr : SockaddrIn)
    → IsSockaddr addr
    → (text : Bytes) × (real_ip addr ≡ some text)
      × (numbers_from 0 text
          ≡ addr.sin_addr.0
            ∷ addr.sin_addr.1
            ∷ addr.sin_addr.2
            ∷ addr.sin_addr.3
            ∷ (addr.sin_port.0 * 256 + addr.sin_port.1)
            ∷ [])
      × (length text + 1 ≤ 22)
unfolding real_ip
real_ip_lem addr h =
    (ip_text addr, rw h.inet refl, numbers-ip_text addr, omega (arith, length-ip_text addr h))
