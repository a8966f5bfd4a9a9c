-- ===== src/Inet.antt =====
-- Addresses in text: libuv/src/inet.c. What its parts share: the results, the constants, and the numbers in
-- text that `%u` and `%x` print. A string is the list of its bytes before the terminating 0.
pub mod Print
pub mod Parse
pub mod Dotted
pub mod Octets
pub mod Canonical
pub mod Gap
pub mod Size
pub mod Room
mod Tests
use libuv_analyse.Base.{
  ℕ, zero, suc, ◌+◌, ◌-◌, ◌/◌, ◌%◌, Bool, List, [], ◌∷◌, ◌++◌, ltb, ◌==◌, if◌then◌else◌,
}

pub data Failure : Type 0 where
  einval : Failure
  enospc : Failure
  eafnosupport : Failure

-- What a function returns: the bytes it has written, or its error.
pub data Written : Type 0 where
  written : List ℕ → Written
  failed : Failure → Written

-- `af`.
pub data Family : Type 0 where
  inet : Family
  inet6 : Family
  other_family : Family

-- UV__INET_ADDRSTRLEN and UV__INET6_ADDRSTRLEN.
abbrev pub inet_addrstrlen : ℕ
inet_addrstrlen = 16

abbrev pub inet6_addrstrlen : ℕ
inet6_addrstrlen = 46

-- The bytes of `.`, `:` and `%`.
abbrev pub dot : ℕ
dot = 46

abbrev pub colon : ℕ
colon = 58

abbrev pub percent : ℕ
percent = 37

abbrev pub digit : ℕ → ℕ
digit d = if ltb d 10 then 48 + d else 87 + d

-- The digits of `n` to the base `suc b`, the highest first, none of them a 0 in front. The fuel is the number
-- of digits that the widest word has: 10 are enough for `unsigned int`, to the bases 10 and 16.
pub numeral : ℕ → ℕ → ℕ → List ℕ
numeral b zero n = []
numeral b (suc fuel) n =
    let rest = numeral b fuel (n / suc b) in
    (if n / suc b == 0 then [] else rest) ++ (digit (n % suc b) ∷ [])

unfoldable pub decimal : ℕ → List ℕ
unfolding numeral
decimal n = numeral 9 10 n

unfoldable pub hexadecimal : ℕ → List ℕ
unfolding numeral
hexadecimal n = numeral 15 10 n
