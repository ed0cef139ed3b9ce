-- ===== src/Examples.antt =====
-- The theorems at concrete inputs: the curve is the field of three elements acting on itself, the
-- hashes and the cipher are the simple ones of Crypto/Toy.
mod Credentials
mod Login
mod Stores
mod Redeem
mod Keys
mod Registration
mod Whole
mod Sessions
mod Startup
use orionlink.Prelude.{ℕ, zero, suc}
use orionlink.Ecc.Toy.{F3, n1, n2}

-- Scalars that are drawn: one, then two for ever.
abbrev pub draws : ℕ → F3
draws zero = n1
draws (suc i) = n2

abbrev pub twos : ℕ → F3
twos i = n2
