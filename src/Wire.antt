-- ===== src/Wire.antt =====
-- DNS packets as bytes: the results that reading a packet can have, and checked access to a vector,
-- shared by the modules below. pdns/pdns/dnsparser.cc, pdns/pdns/dnswriter.cc.
pub mod Reader
pub mod Numbers
pub mod Parts
pub mod Writer
pub mod Mangler
pub mod Encode
use powerdns_improved_lua.Prelude.{ℕ, zero, suc, List, [], ◌∷◌, ◌≡◌, refl}

-- `out_of_range` is the exception of vector::at, `moad` a MOADNSException, and `length_error` that of a
-- range of bytes that ends before it begins. `stuck` is no outcome of the program: it marks a loop of the model that has run out of fuel.
pub data Failure : Type 0 where
  out_of_range moad length_error stuck : Failure

pub data Result {ℓ} (A : Type ℓ) : Type ℓ where
  ok : A → Result A
  err : Failure → Result A

-- vector::at.
unfoldable pub at {ℓ} : {A : Type ℓ} → List A → ℕ → Result A
at [] i = err out_of_range
at (x ∷ xs) zero = ok x
at (x ∷ xs) (suc i) = at xs i

-- An exception leaves the rest of a block out.
infixl 5 ◌>>=◌
abbrev pub ◌>>=◌ {κ μ} :
    {Old : Type κ} {New : Type μ} → Result Old → (Old → Result New) → Result New
err failure >>= next = err failure
ok value >>= next = next value

-- A bind that succeeds has a first part that succeeds.
pub >>=-eq-ok {κ μ} :
    {Old : Type κ} {New : Type μ} (first : Result Old) (next : Old → Result New) {new : New}
    → (first >>= next) ≡ ok new
    → (old : Old) × (first ≡ ok old) × (next old ≡ ok new)
>>=-eq-ok (err failure) next e = cc
>>=-eq-ok (ok old) next e = (old, refl, e)
