-- ===== src/RecordText.antt =====
-- The text of record contents, after pdns/pdns/rcpgenerator.hh and pdns/pdns/rcpgenerator.cc: what
-- its reader and its writer share.
pub mod Reader
pub mod Writer
pub mod Fields
pub mod Numbers
pub mod Addresses
pub mod Blobs
pub mod Texts
pub mod Total
use powerdns_improved_lua.Prelude.{ℕ, Bool, ◌||◌, ◌&&◌, leb, ◌==◌}

-- `RecordTextException`, and the exceptions of std::string.
pub data Failure : Type 0 where
  record_text length_error stuck : Failure

pub data Parsed {ℓ} (A : Type ℓ) : Type ℓ where
  parsed : A → Parsed A
  failed : Failure → Parsed A

infixl 5 ◌>>=◌
abbrev pub ◌>>=◌ {κ μ} :
    {Old : Type κ} {New : Type μ} → Parsed Old → (Old → Parsed New) → Parsed New
failed why >>= next = failed why
parsed value >>= next = next value

unfoldable pub is_space : ℕ → Bool
is_space c = ((c == b' ' || c == 9) || c == 13) || c == 10

unfoldable pub is_digit : ℕ → Bool
is_digit c = leb b'0' c && leb c b'9'
