-- ===== src/Errors.antt =====
-- src/lib.rs: the crate's error type and its result; `std::io::Error` as far as the source builds it.
pub mod Display
use kernelkit.Common.{ℕ, ℤ, String, List, Option, none, some}

-- `std::io::ErrorKind`, the kinds that the source names.
pub data ErrorKind : Type 0 where
  invalid_data invalid_input unexpected_eof unsupported other : ErrorKind

mutual
  -- The text of an error, as the pieces that `format!` joins.
  pub data Message : Type 0 where
    text : String → Message
    number : ℕ → Message
    code_points : List ℕ → Message
    shown : IoError → Message
    joined : Message → Message → Message

  -- `std::io::Error`: an `errno`, a bare kind, or a kind with a message.
  pub data IoError : Type 0 where
    errno : ℤ → IoError
    kind : ErrorKind → IoError
    custom : ErrorKind → Message → IoError

-- `kernelkit::Error`. A loader error is the text that `libloading` gives.
pub data Error : Type 0 where
  allocation_overflow : (count : ℕ) (type_name : String) → Error
  allocation_failed : (count : ℕ) (type_name : String) → Error
  null_pointer : Error
  invalid_node : (node available : ℕ) → Error
  system : (operation : String) (source : IoError) → Error
  sysfs_read : (path : String) (source : IoError) → Error
  sysfs_parse : (path : String) → Error
  invalid_magic : Error
  unsupported_version : (version max_version : ℕ) → Error
  section_too_large : (length : ℕ) → Error
  unexpected_eof : (context : String) (needed remaining : ℕ) → Error
  library_load : (library source : String) → Error
  symbol_load : (library symbol source : String) → Error

-- `kernelkit::Result<T>`; `panicked` is a call that unwinds.
pub data Result {ℓ} (A : Type ℓ) : Type ℓ where
  ok : A → Result A
  err : Error → Result A
  panicked : Result A

infixl 5 ◌>>=◌ ◌>>◌
abbrev pub ◌>>=◌ {ℓ κ} : {A : Type ℓ} {B : Type κ} → Result A → (A → Result B) → Result B
ok a >>= f = f a
err e >>= f = err e
panicked >>= f = panicked

abbrev pub ◌>>◌ {ℓ} : {B : Type ℓ} → Result (Unit {0}) → Result B → Result B
m >> k = m >>= λ _. k

-- `Option::ok_or`
abbrev pub ok_or {ℓ} : {A : Type ℓ} → Option A → Error → Result A
ok_or none e = err e
ok_or (some a) e = ok a

-- What a call of the standard library or of a system wrapper answers.
pub data Io {ℓ} (A : Type ℓ) : Type ℓ where
  done : A → Io A
  failed : IoError → Io A

-- `map_err(|source| Error::System { operation, source })`
abbrev pub map_err {ℓ} : {A : Type ℓ} → String → Io A → Result A
map_err operation (done a) = ok a
map_err operation (failed source) = err (system operation source)
