-- ===== src/Errors.antt =====
-- es3/errors.h and es3/errors.cpp: result codes and what an operation can throw.
pub mod Laws
use extremes.Base.{ℕ, Bytes, Bool, true, false, ◌==◌, if◌then◌else◌, codes, ◌++◌}

-- `code_e`
pub data Code : Type 0 where
  err_fatal err_warn err_none : Code

-- `result_code_t`; its default is `err_none` and an empty text.
pub record ResultCode : Type 0 where
  pub code : Code
  pub desc : Bytes

abbrev pub sok : ResultCode
sok = record { code = err_none; desc = codes "" }

-- `result_code_t::ok`
abbrev pub is_ok : ResultCode → Bool
is_ok r = elim r.code [ err_none ↦ true | _ ↦ false ]

-- What leaves a call by an exception: an `es3_exception`, another `std::exception`, or anything else.
pub data Exception : Type 0 where
  es3_exception : ResultCode → Exception
  std_exception : Exception
  unknown_exception : Exception

pub data Result {ℓ} (A : Type ℓ) : Type ℓ where
  ok : A → Result A
  throw : Exception → Result A

infixl 5 ◌>>=◌
abbrev pub ◌>>=◌ {ℓ κ} : {A : Type ℓ} {B : Type κ} → Result A → (A → Result B) → Result B
ok a >>= f = f a
throw e >>= f = throw e

infixl 5 ◌>>◌
abbrev pub ◌>>◌ {ℓ} : {B : Type ℓ} → Result (Unit {0}) → Result B → Result B
m >> k = m >>= λ _. k

-- `err(code) << text`: the destructor throws, unless the code is `err_none`.
abbrev pub err : Code → Bytes → Result (Unit {0})
err err_none text = ok tt
err err_fatal text = throw (es3_exception (record { code = err_fatal; desc = text }))
err err_warn text = throw (es3_exception (record { code = err_warn; desc = text }))

-- The prefix of `es3_exception::what_`.
unfoldable pub what : ResultCode → Bytes
what r =
    elim r.code [ err_fatal ↦ codes "ERROR" | err_warn ↦ codes "WARN" | err_none ↦ codes "INFO" ]
    ++ codes ": '"
    ++ r.desc
    ++ codes "'"

-- `code | die`
unfoldable pub or_die : ResultCode → Result (Unit {0})
or_die r = if is_ok r then ok tt else throw (es3_exception r)

-- `throw_libc_err`, with the value of `errno`; `printed` is the text that it streams. With no error
-- recorded it returns.
unfoldable pub throw_libc_err : ℕ → Bytes → Result (Unit {0})
throw_libc_err errno printed = if errno == 0 then ok tt else err err_fatal printed

-- `res | libc_die` for a call that gave a negative number (`true`) or not; the number itself is
-- passed on by the caller.
unfoldable pub libc_die : Bool → ℕ → Bytes → Result (Unit {0})
unfolding throw_libc_err
libc_die negative errno printed = if negative then throw_libc_err errno printed else ok tt
