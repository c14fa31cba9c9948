-- ===== src/Errors/Laws.antt =====
-- When the checks of es3/errors.h throw.
use extremes.Base.{ℕ, ◌≡◌, ◌↔◌, true, arith, Bytes}
use extremes.Errors.{ok, libc_die}

-- A failed call passes the check unnoticed exactly when no error number was recorded.
libc_die-ok : (errno : ℕ) (printed : Bytes) → (libc_die true errno printed ≡ ok tt) ↔ (errno ≡ 0)
unfolding libc_die
libc_die-ok errno printed = ground arith
