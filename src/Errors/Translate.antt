-- ===== src/Errors/Translate.antt =====
-- What the translation of native errors (src/aeon.cpp) guarantees to callers that test codes.
use libaeon.Prelude.{ℕ, ◌≡◌, ◌≢◌, ◌↔◌, true, arith, is_neg}
use libaeon.Errors.{Errnos, translate_native_error, socket_error}

module _ (codes : Errnos) where
  -- A native error is reported as a negative public code exactly when it is not zero.
  pub translate_native_error-neg :
      (e : ℕ) → (is_neg (translate_native_error codes e) ≡ true) ↔ (e ≢ 0)
  unfolding translate_native_error
  translate_native_error-neg e = (ground arith, ground arith)

  pub translate_native_error-ne-socket_error :
      (e : ℕ) → translate_native_error codes e ≢ socket_error
  unfolding translate_native_error
  translate_native_error-ne-socket_error e = ground arith
