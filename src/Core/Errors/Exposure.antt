-- ===== src/Core/Errors/Exposure.antt =====
-- What a response shows of an error.
use devion.Prelude.{ℕ, String, ◌≡◌, refl, Bool, true, false, none, some, if◌then◌else◌, arith}
use devion.Core.Errors.{
  AppError, Thrown, app_error, http_exception, native_error, text_thrown, other_thrown,
  new_app_error, from, to_app_error, to_response, handle_error,
}

module _ (V : Type 0) where
  -- A response has details only if an error was thrown that has them and exposes them.
  pub handle_error_details :
      (expose_internals : Bool) (thrown : Thrown V) (now : ℕ) (v : V)
      → (handle_error V expose_internals thrown now).body.details ≡ some v
      → (e : AppError V) × (thrown ≡ app_error e) × (e.expose ≡ true) × (e.details ≡ some v)
  unfolding handle_error to_app_error from new_app_error to_response
  handle_error_details expose_internals (app_error e) now v h =
      (e, refl, ground arith, ground arith)
  handle_error_details expose_internals (http_exception message status value) now v h = ground arith
  handle_error_details expose_internals (native_error message value) now v h = ground arith
  handle_error_details expose_internals (text_thrown text value) now v h = ground arith
  handle_error_details expose_internals (other_thrown value) now v h = ground arith

  -- The response to an error that nothing expected has the status 500 and the error's own message,
  -- whether internals are exposed or not; the debug message repeats it exactly if they are.
  pub handle_error_message :
      (expose_internals : Bool) (message : String) (value : V) (now : ℕ)
      → let handled = handle_error V expose_internals (native_error message value) now in
        (handled.status ≡ 500)
        × (handled.body.message ≡ message)
        × (handled.body.debug_message ≡ (if expose_internals then some message else none))
  unfolding handle_error to_app_error from new_app_error to_response
  handle_error_message true message value now = (refl, refl, refl)
  handle_error_message false message value now = (refl, refl, refl)
