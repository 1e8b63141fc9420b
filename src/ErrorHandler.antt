-- ===== src/ErrorHandler.antt =====
-- Network/error_handler.h and error_handler.cpp: the three overloads of `Handle`, without the message
-- that they print. The error code is what `get_err_func` gives.
use iocp_chatting.Prelude.{
  ℕ, zero, suc, Bool, true, false, ◌||◌, List, [], ◌∷◌, ◌==◌, if◌then◌else◌, ℤ, pos, negsuc,
}

-- The loop over the allowed codes.
pub is_allowed : ℕ → List ℕ → Bool
is_allowed code [] = false
is_allowed code (c ∷ cs) = code == c || is_allowed code cs

unfoldable pub handle_bool : Bool → ℕ → List ℕ → Bool
unfolding is_allowed
handle_bool result code allow_codes = if result then true else is_allowed code allow_codes

-- The test against `SOCKET_ERROR`, which is -1.
pub is_socket_error : ℤ → Bool
is_socket_error (pos n) = false
is_socket_error (negsuc zero) = true
is_socket_error (negsuc (suc n)) = false

unfoldable pub handle_socket : ℤ → ℕ → List ℕ → Bool
unfolding is_socket_error is_allowed
handle_socket socket_result code allow_codes =
    if is_socket_error socket_result then is_allowed code allow_codes else true

unfoldable pub handle_handle : ℕ → ℕ → Bool
handle_handle handle_result allow_handle = handle_result == allow_handle
