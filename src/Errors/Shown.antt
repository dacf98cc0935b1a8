-- ===== src/Errors/Shown.antt =====
-- What reaches the user of an error (frontend/src/utils/error.ts).
use nestlio.Prelude.{
  Bool, true, false, not, ◌&&◌, Option, none, some, List, [], ◌∷◌, ◌≡◌, any, or_else, Text, text_eq,
  is_empty,
}
use nestlio.Errors.{
  FastApiDetail, ErrorObject, ErrorResponse, server_error_message, timeout_message, network_message,
  default_message, parse_detail, is_timeout,
}

-- The messages that the program itself writes, and the one that the caller gave.
abbrev pub own_messages : Option Text → List Text
own_messages fallback =
    timeout_message
    ∷ (network_message
        ∷ (or_else fallback server_error_message ∷ (or_else fallback default_message ∷ [])))

abbrev pub has_response : Option ErrorResponse → Bool
has_response none = false
has_response (some r) = true

-- A message that the program writes, and when it is empty.
abbrev pub IsOwn : Bool → Option ErrorResponse → Option Text → Text → Type 0
IsOwn timeout response fallback t =
    (any (text_eq t) (own_messages fallback) ≡ true)
    × (is_empty t
        ≡ (not timeout && (has_response response && is_empty (or_else fallback default_message))))

-- What shows for an error: the detail that the server answered with, or a message of the program's.
abbrev pub Shows : ErrorObject → Option Text → Option FastApiDetail → Text → Type 0
Shows e fallback (some d) t = t ≡ parse_detail d
Shows e fallback none t = IsOwn (is_timeout e) e.response fallback t
