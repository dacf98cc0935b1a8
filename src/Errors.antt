-- ===== src/Errors.antt =====
-- What the user reads of an error (frontend/src/utils/error.ts). A thrown value is a text, an
-- object with the properties that the code asks for, or something else; texts that are shown are
-- lists of code units.
pub mod Shown
use nestlio.Prelude.{
  ℕ, Bool, true, false, ◌||◌, Option, none, some, List, [], ◌∷◌, ◌++◌, map, leb, if◌then◌else◌,
  or_else, String, str_eq, Text, codes, is_empty,
}

-- An entry of a validation error: a text, or an object with its msg.
pub data DetailEntry : Type 0 where
  text : Text → DetailEntry
  msg : Text → DetailEntry

pub data FastApiDetail : Type 0 where
  text : Text → FastApiDetail
  list : List DetailEntry → FastApiDetail
  other : FastApiDetail

-- The response of an error: its status, and the detail of its data, where it has one.
pub record ErrorResponse : Type 0 where
  pub status : Option ℕ
  pub detail : Option FastApiDetail

-- message is there for an instance of Error.
pub record ErrorObject : Type 0 where
  pub response : Option ErrorResponse
  pub is_axios_error : Bool
  pub code : Option String
  pub message : Option Text

pub data Thrown : Type 0 where
  text : Text → Thrown
  object : ErrorObject → Thrown
  other : Thrown

abbrev pub server_error_message : Text
server_error_message = codes "서버 오류가 발생했습니다. 잠시 후 다시 시도해 주세요."

abbrev pub timeout_message : Text
timeout_message = codes "서버 응답이 늦어요. 잠시 후 다시 시도해 주세요."

abbrev pub network_message : Text
network_message = codes "네트워크에 연결할 수 없어요. 연결 상태를 확인해 주세요."

abbrev pub default_message : Text
default_message = codes "오류가 발생했습니다"

abbrev pub response_of : Thrown → Option ErrorResponse
response_of (Thrown.text t) = none
response_of (Thrown.object e) = e.response
response_of Thrown.other = none

abbrev pub status_of : Option ErrorResponse → Option ℕ
status_of none = none
status_of (some r) = r.status

abbrev pub detail_of : Option ErrorResponse → Option FastApiDetail
detail_of none = none
detail_of (some r) = r.detail

unfoldable pub get_http_status : Thrown → Option ℕ
get_http_status error = status_of (response_of error)

abbrev pub entry_text : DetailEntry → Text
entry_text (DetailEntry.text t) = t
entry_text (DetailEntry.msg t) = t

-- texts.join(", ").
unfoldable pub join_texts : List Text → Text
join_texts [] = []
join_texts (t ∷ []) = t
join_texts (t ∷ (u ∷ ts)) = t ++ (codes ", " ++ join_texts (u ∷ ts))

unfoldable pub parse_detail : FastApiDetail → Text
parse_detail (FastApiDetail.text t) = t
parse_detail (FastApiDetail.list entries) = join_texts (map entry_text entries)
parse_detail FastApiDetail.other = default_message

abbrev pub is_code : String → Option String → Bool
is_code c none = false
is_code c (some d) = str_eq d c

abbrev pub is_timeout : ErrorObject → Bool
is_timeout e = is_code "ECONNABORTED" e.code || is_code "ETIMEDOUT" e.code

-- The message of an axios error that has no detail.
unfoldable pub axios_message : ErrorObject → Option Text → Text
axios_message e fallback = if is_timeout e then timeout_message else elim e.response [
  | none ↦ network_message
  | some r ↦
      if leb 500 (or_else r.status 0)
      then or_else fallback server_error_message
      else or_else fallback default_message
]

-- The message of another error.
unfoldable pub plain_message : Option Text → Option Text → Text
plain_message none fallback = or_else fallback default_message
plain_message (some m) fallback = if is_empty m then or_else fallback default_message else m

-- The message of an object, with the detail of its data.
abbrev pub object_message : ErrorObject → Option Text → Option FastApiDetail → Text
object_message e fallback (some detail) = parse_detail detail
object_message e fallback none =
    if e.is_axios_error then axios_message e fallback else plain_message e.message fallback

unfoldable pub extract_error_message : Thrown → Option Text → Text
extract_error_message (Thrown.text t) fallback = t
extract_error_message (Thrown.object e) fallback = object_message e fallback (detail_of e.response)
extract_error_message Thrown.other fallback = or_else fallback default_message
