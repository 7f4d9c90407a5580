-- ===== src/Chat/Errors.antt =====
-- The errors of a model call and how they are classified: whether the same model is tried again and
-- whether the next model is tried (internal/types/errors.go, internal/logic/chat.go).
pub mod Classes
use chat_rag.Common.{
  digits, leb, ◌==◌, if◌then◌else◌, length, Text, text, contains, ℕ, Bool, true, false, not, ◌||◌,
  [], ◌∷◌, ◌++◌,
}

-- `APIError.Code`: one of the constants, or another string.
pub data ErrCode : Type 0 where
  context_exceeded model_service_unavailable model_unavailable unauthorized : ErrCode
  too_many_requests internal_error network_interrupt server_busy : ErrCode
  stream_idle_timeout total_stream_idle_timeout : ErrCode
  invalid_response_content empty_message_content : ErrCode
  other_code : Text → ErrCode

abbrev pub code_text : ErrCode → Text
code_text context_exceeded = text "chat-rag.context_length_exceeded"
code_text model_service_unavailable = text "chat-rag.model_services_unavailable"
code_text model_unavailable = text "chat-rag.model_unavailable"
code_text unauthorized = text "chat-rag.model_services_unauthorized"
code_text too_many_requests = text "chat-rag.too_many_requests"
code_text internal_error = text "chat-rag.internal_error"
code_text network_interrupt = text "chat-rag.network_interrupt"
code_text server_busy = text "chat-rag.server_busy"
code_text stream_idle_timeout = text "chat-rag.stream_idle_timeout"
code_text total_stream_idle_timeout = text "chat-rag.total_stream_idle_timeout"
code_text invalid_response_content = text "chat-rag.invalid_response_content"
code_text empty_message_content = text "chat-rag.empty_message_content"
code_text (other_code c) = c

-- The messages of the constants, `ErrMsg…`.
abbrev pub code_message : ErrCode → Text
code_message context_exceeded =
    text
      "The request exceeds the model's maximum context length. Please reduce the length of your input."
code_message model_service_unavailable =
    text "Unable to access the AI model services. Please try again later."
code_message model_unavailable = text "The current model is not available, please try another one."
code_message unauthorized =
    text "Unauthorized access to model services. Please check your permissions."
code_message too_many_requests =
    text
      "The number of requests to the model or the number of tokens has reached the official limit."
code_message internal_error = text "Internal Server Error. Please try again later."
code_message network_interrupt =
    text
      "Network connection has been interrupted. Please verify your network connectivity and retry."
code_message server_busy = text "Server is busy. Please try again later."
code_message stream_idle_timeout =
    text "Request idle timeout: no data received within the allowed idle period."
code_message total_stream_idle_timeout =
    text "Total idle timeout: cumulative idle time across retries exceeded the allowed limit."
code_message invalid_response_content =
    text "The model is unable to perform inference or makes errors during inference."
code_message empty_message_content = text "Message content cannot be empty."
code_message (other_code c) = []

pub record ApiError : Type 0 where
  pub code : ErrCode
  pub message : Text
  pub success : Bool
  pub status_code : ℕ
  pub kind : Text

pub record IdleTimeoutError : Type 0 where
  pub is_total : Bool
  pub status_code : ℕ
  pub code : ErrCode
  pub message : Text

-- An `error`: one of the two types above, or any other, of which the code sees the text and whether
-- `errors.Is` finds `context.Canceled` in it.
pub data Err : Type 0 where
  api : ApiError → Err
  idle_timeout : IdleTimeoutError → Err
  plain : Text → Bool → Err

abbrev pub model_error : ErrCode → ℕ → ApiError
model_error code status = record {
  code = code;
  message = code_message code;
  success = false;
  status_code = status;
  kind = text "ai_model_error";
}

unfoldable pub new_context_too_long_error : ApiError
new_context_too_long_error = model_error context_exceeded 400

unfoldable new_model_service_unavailable_error : ApiError
new_model_service_unavailable_error = model_error model_service_unavailable 503

unfoldable new_network_error : ApiError
new_network_error = model_error network_interrupt 500

unfoldable new_empty_message_content_error : ApiError
new_empty_message_content_error = record (model_error empty_message_content 400) {
  kind = text "invalid_argument";
}

unfoldable pub new_invalid_response_content_error : ApiError
new_invalid_response_content_error = model_error invalid_response_content 500

-- The `switch` of `NewHTTPStatusError`.
unfoldable pub http_status_code : ℕ → ErrCode
http_status_code status =
    if status == 404
    then model_unavailable
    else if status == 401
    then unauthorized
    else if status == 429
    then too_many_requests
    else if status == 413
    then context_exceeded
    else if status == 504
    then server_busy
    else model_service_unavailable

unfoldable pub new_http_status_error : ℕ → Text → ApiError
unfolding http_status_code
new_http_status_error status body =
    let code = http_status_code status in
    record (model_error code status) {
      message = elim code [
        | model_service_unavailable ↦
            code_message model_service_unavailable
            ++ 10 ∷ 10 ∷ text "[Error Detail]:"
            ++ 10 ∷ text "Code: "
            ++ digits status
            ++ 10 ∷ text "Message: "
            ++ body
        | c ↦ code_message c
      ];
    }

unfoldable new_stream_idle_timeout_error : IdleTimeoutError
new_stream_idle_timeout_error = record {
  is_total = false;
  status_code = 200;
  code = stream_idle_timeout;
  message = code_message stream_idle_timeout;
}

unfoldable new_total_idle_timeout_error : IdleTimeoutError
new_total_idle_timeout_error = record {
  is_total = true;
  status_code = 200;
  code = total_stream_idle_timeout;
  message = code_message total_stream_idle_timeout;
}

-- `err.Error()`.
unfoldable pub error_text : Err → Text
error_text (api e) =
    text "{\"code\":\""
    ++ code_text e.code
    ++ text "\",\"message\":\""
    ++ e.message
    ++ text "\",\"success\":"
    ++ (if e.success then text "true" else text "false")
    ++ text "}"
error_text (idle_timeout e) =
    text "idle timeout ("
    ++ (if e.is_total then text "total" else text "single")
    ++ text "): "
    ++ e.message
error_text (plain message canceled) = message

-- `errors.Is(err, context.Canceled)`.
abbrev pub is_canceled : Err → Bool
is_canceled (plain message canceled) = canceled
is_canceled _ = false

unfoldable pub is_context_length_error : Err → Bool
unfolding error_text
is_context_length_error e =
    contains (error_text e) (text "This model's maximum context length")
    || contains (error_text e) (text "Input text is too long")

-- The `switch` on the code and the one on the status in `isSameModelRetryableError`.
unfoldable pub api_retryable : ErrCode → ℕ → Bool
api_retryable context_exceeded status = false
api_retryable unauthorized status = false
api_retryable empty_message_content status = false
api_retryable model_unavailable status = false
api_retryable server_busy status = true
api_retryable network_interrupt status = true
api_retryable _ status =
    if status == 408
    then true
    else if status == 400 || status == 401 || status == 403 || status == 404 || status == 429
    then false
    else leb 500 status

-- `canceled` is whether the context of the request was cancelled, `errors.Is(l.ctx.Err(), …)`.
unfoldable pub is_same_model_retryable_error : Bool → Err → Bool
unfolding api_retryable
is_same_model_retryable_error canceled e =
    if is_canceled e || canceled
    then false
    else if is_context_length_error e
    then false
    else elim e [
      | idle_timeout _ ↦ true
      | api a ↦ api_retryable a.code a.status_code
      | plain _ _ ↦ true
    ]

-- The last `switch` on the code in `isDegradationSwitchableError`.
abbrev pub code_switchable : ErrCode → Bool
code_switchable model_service_unavailable = true
code_switchable model_unavailable = true
code_switchable too_many_requests = true
code_switchable server_busy = true
code_switchable network_interrupt = true
code_switchable invalid_response_content = true
code_switchable _ = false

unfoldable pub api_switchable : ErrCode → ℕ → Bool
api_switchable context_exceeded status = false
api_switchable unauthorized status = false
api_switchable empty_message_content status = false
api_switchable code status =
    if status == 400
    then true
    else if status == 401 || status == 403
    then false
    else if status == 408 || status == 429
    then true
    else if code_switchable code
    then true
    else leb 500 status

unfoldable pub is_degradation_switchable_error : Bool → Err → Bool
unfolding api_switchable
is_degradation_switchable_error canceled e =
    if is_canceled e || canceled
    then false
    else if is_context_length_error e
    then false
    else elim e [
      | idle_timeout _ ↦ true
      | api a ↦ api_switchable a.code a.status_code
      | plain _ _ ↦ true
    ]
