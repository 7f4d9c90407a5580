-- ===== src/Chat/Errors/Classes.antt =====
-- Which HTTP failures of a model are retried, and which make the next model be tried.
use chat_rag.Common.{leb, ◌==◌, Text, ℕ, ◌≡◌, Bool, true, false, not, ◌||◌, arith}
use chat_rag.Chat.Errors.{
  ErrCode, Err, api, idle_timeout, plain, is_canceled, is_context_length_error, http_status_code,
  new_http_status_error, api_retryable, api_switchable, is_same_model_retryable_error,
  is_degradation_switchable_error,
}

abbrev pub http_error : ℕ → Text → Err
http_error status body = api (new_http_status_error status body)

abbrev pub is_retried : ℕ → Bool
is_retried status = status == 408 || leb 500 status

abbrev pub is_switched : ℕ → Bool
is_switched status = not (status == 401 || status == 403 || status == 413)

http_retryable : (status : ℕ) → api_retryable (http_status_code status) status ≡ is_retried status
unfolding api_retryable http_status_code
http_retryable status = ground arith

http_switchable :
    (status : ℕ) → api_switchable (http_status_code status) status ≡ is_switched status
unfolding api_switchable http_status_code
http_switchable status = ground arith

-- A failure with an HTTP status, whose text does not tell of a context length, while the request is
-- not cancelled: the same model is tried again exactly for 408 and from 500 on, and the next model
-- is tried for every status but 401, 403 and 413.
pub http_error_classes :
    (status : ℕ) (body : Text)
    → is_context_length_error (http_error status body) ≡ false
    → (is_same_model_retryable_error false (http_error status body) ≡ is_retried status)
      × (is_degradation_switchable_error false (http_error status body) ≡ is_switched status)
unfolding is_same_model_retryable_error is_degradation_switchable_error new_http_status_error
http_error_classes status body h = (rw h (http_retryable status), rw h (http_switchable status))

-- An error that carries the status 401 or 403.
abbrev pub is_denied : Err → Bool
is_denied (api a) = a.status_code == 401 || a.status_code == 403
is_denied _ = false

api_retryable→switchable :
    (c : ErrCode) (s : ℕ)
    → (s == 401 || s == 403) ≡ false
    → api_retryable c s ≡ true
    → api_switchable c s ≡ true
unfolding api_retryable api_switchable
api_retryable→switchable c s d h = ground arith

-- An error after which the same model is tried again is not a cancellation nor about the context
-- length, and comes while the request is not cancelled; unless its status is 401 or 403 it also
-- lets the next model be tried.
pub retryable→switchable :
    (canceled : Bool) (e : Err)
    → is_same_model_retryable_error canceled e ≡ true
    → (is_canceled e ≡ false)
      × (canceled ≡ false)
      × (is_context_length_error e ≡ false)
      × (is_denied e ≡ false → is_degradation_switchable_error canceled e ≡ true)
unfolding is_same_model_retryable_error is_degradation_switchable_error
retryable→switchable canceled (api a) h = (
  ground arith,
  ground arith,
  ground arith,
  λ d. ground (arith, api_retryable→switchable a.code a.status_code d),
)
retryable→switchable canceled (idle_timeout t) h =
    (ground arith, ground arith, ground arith, λ d. ground arith)
retryable→switchable canceled (plain m c) h =
    (ground arith, ground arith, ground arith, λ d. ground arith)
