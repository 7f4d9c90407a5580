-- ===== src/Service/Samples.antt =====
-- The sampler at a bound of two logs in windows of 60 seconds.
use chat_rag.Common.{pos, negsuc, text, ℕ, ◌≡◌, refl, [], ◌∷◌, ◌++◌}
use chat_rag.Service.Sampler.{ErrorLogSampler, new_error_log_sampler}
use chat_rag.Service.Sampler.Quota.{Call, asked, granted, min, window_quota}

abbrev sampler : ErrorLogSampler
sampler = record { max_per_window = 2; window_sec = 60; window_id = negsuc 0; counts = [] }

abbrev call : ℕ → Call
call now = record { now = now; user = text "u"; error_type = text "t" }

sampler-new : new_error_log_sampler (pos 2) (pos 60) ≡ sampler
unfolding new_error_log_sampler
sampler-new = refl

window_quota_example :
    granted (text "u" ++ 0 ∷ text "t") (call 60 ∷ call 70 ∷ call 119 ∷ []) sampler
    ≡ min (asked (text "u" ++ 0 ∷ text "t") (call 60 ∷ call 70 ∷ call 119 ∷ [])) 2
window_quota_example =
    window_quota 1 (text "u" ++ 0 ∷ text "t") (call 60 ∷ call 70 ∷ call 119 ∷ []) sampler (λ h. cc)
      (refl, (refl, (refl, tt)))
