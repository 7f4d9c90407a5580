-- ===== src/Service/Sampler.antt =====
-- `ErrorLogSampler` of internal/service/error_log_sampler.go: how many logs of an error are kept for
-- a user in each window of time. The clock is an argument of `allow`, in seconds since 1970.
pub mod Quota
use chat_rag.Common.{
  leb, if◌then◌else◌, ℤ, pos_part, ltb_ℤ, eqb_ℤ, pos, negsuc, Text, text_eq, ℕ, suc, ◌/◌, Bool,
  true, false, List, [], ◌∷◌, ◌++◌,
}

-- `window_id` is -1 before the first use; the map `counts` is an association list.
pub record ErrorLogSampler : Type 0 where
  pub max_per_window : ℕ
  pub window_sec : ℕ
  pub window_id : ℤ
  pub counts : List (Text × ℕ)

-- What is not positive is clamped to one.
abbrev pub clamp : ℤ → ℕ
clamp n = if ltb_ℤ (pos 0) n then pos_part n else 1

unfoldable pub new_error_log_sampler : ℤ → ℤ → ErrorLogSampler
new_error_log_sampler max_per_window window_sec = record {
  max_per_window = clamp max_per_window;
  window_sec = clamp window_sec;
  window_id = negsuc 0;
  counts = [];
}

-- `s.counts[key]`; a missing key counts zero.
pub count_of : Text → List (Text × ℕ) → ℕ
count_of key [] = 0
count_of key ((k, n) ∷ rest) = let r = count_of key rest in if text_eq k key then n else r

-- `s.counts[key]++`.
pub increment : Text → List (Text × ℕ) → List (Text × ℕ)
increment key [] = (key, 1) ∷ []
increment key ((k, n) ∷ rest) =
    let r = increment key rest in if text_eq k key then (k, suc n) ∷ rest else (k, n) ∷ r

abbrev pub key_of : Text → Text → Text
key_of user error_type = user ++ 0 ∷ error_type

-- Drops the counts when the window has changed.
pub enter : ℕ → ErrorLogSampler → ErrorLogSampler
enter now s =
    let wid = pos (now / s.window_sec) in
    if eqb_ℤ wid s.window_id then s else record s { window_id = wid; counts = [] }

pub allow : ℕ → Text → Text → ErrorLogSampler → Bool × ErrorLogSampler
unfolding enter count_of increment
allow now user error_type s =
    let s' = enter now s in
    let key = key_of user error_type in
    if leb s'.max_per_window (count_of key s'.counts)
    then (false, s')
    else (true, record s' { counts = increment key s'.counts })
