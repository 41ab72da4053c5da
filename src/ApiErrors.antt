-- ===== src/ApiErrors.antt =====
-- The errors of the API, src/api/error.rs.
--
-- The errors of sqlx, of serde_json and of the metrics are parameters, and a status is its number.
use rustroid_sentinel.Prelude.{ℕ, ◌≡◌, refl, String, Bool, true, false, ◌<>◌, ◌&&◌, ltb, leb}

pub data ApiError (SqlxError JsonError MetricsError : Type 0) : Type 0 where
  database : SqlxError → ApiError SqlxError JsonError MetricsError
  serialization : JsonError → ApiError SqlxError JsonError MetricsError
  invalid_query : String → String → ApiError SqlxError JsonError MetricsError
  not_found invalid_body : String → ApiError SqlxError JsonError MetricsError
  unauthorized forbidden : ApiError SqlxError JsonError MetricsError
  timeout : ℕ → ApiError SqlxError JsonError MetricsError
  internal unavailable : String → ApiError SqlxError JsonError MetricsError
  metrics : MetricsError → ApiError SqlxError JsonError MetricsError

module _ {S J M : Type 0} where
  abbrev pub status_code : ApiError S J M → ℕ
  status_code (not_found what) = 404
  status_code (invalid_query param reason) = 400
  status_code (invalid_body what) = 400
  status_code unauthorized = 401
  status_code forbidden = 403
  status_code (timeout after) = 504
  status_code (unavailable what) = 503
  status_code (database e) = 500
  status_code (serialization e) = 500
  status_code (internal what) = 500
  status_code (metrics e) = 500

  abbrev pub is_retryable : ApiError S J M → Bool
  is_retryable (timeout after) = true
  is_retryable (unavailable what) = true
  is_retryable _ = false

  abbrev pub is_client_error : ApiError S J M → Bool
  is_client_error (not_found what) = true
  is_client_error (invalid_query param reason) = true
  is_client_error (invalid_body what) = true
  is_client_error unauthorized = true
  is_client_error forbidden = true
  is_client_error _ = false

  abbrev pub with_context : String → ApiError S J M → ApiError S J M
  with_context context (internal what) = internal (context <> ": " <> what)
  with_context context (not_found what) = not_found (context <> ": " <> what)
  with_context context (unavailable what) = unavailable (context <> ": " <> what)
  with_context context other = other

  -- An error is a client's exactly when its status is from 400 to 499.
  status_code-is_client_error :
      (e : ApiError S J M)
      → is_client_error e ≡ (leb 400 (status_code e) && ltb (status_code e) 500)
  status_code-is_client_error (database e) = refl
  status_code-is_client_error (serialization e) = refl
  status_code-is_client_error (invalid_query param reason) = refl
  status_code-is_client_error (not_found what) = refl
  status_code-is_client_error (invalid_body what) = refl
  status_code-is_client_error unauthorized = refl
  status_code-is_client_error forbidden = refl
  status_code-is_client_error (timeout after) = refl
  status_code-is_client_error (internal what) = refl
  status_code-is_client_error (unavailable what) = refl
  status_code-is_client_error (metrics e) = refl
