-- ===== src/Learning/Errors.antt =====
-- backend/src/lms/modules/learning/errors.py. The codes are the keys of `_PROBLEMS`, so the fallback
-- for an unknown code has nothing to stand for. `integrity_error` is the database's exception,
-- which is no `LearningError`.
use lawrence_ai_lms.Prelude.{ℕ, String, List, [], ◌∷◌, take}

pub record FieldError : Type 0 where
  pub path : String
  pub code : String
  pub detail : String

pub data ErrorCode : Type 0 where
  authentication_required tenant_context_required tenant_access_inactive : ErrorCode
  learning_resource_not_found enrollment_validation_failed progress_version_conflict : ErrorCode
  idempotency_conflict service_contract_error : ErrorCode

-- The HTTP status of each code.
unfoldable pub problem_status : ErrorCode → ℕ
problem_status authentication_required = 401
problem_status tenant_context_required = 400
problem_status tenant_access_inactive = 403
problem_status learning_resource_not_found = 404
problem_status enrollment_validation_failed = 422
problem_status progress_version_conflict = 409
problem_status idempotency_conflict = 409
problem_status service_contract_error = 500

pub data LearningError : Type 0 where
  learning_error : ErrorCode → List FieldError → LearningError
  integrity_error : LearningError

-- `LearningError(code)`
abbrev pub failure : ErrorCode → LearningError
failure code = learning_error code []

abbrev bounded : List FieldError → List FieldError
bounded [] =
    record { path = "$"; code = "invalid"; detail = "The learning request is invalid." } ∷ []
bounded (e ∷ es) = e ∷ take 99 es

abbrev pub validation_failed : List FieldError → LearningError
validation_failed errors = learning_error enrollment_validation_failed (bounded errors)
