-- ===== src/Errors.antt =====
-- internal/apierr/errors.go: the errors that the API answers, by their status and code.

-- BadRequest and the other constructors, without their messages.
pub data ApiError : Type 0 where
  bad_request validation_failed unauthorized forbidden not_found conflict unprocessable internal
        service_unavailable :
      ApiError
