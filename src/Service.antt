-- ===== src/Service.antt =====
-- app/utils/service_result.py, app/utils/app_exceptions.py and app/utils/request_exceptions.py: what
-- a service comes to, and how the root application answers the exceptions. Logging is left out.
mod Answers
use fastgeoapi.Base.{ℕ, String, Bool, true, false, Option, none, some, if◌then◌else◌}
use fastgeoapi.Json.{Value, str, obj, Fields, field, end}

-- AppExceptionError, an instance of a class of the given name.
pub record AppExceptionError : Type 0 where
  pub exception_case : String
  pub status_code : ℕ
  pub error : String
  pub context : Fields

-- AppExceptionError.__init__, for an instance of the class
unfoldable pub app_exception_error : String → ℕ → String → Fields → AppExceptionError
app_exception_error class_name status_code error context = record {
  exception_case = class_name;
  status_code = status_code;
  error = error;
  context = context;
}

-- AppExceptionError.__reduce__: the class, and the arguments that it is called with again.
unfoldable pub reduce : AppExceptionError → String × ℕ × String × Fields
reduce e = (e.exception_case, e.status_code, e.error, e.context)

-- what unpickling does with them
unfoldable pub unpickled : String × ℕ × String × Fields → AppExceptionError
unfolding app_exception_error
unpickled (class_name, status_code, error, context) =
    app_exception_error class_name status_code error context

module _ (A : Type 0) where
  -- What a service hands over.
  pub data Argument : Type 0 where
    value_of : A → Argument
    exception_of : AppExceptionError → Argument

  pub record ServiceResult : Type 0 where
    pub success : Bool
    pub exception_case : Option String
    pub status_code : Option ℕ
    pub value : Argument

  -- What a function does that may raise an AppExceptionError.
  pub data Handled : Type 0 where
    returned : Argument → Handled
    raised : AppExceptionError → Handled
    -- `raise` of a value that is no exception
    type_error : Handled

module _ {A : Type 0} where
  -- ServiceResult.__init__
  unfoldable pub service_result : Argument A → ServiceResult A
  service_result (exception_of e) = record {
    success = false;
    exception_case = some e.exception_case;
    status_code = some e.status_code;
    value = exception_of e;
  }
  service_result (value_of a) = record {
    success = true;
    exception_case = none;
    status_code = none;
    value = value_of a;
  }

  raise_value : Argument A → Handled A
  raise_value (exception_of e) = raised e
  raise_value (value_of a) = type_error

  unfoldable pub handle_result : ServiceResult A → Handled A
  unfolding raise_value
  handle_result result = if result.success then returned result.value else raise_value result.value

pub record JsonResponse : Type 0 where
  pub status_code : ℕ
  pub content : Value

unfoldable pub app_exception_handler : AppExceptionError → JsonResponse
app_exception_handler exc = record {
  status_code = exc.status_code;
  content = obj (field "error" (str exc.error) (field "context" (obj exc.context) end));
}

unfoldable pub http_exception_handler : ℕ → Value → JsonResponse
http_exception_handler status_code detail = record {
  status_code = status_code;
  content = obj (field "detail" detail end);
}

-- `errors` is jsonable_encoder(exc.errors()).
unfoldable pub request_validation_exception_handler : Value → JsonResponse
request_validation_exception_handler errors = record {
  status_code = 422;
  content = obj (field "detail" errors end);
}
