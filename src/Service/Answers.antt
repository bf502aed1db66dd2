-- ===== src/Service/Answers.antt =====
-- A service's value reaches its caller, and its exception the client.
use fastgeoapi.Base.{◌≡◌, ◌⊎◌, inl, inr, refl, true, false, some, none}
use fastgeoapi.Json
use fastgeoapi.Json.{Value, str, obj}
use fastgeoapi.Service.{
  AppExceptionError, reduce, unpickled, Argument, value_of, exception_of, service_result, returned,
  raised, handle_result, JsonResponse, app_exception_handler,
}

-- A pickled exception comes back as it was, with the name of its class.
pub unpickled-reduce : (e : AppExceptionError) → unpickled (reduce e) ≡ e
unfolding unpickled reduce
unpickled-reduce e = refl

abbrev pub content_fields : JsonResponse → Json.Fields
content_fields response = elim response.content [ obj fs ↦ fs | _ ↦ Json.end ]

-- A result that holds a value is a success and hands the value over. One that holds an exception is
-- none, has the case and the status of the exception, and raises it, whose answer has that status,
-- its error and its context.
pub handle_result-service_result :
    {A : Type 0} (argument : Argument A)
    → let result = service_result argument in
      ((a : A) × (argument ≡ value_of a)
        × (result.success ≡ true)
        × (result.status_code ≡ none)
        × (handle_result result ≡ returned argument))
      ⊎ ((e : AppExceptionError) × (argument ≡ exception_of e)
          × (result.success ≡ false)
          × (result.exception_case ≡ some e.exception_case)
          × (result.status_code ≡ some (app_exception_handler e).status_code)
          × (handle_result result ≡ raised e)
          × (Json.get "error" (content_fields (app_exception_handler e)) ≡ some (str e.error))
          × (Json.get "context" (content_fields (app_exception_handler e)) ≡ some (obj e.context)))
unfolding service_result handle_result app_exception_handler Json.get
handle_result-service_result (value_of a) = inl (a, refl, refl, refl, refl)
handle_result-service_result (exception_of e) = inr (e, refl, refl, refl, refl, refl, refl, refl)
