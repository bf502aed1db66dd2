-- ===== src/Base/Errors.antt =====
-- Python's exceptions, as far as the modelled code raises or catches them, and results that may
-- be an exception.
use Prim.Native.String.{String}
use mathlib.Core.Path.{◌≡◌, refl}
use mathlib.Core.Logic.{◌⊎◌, inl, inr}

pub data Exception : Type 0 where
  -- built-in exceptions
  key_error type_error value_error attribute_error index_error recursion_error os_error : Exception
  file_not_found unbound_local_error overflow_error assertion_error : Exception
  -- httpx: the request failed, or the status is an error
  request_error : Exception
  -- json.JSONDecodeError, yaml.YAMLError, pydantic's ValidationError
  decode_error : Exception
  -- authlib: ExpiredTokenError, and any other JoseError
  expired_token_error jose_error : Exception
  -- app/auth/exceptions.py, app/auth/mcp_auth_provider.py, app/utils/pygeoapi_exceptions.py
  oauth2_error : (message : String) → Exception
  mcp_auth_misconfigured_error : Exception
  pygeoapi_env_error pygeoapi_language_error : Exception
  -- pygeoapi: LocaleError, ProviderConnectionError
  locale_error provider_connection_error : Exception
  -- subprocess.CalledProcessError and typer.Abort
  called_process_error abort_error : Exception
  -- any other exception, by the name of its class
  other_error : (name : String) → Exception

pub data Result {ℓ} (A : Type ℓ) : Type ℓ where
  ok : A → Result A
  err : Exception → Result A

module _ {ℓ κ} {A : Type ℓ} {B : Type κ} where
  -- An exception ends the chain.
  infixl 10 ◌>>=◌
  abbrev pub ◌>>=◌ : Result A → (A → Result B) → Result B
  err raised >>= next = err raised
  ok value >>= next = next value

  -- A chain that returns has returned at each step.
  pub >>=-eq-ok :
      (first : Result A) (next : A → Result B) {result : B}
      → (first >>= next) ≡ ok result
      → (value : A) × (first ≡ ok value) × (next value ≡ ok result)
  >>=-eq-ok (err raised) next returned = cc
  >>=-eq-ok (ok value) next returned = (value, refl, returned)

pub >>=-ok {ℓ} : {A : Type ℓ} (m : Result A) → (m >>= λ a. ok a) ≡ m
>>=-ok (ok a) = refl
>>=-ok (err e) = refl

pub Result-cases {ℓ} :
    {A : Type ℓ} (r : Result A) → ((a : A) × (r ≡ ok a)) ⊎ ((e : Exception) × (r ≡ err e))
Result-cases (ok a) = inl (a, refl)
Result-cases (err e) = inr (e, refl)
