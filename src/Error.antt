-- ===== src/Error.antt =====
-- crates/onejudge/src/error.rs: the error type of every fallible call.
use onejudge.Common.{Option, none, some, ◌++◌, Text, codes, text_eq, if◌then◌else◌}

pub data ProviderErrorKind : Type 0 where
  auth rate_limit model_not_found quota overloaded timeout cancelled spawn protocol other :
      ProviderErrorKind

pub data Error : Type 0 where
  invalid : Text → Error
  -- the context, the message and the kind
  provider : Text → Text → Option ProviderErrorKind → Error

-- `Result<T>`
pub data Result {ℓ} (A : Type ℓ) : Type ℓ where
  ok : A → Result A
  err : Error → Result A

unfoldable pub as_str : ProviderErrorKind → Text
as_str auth = codes "auth"
as_str rate_limit = codes "rate_limit"
as_str model_not_found = codes "model_not_found"
as_str quota = codes "quota"
as_str overloaded = codes "overloaded"
as_str timeout = codes "timeout"
as_str cancelled = codes "cancelled"
as_str spawn = codes "spawn"
as_str protocol = codes "protocol"
as_str other = codes "other"

-- `server_overloaded` is `FailureKind::ServerOverloaded.as_str()` of oneharness_core.
unfoldable pub classify : Text → Text → ProviderErrorKind
unfolding text_eq
classify server_overloaded raw =
    if text_eq raw server_overloaded
    then overloaded
    else if text_eq raw (codes "auth")
    then auth
    else if text_eq raw (codes "rate_limit")
    then rate_limit
    else if text_eq raw (codes "model_not_found")
    then model_not_found
    else if text_eq raw (codes "quota")
    then quota
    else if text_eq raw (codes "overloaded")
    then overloaded
    else if text_eq raw (codes "timeout")
    then timeout
    else if text_eq raw (codes "cancelled")
    then cancelled
    else if text_eq raw (codes "spawn")
    then spawn
    else if text_eq raw (codes "protocol")
    then protocol
    else other

unfoldable pub kind : Error → Option ProviderErrorKind
kind (invalid message) = none
kind (provider context message k) = k

-- The `Display` text of an error.
unfoldable pub show_error : Error → Text
show_error (invalid message) = codes "invalid input: " ++ message
show_error (provider context message k) =
    codes "provider error (" ++ (context ++ (codes "): " ++ message))

-- `Error::provider` and `Error::provider_classified`.
unfoldable pub provider_error : Text → Text → Error
provider_error context message = provider context message none

unfoldable pub provider_classified : Text → Text → ProviderErrorKind → Error
provider_classified context message k = provider context message (some k)
