-- ===== src/Webserver/Request.antt =====
-- internal/webserver and internal/auth/context.go: what a handler reads of a request's context, and
-- how it refuses. A handler's part that returns may go on; one that fails has written its response.
use tileserve_go.Prelude.{Bool, Option, Text, if◌then◌else◌}
use tileserve_go.Prelude.Monad.{Exec, pure, raise, handle}
use tileserve_go.Store.State.{Store, StoreError}

-- UsernameFromContext, the empty text without a bearer token, and APIKeyIDFromContext
pub record Request : Type 0 where
  pub username : Text
  pub api_key : Option Text

-- The status of http.Error.
pub data Refusal : Type 0 where
  bad_request unauthorized forbidden not_found internal_error : Refusal

-- An error whose response does not depend on what it is.
unfoldable pub or_refuse :
    {A : Type 0} → (StoreError → Refusal) → Exec Store StoreError A → Exec Store Refusal A
or_refuse f m = handle m (λ e. raise (f e))

abbrev pub internal : StoreError → Refusal
internal e = internal_error

-- A test, with its refusal.
abbrev pub require : Bool → Refusal → Exec Store Refusal (Unit {0})
require b r = if b then pure tt else raise r
