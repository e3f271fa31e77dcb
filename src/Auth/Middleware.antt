-- ===== src/Auth/Middleware.antt =====
-- internal/auth/middleware.go and context.go: the request that a handler sees, or a 401.
pub mod Admitted
use tileserve_go.Prelude.{
  Bool, not, ◌&&◌, Option, none, some, Text, ◌==◌, nat_eq, text_eq, if◌then◌else◌,
}
use tileserve_go.Prelude.Monad.{Result, ok, err, Exec, pure, raise}
use tileserve_go.Store.State.{Store}
use tileserve_go.Webserver.Request.{Request, Refusal, unauthorized}
use tileserve_go.Auth.Jwt.{Jwt}
use tileserve_go.Auth.Bearer.{nil_uuid, Credentials, Bearer, parse_bearer_token}

-- ContextWithUsername, and ContextWithAPIKeyID unless the id is uuid.Nil
unfoldable pub request_of : Bearer → Request
request_of b = record {
  username = b.username;
  api_key = if b.api_key_id == nil_uuid then none else some b.api_key_id;
}

unfoldable pub admit : Bool → Bearer → Exec Store Refusal Request
unfolding request_of
admit require_token b =
    if require_token && not b.had_token
    then raise unauthorized
    else if b.had_token && not b.valid
    then raise unauthorized
    else pure (request_of b)

-- Middleware, up to the call of `next`
unfoldable pub middleware :
    {K : Type 0}
    → Jwt K
    → (Text → Option Text)
    → Text
    → Bool
    → Credentials
    → Exec Store Refusal Request
unfolding parse_bearer_token admit
middleware jwt parse_uuid secret require_token r s =
    let b = parse_bearer_token jwt parse_uuid secret r s in admit require_token b.0 b.1
