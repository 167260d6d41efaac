-- ===== src/Api/Middleware.antt =====
-- api/middleware.go: what stands between a request and its handler. A handler takes the request and the
-- state of the service to the new state and a response; an error is a panic, or `fatal` where
-- `log.Fatalf` ends the process.
use Prim.Native.Char.{code}
use Prim.Native.String
use Prim.Native.String.{[], ◌∷◌}
use bicycle.Prelude.{
  ℕ, Bool, false, not, List, [], ◌∷◌, String, str_eq, ◌==◌, if◌then◌else◌, Result, ok, err, Error,
  fatal,
}
use bicycle.Api.Types.{Body, no_body, error_body, wrapped_body, HttpRequest, Response}

abbrev pub Handler : Type 0 → Type 0
Handler S = HttpRequest → S → S × Result Response

abbrev pub respond : ℕ → Body → Response
respond status body = record { status = status; body = body }

-- `writeHttpError`
abbrev pub write_http_error : ℕ → String → Response
write_http_error status comment = respond status (error_body comment)

-- `writeHttpError` of a text with `%v` of an error at its end.
abbrev pub write_http_error_of : ℕ → String → Error → Response
write_http_error_of status comment e = respond status (wrapped_body comment e)

-- A response that was written before a panic; the header is then already sent, so a later panic of the
-- handlers, all of which answer at their end, is answered with 500 and no body.
abbrev pub recovered : Result Response → Result Response
recovered (ok r) = ok r
recovered (err fatal) = err fatal
recovered (err _) = ok (respond 500 no_body)

-- `strings.Split(s, " ")`: the loop keeps the part that is open.
unfoldable pub split_from : String → String → List String
split_from cur [] = cur ∷ []
split_from cur (ch ∷ s) =
    let closed = split_from "" s in
    let longer = split_from (String.◌++◌ cur (ch ∷ "")) s in
    if code ch == 32 then cur ∷ closed else longer

unfoldable pub split_spaces : String → List String
unfolding split_from
split_spaces s = split_from "" s

abbrev pub is_bearer : List String → String → Bool
is_bearer (kind ∷ value ∷ []) token = if str_eq kind "Bearer" then str_eq value token else false
is_bearer _ token = false

-- `checkToken`; `ConstantTimeCompare` is 1 exactly for equal bytes.
unfoldable pub check_token : HttpRequest → String → Bool
unfolding split_spaces
check_token req token = is_bearer (split_spaces req.authorization) token

module _ {S : Type 0} where
  -- `recoverMiddleware`
  unfoldable pub recover_middleware : Handler S → Handler S
  recover_middleware next req s = let (s', r) = next req s in (s', recovered r)

  -- `authMiddleware`, with `config.Config.APIToken`
  unfoldable pub auth_middleware : String → Handler S → Handler S
  unfolding check_token
  auth_middleware api_token next req s =
      if not (check_token req api_token) then (s, ok (respond 401 no_body)) else next req s

  -- `get`
  unfoldable pub get : Handler S → Handler S
  get next req s =
      if not (str_eq req.method "GET")
      then (s, ok (write_http_error 400 "only GET method is supported"))
      else next req s

  -- `post`
  unfoldable pub post : Handler S → Handler S
  post next req s =
      if not (str_eq req.method "POST")
      then (s, ok (write_http_error 400 "only POST method is supported"))
      else next req s
