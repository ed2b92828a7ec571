-- ===== src/Requests/Errors.antt =====
-- src/common/filters/global-exception.filter.ts: the shape of errors.
use iam_access_control_servi.Prelude.{
  ℕ, String, ◌≡◌, ◌≢◌, ◌⊎◌, Bool, true, false, Option, none, some, List, join, str_eq, nat_eq,
  if◌then◌else◌,
}

-- The `message` of a response: a text or an array of texts.
pub data Message : Type 0 where
  one : String → Message
  many : List String → Message

pub data HttpResponse : Type 0 where
  text : String → HttpResponse
  body : Option Message → HttpResponse

-- What reaches the filter: an `HttpException` with its status, response and message, Prisma's
-- known request error with its code, or anything else.
pub data Thrown : Type 0 where
  http : ℕ → HttpResponse → String → Thrown
  prisma_known : String → Thrown
  unexpected : Thrown

pub record Normalized : Type 0 where
  pub status : ℕ
  pub code : String
  pub message : String

-- `codeForStatus`
unfoldable pub code_for_status : ℕ → String
code_for_status status =
    if nat_eq status 400
    then "BAD_REQUEST"
    else if nat_eq status 401
    then "UNAUTHORIZED"
    else if nat_eq status 403
    then "FORBIDDEN"
    else if nat_eq status 404
    then "NOT_FOUND"
    else if nat_eq status 409
    then "CONFLICT"
    else "ERROR"

abbrev pub message_text : Message → String
message_text (one s) = s
message_text (many ss) = join "; " ss

abbrev pub response_message : HttpResponse → String → String
response_message (text s) fallback = s
response_message (body (some m)) fallback = message_text m
response_message (body none) fallback = fallback

abbrev pub internal_error : Normalized
internal_error = record {
  status = 500;
  code = "INTERNAL_SERVER_ERROR";
  message = "An unexpected error occurred";
}

-- `normalize`
unfoldable pub normalize : Thrown → Normalized
unfolding code_for_status
normalize (http status response message) = record {
  status = status;
  code = code_for_status status;
  message = response_message response message;
}
normalize (prisma_known code) =
    if str_eq code "P2002"
    then record {
      status = 409;
      code = "CONFLICT";
      message = "A record with the same unique fields already exists";
    }
    else if str_eq code "P2025"
    then record { status = 404; code = "NOT_FOUND"; message = "Requested record was not found" }
    else internal_error
normalize unexpected = internal_error

-- What the client gets: a GraphQL error, an HTTP status with a body, or nothing where the
-- response cannot be written.
pub data Reply : Type 0 where
  graphql_error : Normalized → Reply
  json : Normalized → Reply
  nothing : Reply

-- `catch`, on whether the transport is GraphQL and whether the HTTP response has `status`.
unfoldable pub catch_exception : Bool → Bool → Thrown → Reply
unfolding normalize
catch_exception true writable t = graphql_error (normalize t)
catch_exception false true t = json (normalize t)
catch_exception false false t = nothing

-- What a client may learn of an error: what the HTTP exception was made to say, one of two fixed
-- answers on Prisma's known codes, or of all else the internal error.
pub data IsSafe (t : Thrown) (n : Normalized) : Type 0 where
  declared :
      (status : ℕ) (response : HttpResponse) (message : String)
      → t ≡ http status response message
      → n.status ≡ status
      → n.message ≡ response_message response message
      → IsSafe t n
  conflict : n.status ≡ 409 → n.code ≡ "CONFLICT" → t ≡ prisma_known "P2002" → IsSafe t n
  missing : n.status ≡ 404 → n.code ≡ "NOT_FOUND" → t ≡ prisma_known "P2025" → IsSafe t n
  internal :
      n ≡ internal_error
      → (t ≡ unexpected)
        ⊎ ((code : String) × (t ≡ prisma_known code) × (code ≢ "P2002") × (code ≢ "P2025"))
      → IsSafe t n
