-- ===== src/Transport.antt =====
-- packages/tekmemo/src/cloud-client/transport.ts: one request of the cloud client, with its
-- retries. What `fetch` gives for each request is a parameter, as are the runtime's numbers, dates
-- and JSON; the messages of errors are left out. Retries are counted by a natural number.
pub mod Attempts
mod Tests
use tekbreed_oss.Prelude.{
  ℕ, zero, suc, ◌+◌, ◌-◌, ◌*◌, String, Bool, true, false, ◌&&◌, ◌||◌, not, Option, none, some, List,
  [], ◌∷◌, ◌==◌, ltb, leb, eqb, if◌then◌else◌, get_or, is_some,
}
use tekbreed_oss.Prelude.Number.{JsNumber, pos, negsuc}
use tekbreed_oss.Prelude.Json.{Json, Fields, field_of}
use tekbreed_oss.Prelude.Result.{Result, ok, throw, ◌>>=◌}

-- The classes of errors that the transport throws; `http` is what createHttpError makes.
pub data CloudErrorKind : Type 0 where
  auth network timeout parse http : CloudErrorKind
  -- an error that is none of the client's own
  foreign : CloudErrorKind

pub record CloudError : Type 0 where
  pub kind : CloudErrorKind
  pub code : String
  pub status : Option ℕ
  pub request_id : Option String
  pub retry_after_ms : Option ℕ

-- The fields of a response that are read.
pub record Response : Type 0 where
  pub status : ℕ
  pub x_request_id : Option String
  pub retry_after : Option String
  pub body : String

-- What a call of fetch comes to: a response, or an AbortError, a TypeError or another error.
pub data Fetched : Type 0 where
  responded : Response → Fetched
  abort_error type_error other_error : Fetched

pub record RetryOptions : Type 0 where
  pub retries : ℕ
  pub base_delay_ms : ℕ
  pub max_delay_ms : ℕ
  pub statuses : List ℕ

abbrev pub default_retry_options : RetryOptions
default_retry_options = record {
  retries = 2;
  base_delay_ms = 250;
  max_delay_ms = 2500;
  statuses = 408 ∷ 409 ∷ 425 ∷ 429 ∷ 500 ∷ 502 ∷ 503 ∷ 504 ∷ [];
}

-- The runtime: Number(s), Date.parse, trim, JSON.parse (none where it throws), String(n).
pub record Runtime : Type 0 where
  pub to_number : String → JsNumber
  pub date_parse : String → JsNumber
  pub trim : String → String
  pub json_parse : String → Option Json
  pub http_code : ℕ → String

-- response.ok
abbrev pub is_ok : Response → Bool
is_ok r = leb 200 r.status && ltb r.status 300

abbrev pub text_of : Option Json → Option String
text_of (some (Json.text s)) = some s
text_of _ = none

abbrev pub request_id_of : Option Json → Option String
request_id_of (some (Json.object meta)) = text_of (field_of meta "requestId")
request_id_of _ = none

-- `a ?? b`
abbrev pub either : Option String → Option String → Option String
either none o = o
either (some s) o = some s

-- `payload.error` of an error envelope
abbrev pub error_of : Option Json → Option Fields
error_of (some (Json.object fields)) = some fields
error_of (some (Json.array items)) = some Fields.end
error_of _ = none

-- isErrorEnvelope: the fields of the error, and of the envelope around it
unfoldable pub error_envelope : Json → Option (Fields × Fields)
error_envelope (Json.object fields) = elim (error_of (field_of fields "error")) [
  | none ↦ none
  | some error ↦ some (error, fields)
]
error_envelope _ = none

-- isSuccessEnvelope: the data
unfoldable pub success_data : Json → Option Json
success_data (Json.object fields) =
    if is_some (field_of fields "error") then none else field_of fields "data"
success_data _ = none

-- createHttpError; a code that is not a text counts as absent
abbrev pub http_error : Option ℕ → String → Option String → Option ℕ → CloudError
http_error status code request_id retry_after_ms = record {
  kind = CloudErrorKind.http;
  code = code;
  status = status;
  request_id = request_id;
  retry_after_ms = retry_after_ms;
}

abbrev pub plain_error : CloudErrorKind → String → CloudError
plain_error kind code = record {
  kind = kind;
  code = code;
  status = none;
  request_id = none;
  retry_after_ms = none;
}

module _ (runtime : Runtime) (now : ℕ) where
  open runtime use {to_number, date_parse, trim, json_parse, http_code}

  -- parseRetryAfter; `Math.max(0, …)` of what is not negative is itself
  abbrev pub after_date : JsNumber → Option ℕ
  after_date (pos t) = some (t - now)
  after_date (negsuc t) = some 0
  after_date _ = none

  abbrev pub after_seconds : String → JsNumber → Option ℕ
  after_seconds value (pos n) = some (n * 1000)
  after_seconds value (negsuc n) = some 0
  after_seconds value _ = after_date (date_parse value)

  unfoldable pub parse_retry_after : Option String → Option ℕ
  parse_retry_after none = none
  parse_retry_after (some value) =
      if value == "" then none else after_seconds value (to_number value)

  -- parseJsonPayload: a blank body is null
  unfoldable pub parse_json_payload : Response → Result CloudError Json
  parse_json_payload r = if trim r.body == "" then ok Json.null else elim (json_parse r.body) [
    | some payload ↦ ok payload
    | none ↦ throw (record (plain_error CloudErrorKind.parse "invalid_json_response") {
      status = some r.status;
    })
  ]

  -- unwrapErrorBody, and the error made of it
  unfoldable pub response_error : Response → Json → CloudError
  unfolding error_envelope parse_retry_after
  response_error r payload = elim (error_envelope payload) [
    | none ↦
        http_error (some r.status) (http_code r.status) r.x_request_id
          (parse_retry_after r.retry_after)
    | some (error, envelope) ↦
        let code = get_or (text_of (field_of error "code")) "" in
        http_error (some r.status) (if code == "" then http_code r.status else code)
          (either (request_id_of (field_of envelope "meta")) r.x_request_id)
          (parse_retry_after r.retry_after)
  ]

  unfoldable pub unwrap_success_payload : Json → Option String → Result CloudError Json
  unfolding success_data error_envelope
  unwrap_success_payload payload request_id = elim (success_data payload) [
    | some data_ ↦ ok data_
    | none ↦ elim (error_envelope payload) [
      | some (error, envelope) ↦ throw (
          http_error none (get_or (text_of (field_of error "code")) "")
            (either (request_id_of (field_of envelope "meta")) request_id) none)
      | none ↦ throw (record (plain_error CloudErrorKind.parse "invalid_response_envelope") {
        request_id = request_id;
      })
    ]
  ]

  -- requestOnce
  unfoldable pub request_once : Fetched → Result CloudError Json
  unfolding parse_json_payload response_error unwrap_success_payload
  request_once Fetched.abort_error = throw (plain_error CloudErrorKind.timeout "request_timeout")
  request_once Fetched.type_error = throw (plain_error CloudErrorKind.network "network_error")
  request_once Fetched.other_error = throw (plain_error CloudErrorKind.foreign "")
  request_once (Fetched.responded r) = do
    payload ← parse_json_payload r
    if not (is_ok r)
        then throw (response_error r payload)
        else unwrap_success_payload payload r.x_request_id

abbrev pub includes_status : List ℕ → ℕ → Bool
includes_status [] n = false
includes_status (m ∷ ms) n = eqb m n || includes_status ms n

abbrev pub is_transient : CloudErrorKind → Bool
is_transient CloudErrorKind.network = true
is_transient CloudErrorKind.timeout = true
is_transient _ = false

-- shouldRetry, from the status on
unfoldable pub is_retryable : RetryOptions → CloudError → Bool
is_retryable retry e = elim e.status [
  | some status ↦ includes_status retry.statuses status
  | none ↦ is_transient e.kind
]

-- `retry === false || attempt >= attempts - 1`, with what follows
unfoldable pub should_retry : CloudError → ℕ → ℕ → Option RetryOptions → Bool
unfolding is_retryable
should_retry e attempt attempts none = false
should_retry e attempt attempts (some retry) =
    if leb attempts (suc attempt) then false else is_retryable retry e

abbrev pub min : ℕ → ℕ → ℕ
min a b = if leb a b then a else b

abbrev pub power_of_two : ℕ → ℕ
power_of_two zero = 1
power_of_two (suc n) = 2 * power_of_two n

-- getRetryDelayMs; `jitter n` is Math.floor(Math.random() * n)
unfoldable pub get_retry_delay_ms : (ℕ → ℕ) → CloudError → ℕ → Option RetryOptions → ℕ
get_retry_delay_ms jitter e attempt none = 0
get_retry_delay_ms jitter e attempt (some retry) = elim e.retry_after_ms [
  | some ms ↦ min ms retry.max_delay_ms
  | none ↦
      min (retry.base_delay_ms * power_of_two attempt + jitter (min 100 retry.base_delay_ms))
        retry.max_delay_ms
]

-- `retry === false ? 1 : retry.retries + 1`
abbrev pub attempts_of : Option RetryOptions → ℕ
attempts_of none = 1
attempts_of (some retry) = suc retry.retries

module _ (runtime : Runtime) (now : ℕ → ℕ) (jitter : ℕ → ℕ) (fetch : ℕ → Fetched)
    (retry : Option RetryOptions) where
  -- Attempt `n`: the clock and fetch stand for its call.
  abbrev pub attempt_once : ℕ → Result CloudError Json
  attempt_once n = request_once runtime (now n) (fetch n)

  -- One round of the loop of request: the outcome (none is `throw undefined`) and the delays slept,
  -- in order, where `rest` are the rounds that follow an error.
  abbrev pub round :
      ℕ
      → Result CloudError Json
      → (CloudError → Result (Option CloudError) Json × List ℕ)
      → Result (Option CloudError) Json × List ℕ
  round n (ok payload) rest = (ok payload, [])
  round n (throw e) rest =
      if should_retry e n (attempts_of retry) retry
      then ((rest e).0, get_retry_delay_ms jitter e n retry ∷ (rest e).1)
      else (throw (some e), [])

  -- The loop from attempt `n` on, with `left` rounds to go.
  unfoldable pub request_loop : ℕ → ℕ → Option CloudError → Result (Option CloudError) Json × List ℕ
  request_loop zero n last_error = (throw last_error, [])
  request_loop (suc left) n last_error =
      round n (attempt_once n) (λ e. request_loop left (suc n) (some e))

  -- request, with the test of the API key before the loop
  unfoldable pub request : (needs_key has_key : Bool) → Result (Option CloudError) Json × List ℕ
  unfolding request_loop
  request needs_key has_key =
      if needs_key && not has_key
      then (throw (some (plain_error CloudErrorKind.auth "api_key_required")), [])
      else request_loop (attempts_of retry) 0 none
