-- ===== src/Transport/Tests.antt =====
-- Requests of the cloud client against scripted answers.
use tekbreed_oss.Prelude.{
  ℕ, zero, suc, String, ◌≡◌, refl, true, Option, none, some, [], ◌∷◌, ◌==◌, if◌then◌else◌,
}
use tekbreed_oss.Prelude.Number.{pos, nan}
use tekbreed_oss.Prelude.Json.{Json, Fields}
use tekbreed_oss.Prelude.Result.{ok, throw}
use tekbreed_oss.Transport.{
  Runtime, Fetched, RetryOptions, CloudErrorKind, default_retry_options, error_envelope,
  success_data, parse_retry_after, parse_json_payload, response_error, unwrap_success_payload,
  request_once, is_retryable, should_retry, get_retry_delay_ms, request_loop, request, plain_error,
}
use tekbreed_oss.Transport.Attempts.{Ends, request_lem}

program : Unit {0}
unfolding error_envelope success_data parse_retry_after parse_json_payload response_error
    unwrap_success_payload request_once is_retryable should_retry get_retry_delay_ms request_loop
    request
program = tt

abbrev runtime : Runtime
runtime = record {
  to_number = λ s. pos 1;
  date_parse = λ s. nan;
  trim = λ s. s;
  json_parse = λ s.
      if s == "data"
      then some (Json.object (Fields.field "data" (Json.boolean true) Fields.end))
      else none;
  http_code = λ n. "http";
}

abbrev answer : ℕ → Option String → String → Fetched
answer status retry_after body =
    Fetched.responded
      (record { status = status; x_request_id = none; retry_after = retry_after; body = body })

-- A 503 that asks for a second's pause, an abort, and then the data.
abbrev fetch : ℕ → Fetched
fetch zero = answer 503 (some "1") ""
fetch (suc zero) = Fetched.abort_error
fetch _ = answer 200 none "data"

abbrev now : ℕ → ℕ
now n = 0

abbrev jitter : ℕ → ℕ
jitter n = 7

abbrev retry : Option RetryOptions
retry = some default_retry_options

third_time :
    request runtime now jitter fetch retry true true ≡ (ok (Json.boolean true), 1000 ∷ 507 ∷ [])
unfolding program
third_time = refl

-- A request that its caller aborted is sent three times, and reported as timed out.
abort_retried :
    request runtime now jitter (λ n. Fetched.abort_error) retry true true
    ≡ (throw (some (plain_error CloudErrorKind.timeout "request_timeout")), 257 ∷ 507 ∷ [])
unfolding program
abort_retried = refl

request_lem_example :
    Ends runtime now jitter fetch retry 2 0 (request runtime now jitter fetch retry true true)
request_lem_example = request_lem runtime now jitter fetch retry true true refl
