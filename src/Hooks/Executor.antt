-- ===== src/Hooks/Executor.antt =====
-- qarax/src/hook_executor.rs: the delivery of one claimed execution. The database may refuse to
-- write the outcome, which the executor ignores; the HTTP client's answer is a parameter.
use qarax.Base.{
  ℕ, zero, suc, ◌+◌, ◌-◌, Bool, Option, none, some, List, [], ◌++◌, if◌then◌else◌, leb, ltb, ◌&&◌,
  Text, codes, to_string, ◌⊎◌, inl, inr,
}
use mathlib.Core.Option
use qarax.Hooks.{LifecycleHook, Payload, HookExecution, mark_delivered, mark_retry, mark_failed}

-- `BACKOFF_SECS[i]` for an index in bounds
unfoldable pub backoff_secs : ℕ → ℕ
backoff_secs zero = 5
backoff_secs (suc zero) = 30
backoff_secs (suc (suc zero)) = 120
backoff_secs (suc (suc (suc zero))) = 600
backoff_secs _ = 1800

abbrev pub min : ℕ → ℕ → ℕ
min a b = if leb a b then a else b

-- What comes back from the POST request: a status code with a body, if it can be read, or an error.
pub data Response : Type 0 where
  http : ℕ → Option Text → Response
  request_error : Text → Response

abbrev pub is_success : ℕ → Bool
is_success code = leb 200 code && ltb code 300

abbrev pub unwrap_or_default : Option Text → Text
unwrap_or_default none = []
unwrap_or_default (some body) = body

-- What is done to the row of an execution.
pub data Mark : Type 0 where
  delivered : ℕ → Option Text → Mark
  retry : Text → ℕ → Mark
  failed : Text → Mark

unfoldable pub handle_failure : ℕ → HookExecution → Text → Mark
handle_failure now execution error =
    let next_attempt = execution.attempt_count + 1 in
    if leb execution.max_attempts next_attempt
    then failed error
    else retry error (now + backoff_secs (min next_attempt (5 - 1)))

-- The lookup of the hook answers with the hook or with the error's text.
-- The POST request, with the header "X-Qarax-Signature" where the hook has a secret.
pub record Request : Type 0 where
  pub url : Text
  pub body : Text
  pub signature : Option Text

-- `serde_json`, the hexadecimal HMAC-SHA256 of a body under a secret, and the HTTP client.
pub record Network : Type 0 where
  pub serialize : Payload → Text
  pub hmac_hex : Text → Text → Text
  pub send : Request → Response

module _ (net : Network) where
  unfoldable pub request_of : LifecycleHook → Payload → Request
  request_of hook payload =
      let body = net.serialize payload in
      record {
        url = hook.url;
        body = body;
        signature = Option.map (λ secret. codes "sha256=" ++ net.hmac_hex secret body) hook.secret;
      }

  unfoldable pub answer : ℕ → HookExecution → Response → Mark
  answer now execution (http code body) =
      if is_success code
      then delivered code body
      else handle_failure now execution
          (codes "HTTP " ++ (to_string code ++ (codes ": " ++ unwrap_or_default body)))
  answer now execution (request_error e) =
      handle_failure now execution (codes "request error: " ++ e)

  -- The lookup of the hook finds it, or gives the text of an error.
  unfoldable pub deliver_hook : ℕ → HookExecution → Text ⊎ LifecycleHook → Mark
  deliver_hook now execution (inl e) = failed (codes "hook not found: " ++ e)
  deliver_hook now execution (inr hook) =
      answer now execution (net.send (request_of hook execution.payload))

unfoldable pub apply_mark : ℕ → ℕ → Mark → List HookExecution → List HookExecution
apply_mark now id (delivered code body) = mark_delivered id code body now
apply_mark now id (retry error next_retry_at) = mark_retry id error next_retry_at
apply_mark now id (failed error) = mark_failed id error
