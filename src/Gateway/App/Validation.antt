-- ===== src/Gateway/App/Validation.antt =====
-- gateway/app.py: the checks of `predict` on a request, in their order, up to the call of the client.
use distributed_model_server.Prelude.{
  ℕ, ◌+◌, Text, codes, Bool, true, false, not, ◌&&◌, ◌||◌, List, [], ◌∷◌, Option, none, some,
  text_eq, ltb, leb, ◌==◌, any_by, if◌then◌else◌,
}
use distributed_model_server.Errors.{
  AppError, invalid_request, request_too_large, default_unsupported_model,
}
use distributed_model_server.Gateway.Config.{GatewayConfig}
use distributed_model_server.Gateway.State.{Result, ok, raised, crashed}
use distributed_model_server.Gateway.App.Json.{
  Json, null, boolean, natural, string, array, object, Elements, empty, element, Members, keys, get,
  utf8_length,
}
use distributed_model_server.Gateway.App.RequestId.{request_id_matches}

infixl 5 ◌>>=◌ ◌>>◌
abbrev pub ◌>>=◌ {ℓ κ} : {A : Type ℓ} {B : Type κ} → Result A → (A → Result B) → Result B
ok a >>= f = f a
raised e >>= f = raised e
crashed >>= f = crashed

abbrev pub ◌>>◌ {ℓ κ} : {A : Type ℓ} {B : Type κ} → Result A → Result B → Result B
m >> k = m >>= λ _. k

abbrev pub raise_if : Bool → AppError → Result (Unit {0})
raise_if b e = if b then raised e else ok tt

-- The arguments with which `predict` calls the client.
pub record Arguments : Type 0 where
  pub request_id : Text
  pub inputs : List Text
  pub model_version : Text
  pub timeout_ms : ℕ

abbrev pub is_allowed_key : Text → Bool
is_allowed_key k =
    text_eq k (codes "request_id")
    || (text_eq k (codes "inputs")
        || (text_eq k (codes "model_version") || text_eq k (codes "timeout_ms")))

-- `generated` is `uuid.uuid4().hex`.
abbrev pub check_request_id : Text → Option Json → Result Text
check_request_id generated none = ok generated
check_request_id generated (some null) = ok generated
check_request_id generated (some (string t)) =
    if request_id_matches t then ok t else raised (invalid_request "Invalid request_id format.")
check_request_id generated (some _) = raised (invalid_request "Invalid request_id format.")

-- `len(inputs)`
abbrev pub count : Elements → ℕ
count empty = 0
count (element v vs) = 1 + count vs

abbrev pub inputs_error : AppError
inputs_error = invalid_request "inputs must be a non-empty list of 1 to 8 strings."

abbrev pub check_list : GatewayConfig → Option Json → Result Elements
check_list c (some (array vs)) =
    if (count vs == 0) || ltb c.max_inputs_per_request (count vs)
    then raised inputs_error
    else ok vs
check_list c _ = raised inputs_error

abbrev pub element_error : AppError
element_error = invalid_request "inputs elements must be non-empty strings."

-- The text of one input and the number of its bytes.
abbrev pub check_input : GatewayConfig → Json → Result (Text × ℕ)
check_input c (string []) = raised element_error
check_input c (string (x ∷ t)) = elim (utf8_length (x ∷ t)) [
  | none ↦ crashed
  | some n ↦
      if ltb c.max_input_bytes n
      then raised (request_too_large "Input item byte limit exceeded.")
      else ok (x ∷ t, n)
]
check_input c _ = raised element_error

-- The loop over `inputs` with `total_bytes` so far.
unfoldable pub check_inputs : GatewayConfig → Elements → ℕ → Result (List Text × ℕ)
unfolding utf8_length
check_inputs c empty total = ok ([], total)
check_inputs c (element v vs) total =
    check_input c v >>= λ r. check_inputs c vs (total + r.1) >>= λ rest. ok (r.0 ∷ rest.0, rest.1)

abbrev pub check_model : GatewayConfig → Option Json → Result Text
check_model c none = ok c.model_version
check_model c (some (string t)) =
    if text_eq t c.model_version then ok c.model_version else raised default_unsupported_model
check_model c (some _) = raised default_unsupported_model

abbrev pub check_range : GatewayConfig → ℕ → Result ℕ
check_range c n =
    if leb c.min_timeout_ms n && leb n c.max_timeout_ms
    then ok n
    else raised (invalid_request "timeout_ms out of bounds.")

-- A `bool` is an `int`; a negative number lies below the bounds, which are not negative.
abbrev pub check_timeout : GatewayConfig → Option Json → Result ℕ
check_timeout c none = check_range c c.default_timeout_ms
check_timeout c (some (natural n)) = check_range c n
check_timeout c (some (boolean true)) = check_range c 1
check_timeout c (some (boolean false)) = check_range c 0
check_timeout c (some _) = raised (invalid_request "timeout_ms out of bounds.")

unfoldable pub validate_members : GatewayConfig → Text → Members → Result Arguments
unfolding check_inputs get
validate_members c generated ms = do
  raise_if (any_by (λ k. not (is_allowed_key k)) (keys ms))
      (invalid_request "Unknown fields in payload.")
  request_id ← check_request_id generated (get (codes "request_id") ms)
  vs ← check_list c (get (codes "inputs") ms)
  found ← check_inputs c vs 0
  raise_if (ltb c.max_total_input_bytes found.1)
      (request_too_large "Total inputs byte limit exceeded.")
  model_version ← check_model c (get (codes "model_version") ms)
  timeout_ms ← check_timeout c (get (codes "timeout_ms") ms)
  ok (record {
    request_id = request_id;
    inputs = found.0;
    model_version = model_version;
    timeout_ms = timeout_ms;
  })

-- The parsed body, or `none` if `request.json()` raised.
unfoldable pub validate : GatewayConfig → Text → Option Json → Result Arguments
unfolding validate_members
validate c generated none = raised (invalid_request "Invalid JSON payload.")
validate c generated (some (object ms)) = validate_members c generated ms
validate c generated (some _) = raised (invalid_request "Payload must be a JSON object.")
