-- ===== src/Gateway/App/Complete.antt =====
-- Every request within the limits passes the checks.
use distributed_model_server.Prelude.{
  ℕ, ◌+◌, ◌≤◌, ◌≡◌, refl, ap, sym, Text, codes, true, false, List, [], ◌∷◌, some, text_eq,
  text_eq_refl, ltb, length, arith,
}
use distributed_model_server.Gateway.Config.{GatewayConfig}
use distributed_model_server.Gateway.State.{ok}
use distributed_model_server.Gateway.App.Json.{
  Json, natural, string, array, object, Elements, empty, element, end, member, get, utf8_length,
}
use distributed_model_server.Gateway.App.RequestId.{request_id_matches}
use distributed_model_server.Gateway.App.Validation.{
  Arguments, check_list, count, check_input, check_inputs, check_range, validate_members, validate,
}
use distributed_model_server.Gateway.App.Accepted.{Sized, IsAcceptable}

abbrev pub elements_of : List Text → Elements
elements_of [] = empty
elements_of (t ∷ ts) = element (string t) (elements_of ts)

-- The body that a client sends for these arguments.
abbrev pub payload_of : Arguments → Json
payload_of a = object (
    member (codes "request_id") (string a.request_id) (
      member (codes "inputs") (array (elements_of a.inputs)) (
        member (codes "model_version") (string a.model_version)
          (member (codes "timeout_ms") (natural a.timeout_ms) end))))

count-elements_of : (ts : List Text) → count (elements_of ts) ≡ length ts
count-elements_of [] = refl
count-elements_of (t ∷ ts) = omega (arith, count-elements_of ts)

module _ (c : GatewayConfig) where
  check_input-string :
      (t : Text) (n : ℕ)
      → 1 ≤ length t
      → utf8_length t ≡ some n
      → n ≤ c.max_input_bytes
      → check_input c (string t) ≡ ok (t, n)
  check_input-string [] n l u m = elim l [ ]
  check_input-string (x ∷ t) n l u m = rw (u, check_input) (ground arith)

  check_inputs-elements_of :
      (ts : List Text) (before total : ℕ)
      → Sized c ts total
      → check_inputs c (elements_of ts) before ≡ ok (ts, before + total)
  unfolding check_inputs
  check_inputs-elements_of [] before total h =
      let e : before ≡ before + total = omega (arith, h) in ap (λ n. ok ([], n)) e
  check_inputs-elements_of (t ∷ ts) before total (l, (n, m, u, k, sz, e)) =
      rw (check_input-string t n l u k, check_inputs-elements_of ts (before + n) m sz)
        (let eq : before + n + m ≡ before + total = omega (arith, e) in ap (λ i. ok (t ∷ ts, i)) eq)

  check_list-elements_of :
      (ts : List Text)
      → 1 ≤ length ts
      → length ts ≤ c.max_inputs_per_request
      → check_list c (some (array (elements_of ts))) ≡ ok (elements_of ts)
  check_list-elements_of ts l m = ground (arith, count-elements_of ts)

  check_range_lem : (n : ℕ) → c.min_timeout_ms ≤ n → n ≤ c.max_timeout_ms → check_range c n ≡ ok n
  check_range_lem n l m = ground arith

  total_lem :
      (total : ℕ)
      → total ≤ c.max_total_input_bytes
      → ltb c.max_total_input_bytes (0 + total) ≡ false
  total_lem total h = ground arith

  text_eq-model : (t : Text) → t ≡ c.model_version → text_eq t c.model_version ≡ true
  text_eq-model t e = rw e (text_eq_refl c.model_version)

  -- A body with exactly these arguments passes the checks and gives them back, if its request id has the
  -- right form and the arguments are within all the limits.
  pub validate-payload_of :
      (generated : Text) (a : Arguments)
      → IsAcceptable c generated a
      → request_id_matches a.request_id ≡ true
      → validate c generated (some (payload_of a)) ≡ ok a
  unfolding validate validate_members get text_eq
  validate-payload_of generated a v m =
      rw
        (
          m,
          check_list-elements_of a.inputs v.some_inputs v.few_inputs,
          check_inputs-elements_of a.inputs 0 v.total v.sized,
          total_lem v.total v.total_fits,
          text_eq-model a.model_version v.same_model,
          check_range_lem a.timeout_ms v.long_enough v.short_enough,
        )
        (ap (λ t. ok (record a { model_version = t })) (sym v.same_model))
