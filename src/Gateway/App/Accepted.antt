-- ===== src/Gateway/App/Accepted.antt =====
-- What a request that passed the checks is known to be, and that every such request passes them.
use distributed_model_server.Prelude.{
  ℕ, ◌+◌, ◌≤◌, ◌≡◌, refl, subst, ◌⊎◌, inr, Text, codes, Bool, true, false, not, List, [], ◌∷◌,
  Option, none, some, ltb, length, arith, any_by,
}
use distributed_model_server.Errors.{AppError, invalid_request, request_too_large}
use distributed_model_server.Gateway.Config.{GatewayConfig}
use distributed_model_server.Gateway.State.{Result, ok, raised, crashed}
use distributed_model_server.Gateway.App.Json.{
  Json, null, boolean, natural, negative, real, string, array, object, Elements, empty, element,
  Members, keys, get, utf8_length,
}
use distributed_model_server.Gateway.App.RequestId.{request_id_matches}
use distributed_model_server.Gateway.App.Validation.{
  ◌>>=◌, raise_if, Arguments, check_request_id, count, check_list, check_input, check_inputs,
  check_model, check_timeout, validate_members, validate, is_allowed_key,
}

-- The inputs are non-empty texts within the limit for each, and have `total` bytes together.
abbrev pub Sized : GatewayConfig → List Text → ℕ → Type 0
Sized c [] total = total ≡ 0
Sized c (t ∷ ts) total =
    (1 ≤ length t)
    × ((n : ℕ) × (m : ℕ) × (utf8_length t ≡ some n)
        × (n ≤ c.max_input_bytes)
        × Sized c ts m
        × (total ≡ n + m))

pub record IsAcceptable (c : GatewayConfig) (generated : Text) (a : Arguments) : Type 0 where
  pub known_id : (request_id_matches a.request_id ≡ true) ⊎ (a.request_id ≡ generated)
  pub some_inputs : 1 ≤ length a.inputs
  pub few_inputs : length a.inputs ≤ c.max_inputs_per_request
  pub total : ℕ
  pub sized : Sized c a.inputs total
  pub total_fits : total ≤ c.max_total_input_bytes
  pub same_model : a.model_version ≡ c.model_version
  pub long_enough : c.min_timeout_ms ≤ a.timeout_ms
  pub short_enough : a.timeout_ms ≤ c.max_timeout_ms

bind_ok {ℓ κ} :
    {A : Type ℓ} {B : Type κ} (m : Result A) (f : A → Result B) (b : B)
    → (m >>= f) ≡ ok b
    → (a : A) × (m ≡ ok a) × (f a ≡ ok b)
bind_ok (ok a) f b h = (a, refl, h)
bind_ok (raised e) f b h = cc
bind_ok crashed f b h = cc

ok_inj {ℓ} : {A : Type ℓ} {a b : A} → ◌≡◌ {A = Result A} (ok a) (ok b) → a ≡ b
ok_inj h = cc

raise_if_ok : (b : Bool) (e : AppError) (u : Unit {0}) → raise_if b e ≡ ok u → b ≡ false
raise_if_ok true e u h = cc
raise_if_ok false e u h = refl

total_below : (limit n total : ℕ) → ltb limit n ≡ false → n ≡ 0 + total → total ≤ limit
total_below limit n total h e = ground arith

module _ (c : GatewayConfig) where
  check_request_id_ok :
      (generated t : Text) (v : Option Json)
      → check_request_id generated v ≡ ok t
      → (request_id_matches t ≡ true) ⊎ (t ≡ generated)
  check_request_id_ok g t none h = let e : t ≡ g = cc in inr e
  check_request_id_ok g t (some null) h = let e : t ≡ g = cc in inr e
  check_request_id_ok g t (some (string u)) h = ground arith
  check_request_id_ok g t (some (boolean b)) h = cc
  check_request_id_ok g t (some (natural n)) h = cc
  check_request_id_ok g t (some (negative n)) h = cc
  check_request_id_ok g t (some (real d)) h = cc
  check_request_id_ok g t (some (array vs)) h = cc
  check_request_id_ok g t (some (object ms)) h = cc

  check_list_ok :
      (v : Option Json) (vs : Elements)
      → check_list c v ≡ ok vs
      → (1 ≤ count vs) × (count vs ≤ c.max_inputs_per_request)
  check_list_ok (some (array us)) vs h = ground arith
  check_list_ok none vs h = cc
  check_list_ok (some null) vs h = cc
  check_list_ok (some (string t)) vs h = cc
  check_list_ok (some (boolean b)) vs h = cc
  check_list_ok (some (natural n)) vs h = cc
  check_list_ok (some (negative n)) vs h = cc
  check_list_ok (some (real d)) vs h = cc
  check_list_ok (some (object ms)) vs h = cc

  check_input_ok :
      (v : Json) (r : Text × ℕ)
      → check_input c v ≡ ok r
      → (1 ≤ length r.0) × (utf8_length r.0 ≡ some r.1) × (r.1 ≤ c.max_input_bytes)
  check_input_ok (string []) r h = cc
  check_input_ok (string (x ∷ t)) r h = ground arith
  check_input_ok null r h = cc
  check_input_ok (boolean b) r h = cc
  check_input_ok (natural n) r h = cc
  check_input_ok (negative n) r h = cc
  check_input_ok (real d) r h = cc
  check_input_ok (array vs) r h = cc
  check_input_ok (object ms) r h = cc

  check_model_ok : (v : Option Json) (t : Text) → check_model c v ≡ ok t → t ≡ c.model_version
  check_model_ok v t h = ground arith

  check_timeout_ok :
      (v : Option Json) (n : ℕ)
      → check_timeout c v ≡ ok n
      → (c.min_timeout_ms ≤ n) × (n ≤ c.max_timeout_ms)
  check_timeout_ok v n h = ground arith

  -- What the loop has computed for some elements.
  abbrev Counts : Elements → ℕ → List Text × ℕ → Type 0
  Counts vs before r =
      (length r.0 ≡ count vs) × ((total : ℕ) × Sized c r.0 total × (r.1 ≡ before + total))

  element-Counts :
      (v : Json) (vs : Elements) (before : ℕ) (a : Text × ℕ) (rest : List Text × ℕ)
      → check_input c v ≡ ok a
      → Counts vs (before + a.1) rest
      → Counts (element v vs) before (a.0 ∷ rest.0, rest.1)
  element-Counts v vs before a rest ea (len, (total, sz, eq)) =
      let (n, u, l) = check_input_ok v a ea in
      (omega (arith, len), (a.1 + total, (n, (a.1, total, u, l, sz, refl)), omega (arith, eq)))

  check_inputs_ok :
      (vs : Elements) (before : ℕ) (r : List Text × ℕ)
      → check_inputs c vs before ≡ ok r
      → Counts vs before r
  unfolding check_inputs
  check_inputs_ok empty before r h =
      subst (Counts empty before) (ok_inj h) (refl, (0, refl, omega arith))
  check_inputs_ok (element v vs) before r h =
      let (a, ea, h1) = bind_ok (check_input c v) _ r h in
      let (rest, er, h2) = bind_ok (check_inputs c vs (before + a.1)) _ r h1 in
      subst (Counts (element v vs) before) (ok_inj h2)
        (element-Counts v vs before a rest ea (check_inputs_ok vs (before + a.1) rest er))

  members-IsAcceptable :
      (generated : Text) (ms : Members) (a : Arguments)
      → validate_members c generated ms ≡ ok a
      → IsAcceptable c generated a
  unfolding validate_members
  members-IsAcceptable g ms a h =
      let (_, _, h1) =
        bind_ok
          (raise_if (any_by (λ k. not (is_allowed_key k)) (keys ms))
            (invalid_request "Unknown fields in payload."))
          _ a h in
      let (request_id, ei, h2) =
        bind_ok (check_request_id g (get (codes "request_id") ms)) _ a h1 in
      let (vs, el, h3) = bind_ok (check_list c (get (codes "inputs") ms)) _ a h2 in
      let (found, ef, h4) = bind_ok (check_inputs c vs 0) _ a h3 in
      let (u, et, h5) =
        bind_ok
          (raise_if (ltb c.max_total_input_bytes found.1)
            (request_too_large "Total inputs byte limit exceeded."))
          _ a h4 in
      let (model, em, h6) = bind_ok (check_model c (get (codes "model_version") ms)) _ a h5 in
      let (timeout, eo, h7) = bind_ok (check_timeout c (get (codes "timeout_ms") ms)) _ a h6 in
      let (len, (total, sz, eq)) = check_inputs_ok vs 0 found ef in
      let (some_vs, few_vs) = check_list_ok (get (codes "inputs") ms) vs el in
      let fits = raise_if_ok (ltb c.max_total_input_bytes found.1) _ u et in
      let (low, high) = check_timeout_ok (get (codes "timeout_ms") ms) timeout eo in
      subst (IsAcceptable c g) (ok_inj h7) (record {
        known_id = check_request_id_ok g request_id (get (codes "request_id") ms) ei;
        some_inputs = omega (arith, len, some_vs);
        few_inputs = omega (arith, len, few_vs);
        total = total;
        sized = sz;
        total_fits = total_below c.max_total_input_bytes found.1 total fits eq;
        same_model = check_model_ok (get (codes "model_version") ms) model em;
        long_enough = low;
        short_enough = high;
      })

  -- A request that passes the checks has an id of the right form or the generated one, as many inputs as
  -- the settings allow and at least one, each of them non-empty and within the limit on its bytes, all of
  -- them within the limit on their bytes together, the gateway's model version, and a timeout in range.
  pub validate-IsAcceptable :
      (generated : Text) (payload : Option Json) (a : Arguments)
      → validate c generated payload ≡ ok a
      → IsAcceptable c generated a
  unfolding validate
  validate-IsAcceptable g none a h = cc
  validate-IsAcceptable g (some (object ms)) a h = members-IsAcceptable g ms a h
  validate-IsAcceptable g (some null) a h = cc
  validate-IsAcceptable g (some (boolean b)) a h = cc
  validate-IsAcceptable g (some (natural n)) a h = cc
  validate-IsAcceptable g (some (negative n)) a h = cc
  validate-IsAcceptable g (some (real d)) a h = cc
  validate-IsAcceptable g (some (string t)) a h = cc
  validate-IsAcceptable g (some (array vs)) a h = cc
