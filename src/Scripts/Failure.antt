-- ===== src/Scripts/Failure.antt =====
-- scripts/failure_scenario.py: the scenario of a worker that stops and comes back, over what the gateway and
-- docker answer. Only what decides its outcome is kept of its output.
pub mod Passing
use distributed_model_server.Prelude.{
  ℕ, zero, suc, ◌+◌, Text, codes, Bool, true, false, List, [], ◌∷◌, Option, none, some, ltb, ◌==◌,
  if◌then◌else◌, text_eq, contains,
}
use distributed_model_server.Gateway.App.Json.{Json, string, Members, end, member, get}

-- What `urlopen` does: a response, an `HTTPError`, or another exception.
pub data Reply : Type 0 where
  responds http_error : ℕ → Text → Reply
  raises : Text → Reply

unfoldable pub http_get : Reply → ℕ × Text
http_get (responds status body) = (status, body)
http_get (http_error code body) = (code, body)
http_get (raises exc) = (0, exc)

module _ (loads : Text → Option Members) where
  -- An exception of `urlopen`, an `HTTPError` too, and one of `json.loads`, with the text `exc`.
  unfoldable pub http_post_predict : Text → Reply → Members
  http_post_predict exc (responds status body) = elim (loads body) [
    | none ↦ member (codes "error") (string exc) end
    | some ms ↦ ms
  ]
  http_post_predict exc _ = member (codes "error") (string exc) end

pub data Command : Type 0 where
  stop_worker_1 start_worker_1 : Command

-- `sys.exit(1)` with the number of the step, or an exception of `run_cmd`.
pub data Verdict : Type 0 where
  passed crashed : Verdict
  failed : ℕ → Verdict

pub record Outcome : Type 0 where
  pub verdict : Verdict
  pub commands : List Command
  -- `recovered`, which only chooses a message
  pub recovered : Bool

-- The answers in their order: to the polls, to the predictions with the text of an exception, and to the
-- commands.
pub record World : Type 0 where
  pub ready : ℕ → Reply
  pub posts : ℕ → Reply
  pub exceptions : ℕ → Text
  pub stops : Bool
  pub starts : Bool
  pub logs : Option Text

-- `"predictions" in res`
abbrev pub has_predictions : Members → Bool
unfolding get
has_predictions res = elim (get (codes "predictions") res) [ none ↦ false | some v ↦ true ]

abbrev pub is_worker_1 : Option Json → Bool
is_worker_1 (some (string t)) = text_eq t (codes "worker-1")
is_worker_1 _ = false

-- `r.get("worker_id") == "worker-1"`
abbrev pub from_worker_1 : Members → Bool
unfolding get
from_worker_1 r = is_worker_1 (get (codes "worker_id") r)

module _ (loads : Text → Option Members) (w : World) where
  -- The result of the `k`-th call of `http_post_predict`.
  abbrev pub prediction : ℕ → Members
  unfolding http_post_predict
  prediction k = http_post_predict loads (w.exceptions k) (w.posts k)

  -- `for _ in range(30)` with its `break`.
  unfoldable pub poll : ℕ → ℕ → Bool
  unfolding http_get
  poll zero k = false
  poll (suc left) k =
      let rest = poll left (k + 1) in if (http_get (w.ready k)).0 == 200 then true else rest

  -- `worker1_hits` after so many requests from the `k`-th on.
  unfoldable pub hits : ℕ → ℕ → ℕ
  unfolding from_worker_1 prediction
  hits zero k = 0
  hits (suc left) k = (if from_worker_1 (prediction k) then 1 else 0) + hits left (k + 1)

  -- `recovered` after the loop with its `break`, from the `k`-th request on.
  unfoldable pub recovers : ℕ → ℕ → Bool
  unfolding from_worker_1 prediction
  recovers zero k = false
  recovers (suc left) k =
      let rest = recovers left (k + 1) in if from_worker_1 (prediction k) then true else rest

  -- Steps 5 to 7.
  unfoldable pub after_stop : Text → Outcome
  unfolding recovers
  after_stop sentinel =
      let recovered = recovers 20 21 in
      let commands = stop_worker_1 ∷ start_worker_1 ∷ [] in
      if w.starts
      then elim w.logs [
        | none ↦ record { verdict = crashed; commands = commands; recovered = recovered }
        | some logs ↦ record {
          verdict = if contains logs sentinel then failed 7 else passed;
          commands = commands;
          recovered = recovered;
        }
      ]
      else record { verdict = crashed; commands = commands; recovered = false }

  unfoldable pub scenario : Text → Outcome
  unfolding poll hits after_stop has_predictions prediction
  scenario sentinel =
      if poll 30 0
      then if has_predictions (prediction 0)
        then if w.stops
          then if ltb 0 (hits 20 1)
            then record { verdict = failed 4; commands = stop_worker_1 ∷ []; recovered = false }
            else after_stop sentinel
          else record { verdict = crashed; commands = stop_worker_1 ∷ []; recovered = false }
        else record { verdict = failed 2; commands = []; recovered = false }
      else record { verdict = failed 1; commands = []; recovered = false }
