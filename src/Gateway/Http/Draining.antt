-- ===== src/Gateway/Http/Draining.antt =====
-- After the shutdown of `lifespan` no prediction gets in.
use distributed_model_server.Prelude.{
  none, ℕ, ◌≡◌, refl, Text, false, List, [], ◌∷◌, Option, some, get_elem?, arith,
}
use distributed_model_server.Errors.{default_service_draining}
use distributed_model_server.Gateway.Config.{GatewayConfig}
use distributed_model_server.Gateway.Client.{Reply}
use distributed_model_server.Gateway.App.Json.{Json}
use distributed_model_server.Gateway.App.Endpoints.{error_response, health_ready}
use distributed_model_server.Gateway.App.Middleware.{
  check_body, ContentLength, Checked, answers, escapes, enters, check_request, leave,
}
use distributed_model_server.Gateway.Http.{
  Task, entering, handling, getting, in_flight, returning, HttpGateway, ready, HttpStep, requests,
  gets, proceeds, handles, replies, returns, writes, opens, shuts, after_check, after_body,
  proceed_task, handle_task, reply_task, return_task, get_response, http_step, http_run,
}

-- The process is not started again.
abbrev pub NeverOpens : List HttpStep → Type 0
NeverOpens [] = Unit
NeverOpens (opens ∷ xs) = ⊥
NeverOpens (requests l n g p ∷ xs) = NeverOpens xs
NeverOpens (gets e ∷ xs) = NeverOpens xs
NeverOpens (proceeds i ∷ xs) = NeverOpens xs
NeverOpens (handles i t0 c0 c1 t1 latest ∷ xs) = NeverOpens xs
NeverOpens (replies i r c1 c2 t1 ∷ xs) = NeverOpens xs
NeverOpens (returns i ∷ xs) = NeverOpens xs
NeverOpens (writes w x ∷ xs) = NeverOpens xs
NeverOpens (shuts ∷ xs) = NeverOpens xs

abbrev IsClosed : HttpGateway → Type 0
IsClosed s = s.http.accepting_requests ≡ false

module _ (c : GatewayConfig) where
  after_body-IsClosed :
      (x : Checked) (i : ℕ) (generated : Text) (payload : Option Json) (s : HttpGateway)
      → IsClosed s
      → IsClosed (after_body x i generated payload s)
  after_body-IsClosed (answers response) i generated payload s e = e
  after_body-IsClosed escapes i generated payload s e = e
  after_body-IsClosed enters i generated payload s e = e

  proceed_task-IsClosed :
      (i : ℕ) (o : Option Task) (s : HttpGateway) → IsClosed s → IsClosed (proceed_task c i o s)
  unfolding proceed_task check_body
  proceed_task-IsClosed i none s e = e
  proceed_task-IsClosed i (some (entering size g p)) s e =
      after_body-IsClosed (check_body c size) i g p s e
  proceed_task-IsClosed i (some (handling g p)) s e = e
  proceed_task-IsClosed i (some (getting x)) s e = e
  proceed_task-IsClosed i (some (in_flight a k t0)) s e = e
  proceed_task-IsClosed i (some (returning h)) s e = e

  handle_task-IsClosed :
      (i t0 c0 c1 t1 : ℕ) (latest : Text) (o : Option Task) (s : HttpGateway)
      → IsClosed s
      → IsClosed (handle_task c i t0 c0 c1 t1 latest o s)
  unfolding handle_task
  handle_task-IsClosed i t0 c0 c1 t1 latest o s e = ground arith

  reply_task-IsClosed :
      (i : ℕ) (reply : Reply) (c1 c2 t1 : ℕ) (o : Option Task) (s : HttpGateway)
      → IsClosed s
      → IsClosed (reply_task c i reply c1 c2 t1 o s)
  unfolding reply_task
  reply_task-IsClosed i reply c1 c2 t1 o s e = ground arith

  return_task-IsClosed :
      (i : ℕ) (o : Option Task) (s : HttpGateway) → IsClosed s → IsClosed (return_task i o s)
  unfolding return_task leave
  return_task-IsClosed i o s e = ground arith

  after_check-IsClosed :
      (x : Checked) (size : ℕ) (generated : Text) (payload : Option Json) (s : HttpGateway)
      → IsClosed s
      → IsClosed (after_check x size generated payload s)
  after_check-IsClosed (answers response) size generated payload s e = e
  after_check-IsClosed escapes size generated payload s e = e
  after_check-IsClosed enters size generated payload s e = e

  http_run-IsClosed :
      (xs : List HttpStep) (s : HttpGateway)
      → NeverOpens xs
      → IsClosed s
      → IsClosed (http_run c xs s)
  unfolding http_run http_step
  http_run-IsClosed [] s h e = e
  http_run-IsClosed (opens ∷ xs) s h e = absurd h
  http_run-IsClosed (requests l n g p ∷ xs) s h e =
      http_run-IsClosed xs _ h (after_check-IsClosed _ n g p s e)
  http_run-IsClosed (gets x ∷ xs) s h e = http_run-IsClosed xs _ h e
  http_run-IsClosed (proceeds i ∷ xs) s h e =
      http_run-IsClosed xs _ h (proceed_task-IsClosed i (get_elem? s.tasks i) s e)
  http_run-IsClosed (handles i t0 c0 c1 t1 latest ∷ xs) s h e =
      http_run-IsClosed xs _ h (handle_task-IsClosed i t0 c0 c1 t1 latest (get_elem? s.tasks i) s e)
  http_run-IsClosed (replies i r c1 c2 t1 ∷ xs) s h e =
      http_run-IsClosed xs _ h (reply_task-IsClosed i r c1 c2 t1 (get_elem? s.tasks i) s e)
  http_run-IsClosed (returns i ∷ xs) s h e =
      http_run-IsClosed xs _ h (return_task-IsClosed i (get_elem? s.tasks i) s e)
  http_run-IsClosed (writes w x ∷ xs) s h e = http_run-IsClosed xs _ h e
  http_run-IsClosed (shuts ∷ xs) s h e = http_run-IsClosed xs _ h refl

  -- What a process does that was shut down: a prediction is answered with 503 SERVICE_DRAINING at once and
  -- nothing else changes, and the gateway is not ready.
  pub record Drains (s : HttpGateway) : Type 0 where
    pub refuses :
        (content_length : ContentLength) (body_length : ℕ) (generated : Text)
        (payload : Option Json)
        → http_step c (requests content_length body_length generated payload) s
          ≡ record s { responses = some (error_response [] default_service_draining) ∷ s.responses }
    pub not_ready : (latest : Text) → (get_response ready latest s).status_code ≡ 503

  IsClosed-Drains : (s : HttpGateway) → IsClosed s → Drains s
  unfolding http_step check_request health_ready
  IsClosed-Drains s e = record { refuses = λ l n g p. rw e refl; not_ready = λ _. rw e refl }

  -- From any state of the HTTP process, after its shutdown and whatever follows but a new start-up, a
  -- prediction that comes in is answered with 503 SERVICE_DRAINING at once and nothing else changes, and
  -- the gateway is not ready.
  pub http_run-shuts-Drains :
      (xs : List HttpStep) (s : HttpGateway)
      → NeverOpens xs
      → Drains (http_run c xs (http_step c shuts s))
  unfolding http_step
  http_run-shuts-Drains xs s h = IsClosed-Drains _ (http_run-IsClosed xs _ h refl)
