-- ===== src/Gateway/Http/Refines.antt =====
-- The HTTP process runs on the event loop of Gateway/System: each of its steps is one of that loop's, or
-- leaves it as it is.
use distributed_model_server.Prelude.{
  remove_at, ℕ, ◌≡◌, refl, sym, ap, ◌∙◌, ◌++◌, subst, Text, List, [], ◌∷◌, Option, none, some,
  get_elem?,
}
use distributed_model_server.Protocol.{PredictRequest}
use distributed_model_server.Gateway.Config.{GatewayConfig, post_init}
use distributed_model_server.Gateway.State.{Result, ok, raised, crashed}
use distributed_model_server.Gateway.Client.{
  Call, Reply, Progress, waiting, finished, begin, resume,
}
use distributed_model_server.Gateway.System.{
  System, Step, arrives, starts, stops, add_waiting, boot, step, run,
}
use distributed_model_server.Gateway.System.Conservation.{IsAccounted}
use distributed_model_server.Gateway.System.Boot.{run-post_init-IsAccounted}
use distributed_model_server.Gateway.System
use distributed_model_server.Gateway.App.Json.{Json}
use distributed_model_server.Gateway.App.Validation.{Arguments, validate}
use distributed_model_server.Gateway.App.Endpoints.{open_prediction, predict_begin}
use distributed_model_server.Gateway.App.Middleware.{check_body, Checked, answers, escapes, enters}
use distributed_model_server.Gateway.Http.{
  Task, entering, handling, getting, in_flight, returning, HttpGateway, HttpStep, requests, gets,
  proceeds, handles, replies, returns, writes, opens, shuts, carry_on, after_open, after_check,
  after_body, proceed_task, handle_task, reply_task, return_task, http_step, http_run, http_boot,
}
use distributed_model_server.Gateway.Http.Calls.{
  call_in, calls_of, loop_of, place_of, get-calls_of, calls_of-remove_in_flight, calls_of-remove,
}

-- The steps of the event loop that a step of the process comes to.
abbrev Follows : GatewayConfig → HttpGateway → HttpGateway → Type 0
Follows c s s' = (ys : List Step) × (loop_of s' ≡ run c ys (loop_of s))

call_in-carry_on :
    (a : Arguments) (t0 t1 : ℕ) (p : Progress) (ks : List Call)
    → call_in (carry_on a t0 t1 p) ++ ks ≡ add_waiting p ks
unfolding carry_on
call_in-carry_on a t0 t1 (waiting k) ks = refl
call_in-carry_on a t0 t1 (finished r) ks = refl

module _ (c : GatewayConfig) where
  -- A step of the process that changes nothing of the event loop.
  stays-Follows :
      (s : HttpGateway) {ks : List Call}
      → ks ≡ calls_of s.tasks
      → (ys : List Step) × (record { gateway = s.gateway; calls = ks } ≡ run c ys (loop_of s))
  unfolding run
  stays-Follows s k = ([], ap (λ ks. record { gateway = s.gateway; calls = ks }) k)

  after_check-Follows :
      (x : Checked) (size : ℕ) (generated : Text) (payload : Option Json) (s : HttpGateway)
      → Follows c s (after_check x size generated payload s)
  after_check-Follows (answers response) size generated payload s = stays-Follows s refl
  after_check-Follows escapes size generated payload s = stays-Follows s refl
  after_check-Follows enters size generated payload s = stays-Follows s refl

  after_body-Follows :
      (x : Checked) (i : ℕ) (generated : Text) (payload : Option Json) (s : HttpGateway)
      → calls_of (remove_at i s.tasks) ≡ calls_of s.tasks
      → Follows c s (after_body x i generated payload s)
  after_body-Follows (answers response) i generated payload s k = stays-Follows s k
  after_body-Follows escapes i generated payload s k = stays-Follows s k
  after_body-Follows enters i generated payload s k = stays-Follows s k

  proceed_task-Follows :
      (i : ℕ) (o : Option Task) (s : HttpGateway)
      → get_elem? s.tasks i ≡ o
      → Follows c s (proceed_task c i o s)
  unfolding proceed_task check_body
  proceed_task-Follows i none s e = stays-Follows s refl
  proceed_task-Follows i (some (entering size generated payload)) s e =
      after_body-Follows (check_body c size) i generated payload s
        (calls_of-remove i s.tasks (entering size generated payload) e refl)
  proceed_task-Follows i (some (handling generated payload)) s e = stays-Follows s refl
  proceed_task-Follows i (some (getting x)) s e = stays-Follows s refl
  proceed_task-Follows i (some (in_flight a k t0)) s e = stays-Follows s refl
  proceed_task-Follows i (some (returning h)) s e = stays-Follows s refl

  opened-Follows :
      (r : Result Arguments) (i t0 c0 c1 t1 : ℕ) (s : HttpGateway)
      → calls_of (remove_at i s.tasks) ≡ calls_of s.tasks
      → let (o, g) = open_prediction c c0 c1 r s.gateway in
        Follows c s (record s { gateway = g; tasks = after_open t0 t1 o ∷ remove_at i s.tasks })
  unfolding open_prediction after_open step run
  opened-Follows (raised e) i t0 c0 c1 t1 s k = stays-Follows s k
  opened-Follows crashed i t0 c0 c1 t1 s k = stays-Follows s k
  opened-Follows (ok a) i t0 c0 c1 t1 s k =
      let request : PredictRequest = record {
        request_id = a.request_id;
        model_version = a.model_version;
        inputs = a.inputs;
      } in
      let (p, g) = begin c request a.timeout_ms c0 c1 s.gateway in
      (
        arrives request a.timeout_ms c0 c1 ∷ [],
        ap (λ ks. record { gateway = g; calls = ks })
            (call_in-carry_on a t0 t1 p (calls_of (remove_at i s.tasks)) ∙ ap (add_waiting p) k),
      )

  handle_task-Follows :
      (i t0 c0 c1 t1 : ℕ) (latest : Text) (o : Option Task) (s : HttpGateway)
      → get_elem? s.tasks i ≡ o
      → Follows c s (handle_task c i t0 c0 c1 t1 latest o s)
  unfolding handle_task predict_begin
  handle_task-Follows i t0 c0 c1 t1 latest none s e = stays-Follows s refl
  handle_task-Follows i t0 c0 c1 t1 latest (some (entering size g p)) s e = stays-Follows s refl
  handle_task-Follows i t0 c0 c1 t1 latest (some (handling generated payload)) s e =
      opened-Follows (validate c generated payload) i t0 c0 c1 t1 s
        (calls_of-remove i s.tasks (handling generated payload) e refl)
  handle_task-Follows i t0 c0 c1 t1 latest (some (getting x)) s e =
      stays-Follows s (calls_of-remove i s.tasks (getting x) e refl)
  handle_task-Follows i t0 c0 c1 t1 latest (some (in_flight a k t)) s e = stays-Follows s refl
  handle_task-Follows i t0 c0 c1 t1 latest (some (returning h)) s e = stays-Follows s refl

  reply_task-Follows :
      (i : ℕ) (reply : Reply) (c1 c2 t1 : ℕ) (o : Option Task) (s : HttpGateway)
      → get_elem? s.tasks i ≡ o
      → Follows c s (reply_task c i reply c1 c2 t1 o s)
  unfolding reply_task step run
  reply_task-Follows i reply c1 c2 t1 none s e = stays-Follows s refl
  reply_task-Follows i reply c1 c2 t1 (some (entering size g p)) s e = stays-Follows s refl
  reply_task-Follows i reply c1 c2 t1 (some (handling g p)) s e = stays-Follows s refl
  reply_task-Follows i reply c1 c2 t1 (some (getting x)) s e = stays-Follows s refl
  reply_task-Follows i reply c1 c2 t1 (some (returning h)) s e = stays-Follows s refl
  reply_task-Follows i reply c1 c2 t1 (some (in_flight a k t0)) s e =
      let (p, g) = resume c k reply c1 c2 s.gateway in
      (
        System.replies (place_of i s.tasks) reply c1 c2 ∷ [],
        ap (λ ks. record { gateway = g; calls = ks })
              (call_in-carry_on a t0 t1 p (calls_of (remove_at i s.tasks)))
            ∙ rw
                (
                  get-calls_of i s.tasks a k t0 e,
                  calls_of-remove_in_flight i s.tasks a k t0 e,
                  step,
                )
                refl,
      )

  return_task-Follows :
      (i : ℕ) (o : Option Task) (s : HttpGateway)
      → get_elem? s.tasks i ≡ o
      → Follows c s (return_task i o s)
  unfolding return_task
  return_task-Follows i none s e = stays-Follows s refl
  return_task-Follows i (some (entering size g p)) s e = stays-Follows s refl
  return_task-Follows i (some (handling g p)) s e = stays-Follows s refl
  return_task-Follows i (some (getting x)) s e = stays-Follows s refl
  return_task-Follows i (some (in_flight a k t0)) s e = stays-Follows s refl
  return_task-Follows i (some (returning h)) s e =
      stays-Follows s (calls_of-remove i s.tasks (returning h) e refl)

  http_step-Follows : (x : HttpStep) (s : HttpGateway) → Follows c s (http_step c x s)
  unfolding http_step step run
  http_step-Follows (requests length body_length generated payload) s =
      after_check-Follows _ body_length generated payload s
  http_step-Follows (gets e) s = stays-Follows s refl
  http_step-Follows (proceeds i) s = proceed_task-Follows i (get_elem? s.tasks i) s refl
  http_step-Follows (handles i t0 c0 c1 t1 latest) s =
      handle_task-Follows i t0 c0 c1 t1 latest (get_elem? s.tasks i) s refl
  http_step-Follows (replies i reply c1 c2 t1) s =
      reply_task-Follows i reply c1 c2 t1 (get_elem? s.tasks i) s refl
  http_step-Follows (returns i) s = return_task-Follows i (get_elem? s.tasks i) s refl
  http_step-Follows (writes wid x) s = (Step.writes wid x ∷ [], refl)
  http_step-Follows opens s = (starts ∷ [], refl)
  http_step-Follows shuts s = (stops ∷ [], refl)

  run-append : (xs ys : List Step) (s : System) → run c (xs ++ ys) s ≡ run c ys (run c xs s)
  unfolding run
  run-append [] ys s = refl
  run-append (x ∷ xs) ys s = run-append xs ys (step c x s)

  http_run-Follows : (xs : List HttpStep) (s : HttpGateway) → Follows c s (http_run c xs s)
  unfolding http_run run
  http_run-Follows [] s = ([], refl)
  http_run-Follows (x ∷ xs) s =
      let (ys, e) = http_step-Follows x s in
      let (zs, f) = http_run-Follows xs (http_step c x s) in
      (ys ++ zs, f ∙ (ap (run c zs) e ∙ sym (run-append ys zs (loop_of s))))

  -- If the gateway reads its workers from any text, then in any run of the HTTP process, with all its
  -- requests, replies, probes, start-ups and shutdowns, each worker has as many outstanding requests as
  -- HTTP requests wait for it, and never more than the limit.
  pub http_run-IsAccounted :
      (raw : Text) (xs : List HttpStep)
      → c.workers ≡ post_init [] raw
      → IsAccounted c (loop_of (http_run c xs (http_boot c)))
  http_run-IsAccounted raw xs e =
      let (ys, same) = http_run-Follows xs (http_boot c) in
      subst (IsAccounted c) (sym same) (run-post_init-IsAccounted c raw ys e)
