-- ===== src/Gateway/Http/Gauge.antt =====
-- No request is lost or answered twice, and the gauge shows those that are handled.
use distributed_model_server.Prelude.{
  remove_at, length-remove_at, count_by, ℕ, zero, suc, ◌+◌, ◌≡◌, refl, Text, Bool, true, false,
  List, [], ◌∷◌, Option, none, some, get_elem?, length, if◌then◌else◌, arith,
}
use distributed_model_server.Gateway.Config.{GatewayConfig}
use distributed_model_server.Gateway.Client.{Reply, Progress, waiting, finished}
use distributed_model_server.Gateway.App.Json.{Json}
use distributed_model_server.Gateway.App.Validation.{Arguments}
use distributed_model_server.Gateway.App.Endpoints.{Opened, refused, predicting}
use distributed_model_server.Gateway.App.Middleware.{
  check_body, Checked, answers, escapes, enters, leave,
}
use distributed_model_server.Gateway.Http.{
  Task, entering, handling, getting, in_flight, returning, HttpGateway, HttpStep, requests, gets,
  proceeds, handles, replies, returns, writes, opens, shuts, carry_on, after_open, after_check,
  after_body, proceed_task, handle_task, reply_task, return_task, http_step, http_run, http_boot,
}

-- The requests that come in.
abbrev pub incoming : HttpStep → ℕ
incoming (requests content_length body_length generated payload) = 1
incoming (gets e) = 1
incoming _ = 0

abbrev pub all_incoming : List HttpStep → ℕ
all_incoming [] = 0
all_incoming (x ∷ xs) = incoming x + all_incoming xs

-- Whether the request has passed the checks and was handed on to `call_next`.
abbrev pub is_handed_on : Task → Bool
is_handed_on (entering size generated payload) = false
is_handed_on (handling generated payload) = true
is_handed_on (getting e) = true
is_handed_on (in_flight a k t0) = true
is_handed_on (returning h) = true

-- `n` requests came in. Each is a task or has its response, and the gauge counts those that were handed on
-- and are not answered.
pub record IsCounted (n : ℕ) (s : HttpGateway) : Type 0 where
  pub conserved : length s.tasks + length s.responses ≡ n
  pub gauge : s.http.active_requests ≡ count_by is_handed_on s.tasks

count-remove_at :
    (i : ℕ) (ts : List Task) (t : Task)
    → get_elem? ts i ≡ some t
    → count_by is_handed_on (remove_at i ts) + (if is_handed_on t then 1 else 0)
      ≡ count_by is_handed_on ts
count-remove_at i [] t e = cc
count-remove_at zero (u ∷ ts) t e = let same : u ≡ t = cc in rw same (omega arith)
count-remove_at (suc i) (u ∷ ts) t e = omega (arith, count-remove_at i ts t e)

carry_on-is_handed_on :
    (a : Arguments) (t0 t1 : ℕ) (p : Progress) → is_handed_on (carry_on a t0 t1 p) ≡ true
unfolding carry_on
carry_on-is_handed_on a t0 t1 (waiting k) = refl
carry_on-is_handed_on a t0 t1 (finished r) = refl

after_open-is_handed_on : (t0 t1 : ℕ) (o : Opened) → is_handed_on (after_open t0 t1 o) ≡ true
unfolding after_open
after_open-is_handed_on t0 t1 (refused h) = refl
after_open-is_handed_on t0 t1 (predicting a p) = carry_on-is_handed_on a t0 t1 p

module _ (c : GatewayConfig) (n : ℕ) where
  -- A request that was handed on takes its next step.
  moves-IsCounted :
      (i : ℕ) (t t' : Task) (s s' : HttpGateway)
      → IsCounted n s
      → get_elem? s.tasks i ≡ some t
      → is_handed_on t ≡ true
      → is_handed_on t' ≡ true
      → s'.http ≡ s.http
      → s'.responses ≡ s.responses
      → s'.tasks ≡ t' ∷ remove_at i s.tasks
      → IsCounted n s'
  moves-IsCounted i t t' s s' v e h h' same sent ts =
      let less = count-remove_at i s.tasks t e in
      let one : ◌≡◌ {A = ℕ} (if is_handed_on t then 1 else 0) 1 = rw h refl in
      let more : ◌≡◌ {A = ℕ} (if is_handed_on t' then 1 else 0) 1 = rw h' refl in
      record {
        conserved = rw (ts, sent) (omega (arith, v.conserved, length-remove_at i s.tasks t e));
        gauge = rw (ts, same) (omega (arith, v.gauge, less, one, more));
      }

  after_body-IsCounted :
      (x : Checked) (i size : ℕ) (generated : Text) (payload : Option Json) (s : HttpGateway)
      → get_elem? s.tasks i ≡ some (entering size generated payload)
      → IsCounted n s
      → IsCounted n (after_body x i generated payload s)
  after_body-IsCounted (answers response) i size generated payload s e v =
      let less = count-remove_at i s.tasks (entering size generated payload) e in
      record {
        conserved = omega (arith, v.conserved, length-remove_at i s.tasks _ e);
        gauge = omega (arith, v.gauge, less);
      }
  after_body-IsCounted escapes i size generated payload s e v =
      let less = count-remove_at i s.tasks (entering size generated payload) e in
      record {
        conserved = omega (arith, v.conserved, length-remove_at i s.tasks _ e);
        gauge = omega (arith, v.gauge, less);
      }
  after_body-IsCounted enters i size generated payload s e v =
      let less = count-remove_at i s.tasks (entering size generated payload) e in
      record {
        conserved = omega (arith, v.conserved, length-remove_at i s.tasks _ e);
        gauge = omega (arith, v.gauge, less);
      }

  proceed_task-IsCounted :
      (i : ℕ) (o : Option Task) (s : HttpGateway)
      → get_elem? s.tasks i ≡ o
      → IsCounted n s
      → IsCounted n (proceed_task c i o s)
  unfolding proceed_task check_body
  proceed_task-IsCounted i none s e v = v
  proceed_task-IsCounted i (some (entering size generated payload)) s e v =
      after_body-IsCounted (check_body c size) i size generated payload s e v
  proceed_task-IsCounted i (some (handling g p)) s e v = v
  proceed_task-IsCounted i (some (getting x)) s e v = v
  proceed_task-IsCounted i (some (in_flight a k t0)) s e v = v
  proceed_task-IsCounted i (some (returning h)) s e v = v

  handle_task-IsCounted :
      (i t0 c0 c1 t1 : ℕ) (latest : Text) (o : Option Task) (s : HttpGateway)
      → get_elem? s.tasks i ≡ o
      → IsCounted n s
      → IsCounted n (handle_task c i t0 c0 c1 t1 latest o s)
  unfolding handle_task
  handle_task-IsCounted i t0 c0 c1 t1 latest none s e v = v
  handle_task-IsCounted i t0 c0 c1 t1 latest (some (entering size g p)) s e v = v
  handle_task-IsCounted i t0 c0 c1 t1 latest (some (handling g p)) s e v =
      moves-IsCounted i (handling g p) _ s _ v e refl (after_open-is_handed_on t0 t1 _) refl refl
        refl
  handle_task-IsCounted i t0 c0 c1 t1 latest (some (getting x)) s e v =
      moves-IsCounted i (getting x) (returning _) s _ v e refl refl refl refl refl
  handle_task-IsCounted i t0 c0 c1 t1 latest (some (in_flight a k t)) s e v = v
  handle_task-IsCounted i t0 c0 c1 t1 latest (some (returning h)) s e v = v

  reply_task-IsCounted :
      (i : ℕ) (reply : Reply) (c1 c2 t1 : ℕ) (o : Option Task) (s : HttpGateway)
      → get_elem? s.tasks i ≡ o
      → IsCounted n s
      → IsCounted n (reply_task c i reply c1 c2 t1 o s)
  unfolding reply_task
  reply_task-IsCounted i reply c1 c2 t1 none s e v = v
  reply_task-IsCounted i reply c1 c2 t1 (some (entering size g p)) s e v = v
  reply_task-IsCounted i reply c1 c2 t1 (some (handling g p)) s e v = v
  reply_task-IsCounted i reply c1 c2 t1 (some (getting x)) s e v = v
  reply_task-IsCounted i reply c1 c2 t1 (some (returning h)) s e v = v
  reply_task-IsCounted i reply c1 c2 t1 (some (in_flight a k t0)) s e v =
      moves-IsCounted i (in_flight a k t0) _ s _ v e refl (carry_on-is_handed_on a t0 t1 _) refl
        refl refl

  return_task-IsCounted :
      (i : ℕ) (o : Option Task) (s : HttpGateway)
      → get_elem? s.tasks i ≡ o
      → IsCounted n s
      → IsCounted n (return_task i o s)
  unfolding return_task leave
  return_task-IsCounted i none s e v = v
  return_task-IsCounted i (some (entering size g p)) s e v = v
  return_task-IsCounted i (some (handling g p)) s e v = v
  return_task-IsCounted i (some (getting x)) s e v = v
  return_task-IsCounted i (some (in_flight a k t0)) s e v = v
  return_task-IsCounted i (some (returning h)) s e v =
      let less = count-remove_at i s.tasks (returning h) e in
      record {
        conserved = omega (arith, v.conserved, length-remove_at i s.tasks _ e);
        gauge = omega (arith, v.gauge, less);
      }

  after_check-IsCounted :
      (x : Checked) (size : ℕ) (generated : Text) (payload : Option Json) (s : HttpGateway)
      → IsCounted n s
      → IsCounted (1 + n) (after_check x size generated payload s)
  after_check-IsCounted (answers response) size generated payload s v = record {
    conserved = omega (arith, v.conserved);
    gauge = v.gauge;
  }
  after_check-IsCounted escapes size generated payload s v = record {
    conserved = omega (arith, v.conserved);
    gauge = v.gauge;
  }
  after_check-IsCounted enters size generated payload s v = record {
    conserved = omega (arith, v.conserved);
    gauge = omega (arith, v.gauge);
  }

module _ (c : GatewayConfig) where
  again : (n : ℕ) (s : HttpGateway) → IsCounted n s → IsCounted (0 + n) s
  again n s v = record { conserved = omega (arith, v.conserved); gauge = v.gauge }

  http_step-IsCounted :
      (n : ℕ) (x : HttpStep) (s : HttpGateway)
      → IsCounted n s
      → IsCounted (incoming x + n) (http_step c x s)
  unfolding http_step
  http_step-IsCounted n (requests content_length body_length generated payload) s v =
      after_check-IsCounted c n _ body_length generated payload s v
  http_step-IsCounted n (gets e) s v = record {
    conserved = omega (arith, v.conserved);
    gauge = omega (arith, v.gauge);
  }
  http_step-IsCounted n (proceeds i) s v =
      again n _ (proceed_task-IsCounted c n i (get_elem? s.tasks i) s refl v)
  http_step-IsCounted n (handles i t0 c0 c1 t1 latest) s v =
      again n _ (handle_task-IsCounted c n i t0 c0 c1 t1 latest (get_elem? s.tasks i) s refl v)
  http_step-IsCounted n (replies i reply c1 c2 t1) s v =
      again n _ (reply_task-IsCounted c n i reply c1 c2 t1 (get_elem? s.tasks i) s refl v)
  http_step-IsCounted n (returns i) s v =
      again n _ (return_task-IsCounted c n i (get_elem? s.tasks i) s refl v)
  http_step-IsCounted n (writes wid x) s v = record {
    conserved = omega (arith, v.conserved);
    gauge = v.gauge;
  }
  http_step-IsCounted n opens s v = record {
    conserved = omega (arith, v.conserved);
    gauge = v.gauge;
  }
  http_step-IsCounted n shuts s v = record {
    conserved = omega (arith, v.conserved);
    gauge = v.gauge;
  }

  keeps-IsCounted :
      (n : ℕ) (xs : List HttpStep) (s : HttpGateway)
      → IsCounted n s
      → IsCounted (all_incoming xs + n) (http_run c xs s)
  unfolding http_run
  keeps-IsCounted n [] s v = record { conserved = omega (arith, v.conserved); gauge = v.gauge }
  keeps-IsCounted n (x ∷ xs) s v =
      let h = keeps-IsCounted (incoming x + n) xs (http_step c x s) (http_step-IsCounted n x s v) in
      record { conserved = omega (arith, h.conserved); gauge = h.gauge }

  -- In any run of the HTTP process, the requests that came in are as many as those that are still under
  -- way and those that ended together, with a response or an exception; and the gauge of active requests
  -- shows exactly those that the middleware has handed on and not answered yet, on whichever endpoint.
  pub http_run-IsCounted :
      (xs : List HttpStep) → IsCounted (all_incoming xs) (http_run c xs (http_boot c))
  http_run-IsCounted xs =
      let h = keeps-IsCounted 0 xs (http_boot c) (record { conserved = refl; gauge = refl }) in
      record { conserved = omega (arith, h.conserved); gauge = h.gauge }
