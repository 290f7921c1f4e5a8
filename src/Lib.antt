-- ===== src/Lib.antt =====
-- A model of the distributed model server: a gateway that takes predictions over HTTP and sends each of
-- them to one of several workers over gRPC, and the worker, which batches the predictions for its model.
--
-- Which file is about which part:
--   Errors            shared/errors.py, the errors with their codes and HTTP statuses
--   Logging           shared/logging.py, the fields of a log line
--   Protocol          proto/inference/v1/inference.proto, the messages between the two processes
--   Gateway/Config    gateway/config.py, the settings and the list of workers
--   Gateway/Events    gateway/metrics.py and the log lines, as events of a trace
--   Gateway/Registry  gateway/registry.py: `probe` is one round of `_poll_worker_health`, `mark_unhealthy`
--                     the body of `mark_unhealthy_immediately`; its children are about the health of one
--                     worker over any sequence of writes
--   Gateway/State     the objects that the requests of one gateway share, with `start` and `stop`
--   Gateway/Scheduler gateway/scheduler.py: `select_worker`, made of `choose` and `reserve`, and
--                     `release_worker`
--   Gateway/Client    gateway/client.py: `predict` is `begin`, up to the await of the RPC, and `resume`,
--                     from its end to the next await or the end of the prediction
--   Gateway/System    the event loop of the gateway: any sequence of such steps
--   Gateway/App       gateway/app.py: `validate` holds the checks of the endpoint `predict`, `predict_begin`
--                     and `predict_end` are that endpoint around the await of the client, `middleware` is
--                     `body_limit_and_metrics_middleware`
--   Gateway/Http      gateway/app.py as a process: the middleware, the endpoints and the client over the life
--                     of many requests, between the two halves of `lifespan`, cut at the awaits of the
--                     body, of `call_next` and of the RPC
--   Worker/Config     worker/config.py
--   Worker/Batcher    worker/batcher.py: `enqueue`, `close`, and the task of `_run_loop` and
--                     `_process_batch`, whose awaits are the phases `top`, `collecting` and `executing`;
--                     `advance`, `time_out` and `infer` are its steps
--                     Worker/Batcher/Contract says what it promises its callers, in a state machine of its own
--   Worker/Model      worker/model.py: FakeModel, and ONNXModel over a parameter for its libraries
--   Worker/Server     worker/server.py: `begin_predict` and `finish_predict` are `Predict` around the await
--                     of its future, `get_status` is `GetStatus`, and `server_started`, `sig_handler` and
--                     `shut_down` are the writes of `serve` to the state of the worker
--                     Worker/Server/Process runs any number of calls beside the task of the batcher
--   Wire              the two processes together: the handlers of the worker under the client and the
--                     poller of the gateway
--                     Wire/Served follows a prediction from one process to the other and back
--   Scripts/Benchmark scripts/benchmark.py: `start_task` and `finish_request` are the parts of `worker_loop`
--                     between its awaits, `observe` is its reading of a reply
--   Scripts/Corpus    scripts/generate_corpus.py
--   Scripts/Summary   scripts/summarize_results.py
--   Scripts/Resources scripts/sample_resources.py
--   Scripts/Download  scripts/download_model.py: `install` is `download_file` from the download on, and
--                     `download_all` is `main`
--   Scripts/Failure   scripts/failure_scenario.py: `scenario` is `main`
-- The modules called Tests, and those below them, hold runs at concrete inputs, over the settings of
-- Gateway/Samples and Worker/Samples. Where a theorem speaks of a model that answers each input by itself,
-- this is a hypothesis about the outputs that the inferences of the run end with.
--
-- Conventions. A Python text is the list of its code points. Times are natural numbers of microseconds, so
-- a difference that would be negative is written as a comparison, or is clamped where the code clamps it.
-- A duration that the gateway or a worker reports as a float is an exact number here; a score is the 64 bits
-- of its double, and so is a float in Scripts/Summary. Each reading of a clock is an argument of the step
-- that reads it, or the next value of a sequence of readings; nothing is assumed of the clock. A coroutine is
-- cut at the awaits at which other tasks can run; between two of them it is one step. An error is a value, and
-- a state that was written before an error stays written. Recursion is structural nearly everywhere, and runs
-- are lists of steps of any length; the fuel of `str` on a number is the number and one, and that of the loop over the
-- chunks of a file is the number of its bytes, each more than the rounds.
--
-- Not modelled: gRPC, FastAPI, asyncio, the JSON parser, the tokenizer and ONNX Runtime, which are arguments of
-- the steps (the reply of a call, the parsed body, the probabilities); the set-up of servers, loggers and
-- metrics; the histogram of durations; the command lines and the files of the scripts; float arithmetic, hashing
-- and random numbers, which are parameters of the scripts; the generated stubs, the tests and the packaging.
pub mod Prelude
pub mod Errors
pub mod Logging
pub mod Protocol
pub mod Gateway
pub mod Worker
pub mod Wire
pub mod Scripts
