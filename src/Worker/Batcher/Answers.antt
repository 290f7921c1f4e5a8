-- ===== src/Worker/Batcher/Answers.antt =====
-- What a batch that a run has formed is answered with.
use distributed_model_server.Prelude.{ℕ, ◌≡◌, subst, Text, List, map}
use distributed_model_server.Protocol.{Double, Millis}
use distributed_model_server.Worker.Batcher.Defs.{
  Settings, Work, top, executing, read, go_to, new_batcher,
}
use distributed_model_server.Worker.Batcher.Loop.{output, infer}
use distributed_model_server.Worker.Batcher.Run.{Event, run}
use distributed_model_server.Worker.Batcher.Slices.{deliver_each, infer-deliver_each}
use distributed_model_server.Worker.Batcher.Rounds.{PhaseFits}
use distributed_model_server.Worker.Batcher.Limits.{run-new_batcher-IsWithin}

module _ (s : Settings) (clock : ℕ → ℕ) (f : Text → Text × Double) where
  -- In any run of a new batcher, if the model answers each input by itself, the batch that is in
  -- execution is answered as if each of its requests had been given to the model alone: a request gets
  -- the answers to its own inputs, in their order.
  pub run-deliver_each :
      (xs : List Event) (w : Work) (start : ℕ) (prep inf post : Millis)
      → (run s clock xs new_batcher).phase ≡ executing w start
      → let b = run s clock xs new_batcher in
        let (finish, b1) = read clock b in
        infer clock (output (map f w.flattened_inputs) prep inf post) b
        ≡ go_to top (deliver_each clock start finish (prep, inf, post) f w.valid_batch b1)
  run-deliver_each xs w start prep inf post e =
      infer-deliver_each clock f w start prep inf post (run s clock xs new_batcher)
        (subst (PhaseFits s) e (run-new_batcher-IsWithin s clock xs).phase_fits).0 e
