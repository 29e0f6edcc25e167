-- ===== src/Batching/Tests.antt =====
-- A concrete run of the batcher.
use karpenter_provider_azure.Prelude.{ℕ, Text, codes, ltb, ◌≡◌, refl, if◌then◌else◌, arith}
use karpenter_provider_azure.Batching.Steps.{
  Batcher, new_batcher, enqueue, send_signal, execute_batches, enqueues, signals, Run, done, step,
}
use karpenter_provider_azure.Batching.Conserved.{places, Run-new_batcher-places}
use karpenter_provider_azure.Batching.Progress.{CanDispatch, Run-new_batcher-CanDispatch}

abbrev max_batch_size : ℕ
max_batch_size = 5

abbrev key : Text
key = codes "k"

-- Two requests of one key, and the signal of the first.
abbrev queued : Batcher
queued = send_signal (enqueue (enqueue new_batcher key) key)

to_queued : Run max_batch_size new_batcher queued
unfolding enqueue send_signal new_batcher
to_queued = step (enqueues new_batcher key) (
    step (enqueues (enqueue new_batcher key) key)
      (step (signals (enqueue (enqueue new_batcher key) key) (omega arith)) done))

one_batch : (execute_batches queued).dispatched ≡ queued.pending_batches
unfolding execute_batches enqueue send_signal new_batcher
one_batch = refl

Run-new_batcher-places_example : places 1 queued ≡ (if ltb 1 queued.enqueued then 1 else 0)
Run-new_batcher-places_example = Run-new_batcher-places max_batch_size to_queued 1

Run-new_batcher-CanDispatch_example : CanDispatch max_batch_size queued
unfolding enqueue send_signal new_batcher
Run-new_batcher-CanDispatch_example = Run-new_batcher-CanDispatch max_batch_size to_queued refl
