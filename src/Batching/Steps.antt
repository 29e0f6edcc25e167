-- ===== src/Batching/Steps.antt =====
-- The batcher as steps of its goroutines (pkg/utils/batcher/batcher.go). A request is its number, in
-- the order of the calls of Enqueue, and its key; the payloads are left out.
use karpenter_provider_azure.Prelude.{
  ℕ, ◌-◌, ◌<◌, suc, Bool, true, false, not, ◌||◌, List, [], ◌∷◌, ◌++◌, Text, teq, leb, length, any,
  if◌then◌else◌, ◌≡◌,
}

pub record BatchedRequest : Type 0 where
  pub number : ℕ
  pub key : Text

pub record Batch : Type 0 where
  pub key : Text
  pub requests : List BatchedRequest

-- Where the background loop is: at its select, in waitForIdle, past it, or returned.
pub data Phase : Type 0 where
  listening waiting executing stopped : Phase

-- The batcher, with what its other goroutines hold: `signals` callers have put their request into its
-- batch and not yet signalled, the dispatched batches are with the executor, and a request is answered
-- once there is a response in its channel, and abandoned once the executor returns without one.
pub record Batcher : Type 0 where
  pub pending_batches : List Batch
  pub trigger : Bool
  pub phase : Phase
  pub signals : ℕ
  pub dispatched : List Batch
  pub answered : List BatchedRequest
  pub abandoned : List BatchedRequest
  pub enqueued : ℕ

unfoldable pub new_batcher : Batcher
new_batcher = record {
  pending_batches = [];
  trigger = false;
  phase = listening;
  signals = 0;
  dispatched = [];
  answered = [];
  abandoned = [];
  enqueued = 0;
}

-- A batch for the key is made where there is none.
unfoldable pub add_request : BatchedRequest → List Batch → List Batch
add_request r [] = record { key = r.key; requests = r ∷ [] } ∷ []
add_request r (b ∷ bs) =
    let rest = add_request r bs in
    if teq b.key r.key then record b { requests = b.requests ++ r ∷ [] } ∷ bs else b ∷ rest

-- `Enqueue` of a payload whose key is determined, up to the unlock; on an error it changes nothing.
unfoldable pub enqueue : Batcher → Text → Batcher
unfolding add_request
enqueue s key = record s {
  pending_batches = add_request (record { number = s.enqueued; key = key }) s.pending_batches;
  signals = suc s.signals;
  enqueued = suc s.enqueued;
}

-- Its send to the trigger, whose buffer holds one signal.
unfoldable pub send_signal : Batcher → Batcher
send_signal s = record s { trigger = true; signals = s.signals - 1 }

unfoldable pub any_batch_full : ℕ → List Batch → Bool
any_batch_full max_batch_size bs = any (λ b. leb max_batch_size (length b.requests)) bs

-- A receive from the trigger, at the select of the loop or in waitForIdle, and the test after it.
unfoldable pub receive : ℕ → Batcher → Batcher
unfolding any_batch_full
receive max_batch_size s = record s {
  trigger = false;
  phase = if any_batch_full max_batch_size s.pending_batches then executing else waiting;
}

-- `executeBatches`
unfoldable pub execute_batches : Batcher → Batcher
execute_batches s = record s {
  pending_batches = [];
  phase = listening;
  dispatched = s.dispatched ++ s.pending_batches;
}

unfoldable pub keep_requests : (BatchedRequest → Bool) → List BatchedRequest → List BatchedRequest
keep_requests p [] = []
keep_requests p (r ∷ rs) = let rest = keep_requests p rs in if p r then r ∷ rest else rest

-- The executor of a batch is done: it has responded to some requests, and where it panicked the rest
-- get the error.
unfoldable pub finish_batch :
    Batcher → List Batch → Batch → List Batch → (BatchedRequest → Bool) → Bool → Batcher
unfolding keep_requests
finish_batch s before b after responded panicked = record s {
  dispatched = before ++ after;
  answered = s.answered ++ keep_requests (λ r. responded r || panicked) b.requests;
  abandoned = s.abandoned ++ keep_requests (λ r. not (responded r || panicked)) b.requests;
}

unfoldable pub requests_of : List Batch → List BatchedRequest
requests_of [] = []
requests_of (b ∷ bs) = b.requests ++ requests_of bs

-- The loop returns, and `drain` answers what is pending with an error.
unfoldable pub drain : Batcher → Batcher
unfolding requests_of
drain s = record s {
  pending_batches = [];
  phase = stopped;
  answered = s.answered ++ requests_of s.pending_batches;
}

abbrev pub is_running : Phase → Bool
is_running stopped = false
is_running _ = true

module _ (max_batch_size : ℕ) where
  pub data Step : Batcher → Batcher → Type 0 where
    enqueues : (s : Batcher) (key : Text) → Step s (enqueue s key)
    signals : (s : Batcher) → 0 < s.signals → Step s (send_signal s)
    wakes :
        (s : Batcher) → s.phase ≡ listening → s.trigger ≡ true → Step s (receive max_batch_size s)
    hears : (s : Batcher) → s.phase ≡ waiting → s.trigger ≡ true → Step s (receive max_batch_size s)
    -- one of the two timers
    times_out : (s : Batcher) → s.phase ≡ waiting → Step s (record s { phase = executing })
    executes : (s : Batcher) → s.phase ≡ executing → Step s (execute_batches s)
    finishes :
        (s : Batcher) (before : List Batch) (b : Batch) (after : List Batch)
        (responded : BatchedRequest → Bool) (panicked : Bool)
        → s.dispatched ≡ before ++ b ∷ after
        → Step s (finish_batch s before b after responded panicked)
    -- the context is canceled
    stops : (s : Batcher) → is_running s.phase ≡ true → Step s (drain s)

  -- A run of steps.
  pub data Run : Batcher → Batcher → Type 0 where
    done : {s : Batcher} → Run s s
    step : {s t u : Batcher} → Step s t → Run t u → Run s u
