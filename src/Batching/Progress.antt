-- ===== src/Batching/Progress.antt =====
-- No wakeup is lost: what is pending can always be dispatched (pkg/utils/batcher/batcher.go).
use karpenter_provider_azure.Prelude.{
  ℕ, ◌<◌, Bool, true, false, not, ◌||◌, List, [], ◌∷◌, ◌++◌, ltb, if◌then◌else◌, ◌≡◌, refl, sym, ap,
  ◌∙◌, Bool-cases, inl, inr, arith,
}
use karpenter_provider_azure.Batching.Steps.{
  Batch, Phase, listening, waiting, executing, stopped, Batcher, new_batcher, any_batch_full,
  enqueue, send_signal, receive, execute_batches, finish_batch, drain, is_running, Step, enqueues,
  signals, wakes, hears, times_out, executes, finishes, stops, Run, done, step,
}

abbrev is_listening : Phase → Bool
is_listening listening = true
is_listening _ = false

abbrev no_batches : List Batch → Bool
no_batches [] = true
no_batches (b ∷ bs) = false

-- A loop at its select has no pending batch, or a signal, or a caller about to send one.
abbrev is_awake : Batcher → Bool
is_awake s =
    not (is_listening s.phase) || (no_batches s.pending_batches || (s.trigger || ltb 0 s.signals))

-- What was pending is with the executor.
abbrev pub IsDispatched : Batcher → Batcher → Type 0
IsDispatched s t = (t.pending_batches ≡ []) × (t.dispatched ≡ s.dispatched ++ s.pending_batches)

append_nil : (bs : List Batch) → bs ≡ bs ++ []
append_nil [] = refl
append_nil (b ∷ bs) = ap (◌∷◌ b) (append_nil bs)

none_pending : (bs : List Batch) → no_batches bs ≡ true → bs ≡ []
none_pending [] h = refl
none_pending (b ∷ bs) h = cc

phase_of_full : (b : Bool) → not (is_listening (if b then executing else waiting)) ≡ true
phase_of_full true = refl
phase_of_full false = refl

module _ (max_batch_size : ℕ) where
  Step-awake : {s t : Batcher} → Step max_batch_size s t → is_awake s ≡ true → is_awake t ≡ true
  Step-awake (enqueues s key) h = unfold enqueue in ground arith
  Step-awake (signals s p) h = unfold send_signal in ground arith
  Step-awake (wakes s p q) h =
      unfold receive in rw (phase_of_full (any_batch_full max_batch_size s.pending_batches)) refl
  Step-awake (hears s p q) h =
      unfold receive in rw (phase_of_full (any_batch_full max_batch_size s.pending_batches)) refl
  Step-awake (times_out s p) h = refl
  Step-awake (executes s p) h = unfold execute_batches in refl
  Step-awake (finishes s before b after responded panicked e) h = unfold finish_batch in h
  Step-awake (stops s p) h = unfold drain in refl

  Run-awake : {s t : Batcher} → Run max_batch_size s t → is_awake s ≡ true → is_awake t ≡ true
  Run-awake done h = h
  Run-awake (step a r) h = Run-awake r (Step-awake a h)

  -- A run that ends with the pending batches dispatched.
  abbrev pub CanDispatch : Batcher → Type 0
  CanDispatch s = (t : Batcher) × Run max_batch_size s t × IsDispatched s t

  from_executing : (s : Batcher) → s.phase ≡ executing → CanDispatch s
  from_executing s p = (
    execute_batches s,
    step (executes s p) done,
    (unfold execute_batches in refl, unfold execute_batches in refl),
  )

  from_waiting : (s : Batcher) → s.phase ≡ waiting → CanDispatch s
  from_waiting s p =
      let (t, r, d) = from_executing (record s { phase = executing }) refl in
      (t, step (times_out s p) r, d)

  from_listening : (s : Batcher) → s.phase ≡ listening → s.trigger ≡ true → CanDispatch s
  from_listening s p q = elim (Bool-cases (any_batch_full max_batch_size s.pending_batches)) [
    | inl e ↦
        let (t, r, d) = from_executing (receive max_batch_size s) (unfold receive in rw e refl) in
        (t, step (wakes s p q) r, unfold receive in d)
    | inr e ↦
        let (t, r, d) = from_waiting (receive max_batch_size s) (unfold receive in rw e refl) in
        (t, step (wakes s p q) r, unfold receive in d)
  ]

  from_signals : (s : Batcher) → s.phase ≡ listening → 0 < s.signals → CanDispatch s
  from_signals s p q =
      let (t, r, d) =
        from_listening (send_signal s) (unfold send_signal in p) (unfold send_signal in refl) in
      (t, step (signals s q) r, unfold send_signal in d)

  must_signal :
      (s : Batcher)
      → s.phase ≡ listening
      → no_batches s.pending_batches ≡ false
      → s.trigger ≡ false
      → is_awake s ≡ true
      → 0 < s.signals
  must_signal s p e q awake = signalled (rw (ap is_listening p, e, q) at awake)
    where
      signalled : ltb 0 s.signals ≡ true → 0 < s.signals
      signalled h = ground arith

  by_phase :
      (s : Batcher) (phase : Phase)
      → s.phase ≡ phase
      → is_running phase ≡ true
      → is_awake s ≡ true
      → CanDispatch s
  by_phase s listening p h awake = elim (Bool-cases (no_batches s.pending_batches)) [
    | inl e ↦
        let none = none_pending s.pending_batches e in
        (s, done, (none, append_nil s.dispatched ∙ ap (◌++◌ s.dispatched) (sym none)))
    | inr e ↦ elim (Bool-cases s.trigger) [
      | inl q ↦ from_listening s p q
      | inr q ↦ from_signals s p (must_signal s p e q awake)
    ]
  ]
  by_phase s waiting p h awake = from_waiting s p
  by_phase s executing p h awake = from_executing s p
  by_phase s stopped p h awake = cc h

  -- After any run of a new batcher whose context is not canceled, there is a further run that hands
  -- every pending batch to the executor and leaves none pending: no wakeup is lost.
  pub Run-new_batcher-CanDispatch :
      {s : Batcher} → Run max_batch_size new_batcher s → is_running s.phase ≡ true → CanDispatch s
  Run-new_batcher-CanDispatch {s} r h =
      by_phase s s.phase refl h (Run-awake r (unfold new_batcher in refl))
