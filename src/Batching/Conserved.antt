-- ===== src/Batching/Conserved.antt =====
-- No request is lost and none is answered twice (pkg/utils/batcher/batcher.go).
use karpenter_provider_azure.Prelude.{
  ℕ, ◌+◌, Bool, not, ◌||◌, List, [], ◌∷◌, ◌++◌, ltb, ◌==◌, if◌then◌else◌, ◌≡◌, refl, ap, arith,
}
use karpenter_provider_azure.Batching.Steps.{
  BatchedRequest, Batch, Batcher, new_batcher, add_request, enqueue, send_signal, receive,
  execute_batches, keep_requests, finish_batch, requests_of, drain, Step, enqueues, signals, wakes,
  hears, times_out, executes, finishes, stops, Run, done, step,
}

-- How often the request with a number stands in a list, and in batches.
unfoldable pub count : ℕ → List BatchedRequest → ℕ
count n [] = 0
count n (r ∷ rs) = (if r.number == n then 1 else 0) + count n rs

unfoldable pub count_in : ℕ → List Batch → ℕ
unfolding count
count_in n [] = 0
count_in n (b ∷ bs) = count n b.requests + count_in n bs

-- Everywhere that a request can be.
unfoldable pub places : ℕ → Batcher → ℕ
unfolding count count_in
places n s =
    count_in n s.pending_batches
    + count_in n s.dispatched
    + count n s.answered
    + count n s.abandoned

count-append : (n : ℕ) (l r : List BatchedRequest) → count n (l ++ r) ≡ count n l + count n r
unfolding count
count-append n [] r = omega arith
count-append n (x ∷ l) r = omega (arith, count-append n l r)

count_in-append : (n : ℕ) (l r : List Batch) → count_in n (l ++ r) ≡ count_in n l + count_in n r
unfolding count_in
count_in-append n [] r = omega arith
count_in-append n (x ∷ l) r = omega (arith, count_in-append n l r)

count_in_nil : (n : ℕ) → count_in n [] ≡ 0
unfolding count_in
count_in_nil n = refl

count_in-cons :
    (n : ℕ) (b : Batch) (bs : List Batch) → count_in n (b ∷ bs) ≡ count n b.requests + count_in n bs
unfolding count_in
count_in-cons n b bs = refl

count-add_request :
    (n : ℕ) (r : BatchedRequest) (bs : List Batch)
    → count_in n (add_request r bs) ≡ (if r.number == n then 1 else 0) + count_in n bs
unfolding count_in add_request count
count-add_request n r [] = omega arith
count-add_request n r (b ∷ bs) =
    ground (arith, count-append n b.requests (r ∷ []), count-add_request n r bs)

count-requests_of : (n : ℕ) (bs : List Batch) → count n (requests_of bs) ≡ count_in n bs
unfolding count_in requests_of
count-requests_of n [] = unfold count in refl
count-requests_of n (b ∷ bs) =
    omega (arith, count-append n b.requests (requests_of bs), count-requests_of n bs)

count-split :
    (n : ℕ) (p : BatchedRequest → Bool) (rs : List BatchedRequest)
    → count n (keep_requests p rs) + count n (keep_requests (λ r. not (p r)) rs) ≡ count n rs
unfolding count keep_requests
count-split n p [] = refl
count-split n p (r ∷ rs) = ground (arith, count-split n p rs)

-- Each request of Enqueue stands at one place, and no other stands anywhere.
abbrev pub IsConserved : Batcher → Type 0
IsConserved s = (n : ℕ) → places n s ≡ (if ltb n s.enqueued then 1 else 0)

new_batcher-IsConserved : IsConserved new_batcher
unfolding places new_batcher count count_in
new_batcher-IsConserved n = ground arith

module _ (max_batch_size : ℕ) where
  Step-IsConserved : {s t : Batcher} → Step max_batch_size s t → IsConserved s → IsConserved t
  unfolding places
  Step-IsConserved (enqueues s key) h n =
      unfold enqueue in
      ground (
        arith,
        h n,
        count-add_request n (record { number = s.enqueued; key = key }) s.pending_batches,
      )
  Step-IsConserved (signals s p) h n = unfold send_signal in h n
  Step-IsConserved (wakes s p q) h n = unfold receive in h n
  Step-IsConserved (hears s p q) h n = unfold receive in h n
  Step-IsConserved (times_out s p) h n = h n
  Step-IsConserved (executes s p) h n =
      unfold execute_batches in
      ground (arith, h n, count_in-append n s.dispatched s.pending_batches, count_in_nil n)
  Step-IsConserved (finishes s before b after responded panicked e) h n =
      unfold finish_batch in
      omega (
        arith,
        h n,
        ap (count_in n) e,
        count_in-append n before (b ∷ after),
        count_in-cons n b after,
        count_in-append n before after,
        count-append n s.answered (keep_requests (λ r. responded r || panicked) b.requests),
        count-append n s.abandoned (keep_requests (λ r. not (responded r || panicked)) b.requests),
        count-split n (λ r. responded r || panicked) b.requests,
      )
  Step-IsConserved (stops s p) h n =
      unfold drain in
      omega (
        arith,
        h n,
        count_in_nil n,
        count-append n s.answered (requests_of s.pending_batches),
        count-requests_of n s.pending_batches,
      )

  Run-IsConserved : {s t : Batcher} → Run max_batch_size s t → IsConserved s → IsConserved t
  Run-IsConserved done h = h
  Run-IsConserved (step a r) h = Run-IsConserved r (Step-IsConserved a h)

  -- After any run of a new batcher, each request of an Enqueue stands exactly once among the
  -- pending and the dispatched batches, the answered requests and those that the executor left
  -- without a response, and no other request stands there.
  pub Run-new_batcher-places :
      {s : Batcher}
      → Run max_batch_size new_batcher s
      → (n : ℕ) → places n s ≡ (if ltb n s.enqueued then 1 else 0)
  Run-new_batcher-places r n = Run-IsConserved r new_batcher-IsConserved n
