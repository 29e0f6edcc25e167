-- ===== src/Quota/Sums.antt =====
-- The signed sum of the adjustments of a quota, and the running totals beside it.
use karpenter_provider_azure.Prelude.{
  ℕ, none, some, [], ◌∷◌, Text, teq, teq_iff, leb, ℤ, pos, ◌+ℤ◌, ◌-ℤ◌, i64, Map, lookup, insert,
  remove, lookup-insert, Distinct, if◌then◌else◌, i64-add, i64-sub, i64_of_pos, int_laws, arith,
  ◌≡◌, refl, sym, ap, ◌∙◌, Bool-cases, inl, inr,
}
use karpenter_provider_azure.Quota.State.{Adjustment, get_at, add_at, sub_at}
use karpenter_provider_azure.Quota.Ops.{surviving, surviving_by_quota_name}

-- The sum of the adjustments that count against the quota.
unfoldable pub sum_for : Text → Map Adjustment → ℤ
sum_for n [] = pos 0
sum_for n ((k, a) ∷ m) =
    let rest = sum_for n m in if teq a.quota_name n then a.vcpus +ℤ rest else rest

remove_absent : {V : Type 0} (k : Text) (m : Map V) → lookup k m ≡ none → remove k m ≡ m
unfolding lookup remove
remove_absent k [] h = refl
remove_absent k ((j, v) ∷ m) h = ground (arith, remove_absent k m)

pub sum_for-insert :
    (n k : Text) (a : Adjustment) (m : Map Adjustment)
    → lookup k m ≡ none
    → sum_for n (insert k a m)
      ≡ (if teq a.quota_name n then a.vcpus +ℤ sum_for n m else sum_for n m)
unfolding sum_for insert
sum_for-insert n k a m h = rw (remove_absent k m h)

+ℤ_left_comm : (a b c : ℤ) → a +ℤ (b +ℤ c) ≡ b +ℤ (a +ℤ c)
+ℤ_left_comm a b c = omega int_laws

-- Taking an adjustment away takes its share away.
pub sum_for-remove :
    (n k : Text) (a : Adjustment) (m : Map Adjustment)
    → Distinct m
    → lookup k m ≡ some a
    → sum_for n m
      ≡ (if teq a.quota_name n then a.vcpus +ℤ sum_for n (remove k m) else sum_for n (remove k m))
unfolding sum_for remove lookup
sum_for-remove n k a [] d h = cc
sum_for-remove n k a ((j, b) ∷ m) d h = elim (Bool-cases (teq j k)) [
  | inl p ↦ ground (arith, teq_iff j k, remove_absent k m)
  | inr p ↦
      ground (arith, sum_for-remove n k a m, +ℤ_left_comm b.vcpus a.vcpus (sum_for n (remove k m)))
]

pub get_at-add_at :
    (m : Map ℤ) (k : Text) (v : ℤ) (n : Text)
    → get_at (add_at m k v) n ≡ (if teq k n then i64 (get_at m k +ℤ v) else get_at m n)
unfolding get_at add_at
get_at-add_at m k v n = ground (arith, lookup-insert k n (i64 (get_at m k +ℤ v)) m)

pub get_at-sub_at :
    (m : Map ℤ) (k : Text) (v : ℤ) (n : Text)
    → get_at (sub_at m k v) n ≡ (if teq k n then i64 (get_at m k -ℤ v) else get_at m n)
unfolding get_at sub_at
get_at-sub_at m k v n = ground (arith, lookup-insert k n (i64 (get_at m k -ℤ v)) m)

-- The totals agree with the sums, modulo the wrap-around of int64.
abbrev pub Balanced : Map ℤ → Map Adjustment → Type 0
Balanced totals m = (n : Text) → get_at totals n ≡ i64 (sum_for n m)

+ℤ_comm : (a b : ℤ) → a +ℤ b ≡ b +ℤ a
+ℤ_comm a b = omega int_laws

i64-add_comm : (s v : ℤ) → i64 (i64 s +ℤ v) ≡ i64 (v +ℤ s)
i64-add_comm s v = i64-add s v ∙ ap i64 (+ℤ_comm s v)

+ℤ-cancel : (v s : ℤ) → v +ℤ s -ℤ v ≡ s
+ℤ-cancel v s = omega int_laws

i64-sub_cancel : (v s : ℤ) → i64 (i64 (v +ℤ s) -ℤ v) ≡ i64 s
i64-sub_cancel v s = i64-sub (v +ℤ s) v ∙ ap i64 (+ℤ-cancel v s)

sub-neg : (s v : ℤ) → s -ℤ v ≡ pos 0 -ℤ v +ℤ s
sub-neg s v = omega int_laws

i64-sub_neg : (s v : ℤ) → i64 (i64 s -ℤ v) ≡ i64 (i64 (pos 0 -ℤ v) +ℤ s)
i64-sub_neg s v = i64-sub s v ∙ ap i64 (sub-neg s v) ∙ sym (i64-add (pos 0 -ℤ v) s)

-- A new adjustment, added to its quota's total.
pub Balanced-add :
    (totals : Map ℤ) (m : Map Adjustment) (k : Text) (a : Adjustment)
    → lookup k m ≡ none
    → Balanced totals m
    → Balanced (add_at totals a.quota_name a.vcpus) (insert k a m)
Balanced-add totals m k a h b = λ n.
    rw (get_at-add_at, sum_for-insert n k a m h)
      (ground (arith, teq_iff a.quota_name n, b n, i64-add_comm (sum_for a.quota_name m) a.vcpus))

-- The deletion of an instance, subtracted from its quota's total.
pub Balanced-sub :
    (totals : Map ℤ) (m : Map Adjustment) (k q : Text) (v : ℤ) (s : ℕ)
    → lookup k m ≡ none
    → Balanced totals m
    → Balanced
        (sub_at totals q v)
        (insert k (record { quota_name = q; vcpus = i64 (pos 0 -ℤ v); seq_num = s }) m)
Balanced-sub totals m k q v s h b = λ n.
    rw
      (
        get_at-sub_at,
        sum_for-insert n k (record { quota_name = q; vcpus = i64 (pos 0 -ℤ v); seq_num = s }) m h,
      )
      (ground (arith, teq_iff q n, b n, i64-sub_neg (sum_for q m) v))

-- An adjustment taken away, with its share.
pub Balanced-remove :
    (totals : Map ℤ) (m : Map Adjustment) (k : Text) (a : Adjustment)
    → Distinct m
    → lookup k m ≡ some a
    → Balanced totals m
    → Balanced (sub_at totals a.quota_name a.vcpus) (remove k m)
Balanced-remove totals m k a d h b = λ n. rw get_at-sub_at (
    ground (
      arith,
      teq_iff a.quota_name n,
      b n,
      sum_for-remove n k a m d h,
      i64-sub_cancel a.vcpus (sum_for n (remove k m)),
    ))

-- The rebuilt totals of a refresh.
pub Balanced-surviving :
    (w : ℕ) (m : Map Adjustment) → Balanced (surviving_by_quota_name w m) (surviving w m)
unfolding surviving surviving_by_quota_name sum_for
Balanced-surviving w [] = λ n. unfold get_at lookup in sym (i64_of_pos 0 (omega arith))
Balanced-surviving w ((k, a) ∷ m) = λ n. elim (Bool-cases (leb a.seq_num w)) [
  | inl p ↦ rw (p, surviving, surviving_by_quota_name) (Balanced-surviving w m n)
  | inr p ↦
      rw (p, surviving, surviving_by_quota_name, get_at-add_at)
        (ground (
          arith,
          teq_iff a.quota_name n,
          Balanced-surviving w m n,
          Balanced-surviving w m a.quota_name,
          i64-add_comm (sum_for a.quota_name (surviving w m)) a.vcpus,
        ))
]

lookup-surviving :
    (w : ℕ) (m : Map Adjustment) (k : Text) → lookup k m ≡ none → lookup k (surviving w m) ≡ none
unfolding surviving lookup
lookup-surviving w [] k h = refl
lookup-surviving w ((j, a) ∷ m) k h = ground (arith, lookup-surviving w m k)

pub surviving-Distinct : (w : ℕ) (m : Map Adjustment) → Distinct m → Distinct (surviving w m)
unfolding surviving
surviving-Distinct w [] d = tt
surviving-Distinct w ((k, a) ∷ m) d = ground (arith, lookup-surviving w m k, surviving-Distinct w m)
