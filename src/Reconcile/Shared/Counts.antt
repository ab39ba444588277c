-- ===== src/Reconcile/Shared/Counts.antt =====
-- Counting the calls of one sort in the log: creations, deletions and patches of finalizers.
use scaleway_operator.Runtime.Http.{Method}
use scaleway_operator.Prelude.{
  Bool, Bool-cases, List, arith, false, inl, inr, true, ℕ, ◌==◌, ◌≡◌, ◌≢◌,
}
use scaleway_operator.Reconcile.Shared.Keeps.{FinalizersKeep, StatusKeeps}
use scaleway_operator.Runtime.Keeps.{count_events}
use scaleway_operator.Runtime.World.{Event, patched_finalizers, sent}
use scaleway_operator.Scaleway.Keeps.{Allows}

-- The log holds a number of such calls.
abbrev pub Counts : (Event → Bool) → ℕ → List Event → Type 0
Counts q n log = count_events q log ≡ n

-- A POST to Scaleway: every creation is one.
abbrev pub is_post : Event → Bool
is_post (sent r s) = elim r.method [ Method.post ↦ true | _ ↦ false ]
is_post _ = false

-- Any request to Scaleway.
abbrev pub is_sent : Event → Bool
is_sent (sent r s) = true
is_sent _ = false

abbrev pub is_finalizer_patch : Event → Bool
is_finalizer_patch (patched_finalizers kind ns name fs b) = true
is_finalizer_patch _ = false

module _ (n : ℕ) where
  pub posts_unread : StatusKeeps (Counts is_post n)
  posts_unread = record {
    reads = record {
      role = λ ns log h. h;
      annotations = λ ns log h. h;
      secret = λ ns name log h. h;
      live = λ kind ns name log h. h;
    };
    status = λ ns name st b log h. h;
    publication = λ ns name drift log h. h;
  }

  pub requests_unread : StatusKeeps (Counts is_sent n)
  requests_unread = record {
    reads = record {
      role = λ ns log h. h;
      annotations = λ ns log h. h;
      secret = λ ns name log h. h;
      live = λ kind ns name log h. h;
    };
    status = λ ns name st b log h. h;
    publication = λ ns name drift log h. h;
  }

  pub patches_unread : StatusKeeps (Counts is_finalizer_patch n)
  patches_unread = record {
    reads = record {
      role = λ ns log h. h;
      annotations = λ ns log h. h;
      secret = λ ns name log h. h;
      live = λ kind ns name log h. h;
    };
    status = λ ns name st b log h. h;
    publication = λ ns name drift log h. h;
  }

  pub posts_finalizers : FinalizersKeep (Counts is_post n)
  posts_finalizers kind ns name fs b log h = h

  pub posts_get : Allows (Counts is_post n) Method.get
  posts_get r s e log h = simp e h

  pub posts_delete : Allows (Counts is_post n) Method.delete
  posts_delete r s e log h = simp e h

-- Counts that cannot differ are equal.
pub same_count : (m n : ℕ) → ¬ (m ≢ n) → m ≡ n
same_count m n h = elim (Bool-cases (m == n)) [
  | inl e ↦ ground arith
  | inr e ↦ absurd (h (λ q. ground arith))
]
