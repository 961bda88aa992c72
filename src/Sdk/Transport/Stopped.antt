-- ===== src/Sdk/Transport/Stopped.antt =====
-- packages/sdk-browser/src/transport.ts: a transport whose write key was rejected.
use lyraflow.Prelude.{
  ℕ, ◌≡◌, refl, ◌∙◌, inl, inr, true, false, ◌||◌, Option, List, [], ◌∷◌, Bool-cases, ◌==◌, nat_eq,
  string_eq,
}
use lyraflow.Sdk.Queue.{QueuedEvent}
use lyraflow.Sdk.Transport.{
  QueueOps, Pending, response, body, Transport, Advice, Reply, network_error, no_status, status,
  Random, Tally, backoff, start, stop, Host, on_reply, Event, starts, stops, runs, replies, bodies,
  resume_reply, resume_body, step, run,
}
use lyraflow.Sdk.Transport.Laws.{run_once_cases, report_body-rest}

module _ (ops : QueueOps) where
  open ops use {State, peek, remove}

  -- It is stopped, and has posted the given batches.
  abbrev Silent : List (List QueuedEvent) → Transport State → Type 0
  Silent posts t = (t.is_stopped ≡ true) × (t.posts ≡ posts)

  module _ (posts : List (List QueuedEvent)) where
    on_reply-Silent :
        (h : Host) (now : ℕ) (r : Random) (reply : Reply) (batch : List QueuedEvent)
        (t : Transport State)
        → Silent posts t
        → Silent posts (on_reply ops h now r reply batch t).1
    unfolding on_reply backoff stop
    on_reply-Silent h now r network_error batch t s = s
    on_reply-Silent h now r no_status batch t s = s
    on_reply-Silent h now r (status code advice) batch t s = elim (Bool-cases (code == 202)) [
      | inl ok ↦ rw ok s
      | inr a ↦ elim (Bool-cases (code == 401)) [
        | inl denied ↦ rw (a, denied) (refl, s.1)
        | inr b ↦ elim (Bool-cases (code == 400 || code == 413)) [
          | inl bad ↦ rw (a, b, bad) s
          | inr c ↦ rw (a, b, c) s
        ]
      ]
    ]

    resume_reply-Silent :
        (h : Host) (now : ℕ) (r : Random) (reply : Reply) (ps : List Pending) (t : Transport State)
        → Silent posts t
        → Silent posts (resume_reply ops h now r reply ps t).1
    resume_reply-Silent h now r reply [] t s = s
    resume_reply-Silent h now r reply (body ∷ rest) t s = s
    resume_reply-Silent h now r reply (response batch ∷ rest) t s =
        on_reply-Silent h now r reply batch (record t { pending = rest }) s

    resume_body-Silent :
        (tally : Option Tally) (ps : List Pending) (t : Transport State)
        → Silent posts t
        → Silent posts (resume_body ops tally ps t).1
    resume_body-Silent tally [] t s = s
    resume_body-Silent tally (response batch ∷ rest) t s = s
    resume_body-Silent tally (body ∷ rest) t s =
        let (p, f, i, n) =
          report_body-rest ops tally (record t { pending = rest; in_flight = false }) in
        (i ∙ s.0, n ∙ s.1)

    step-Silent :
        (e : Event ops) (t : Transport State) → Silent posts t → Silent posts (step ops e t).1
    unfolding step start stop
    step-Silent starts t s = s
    step-Silent stops t s = s
    step-Silent (runs h bypass now) t s =
        run_once_cases ops (λ x. Silent posts x.1) h bypass now t (λ outcome. s)
          (λ off free. cc (off, s.0))
    step-Silent (replies h now r reply) t s = resume_reply-Silent h now r reply t.pending t s
    step-Silent (bodies tally) t s = resume_body-Silent tally t.pending t s

    run-Silent :
        (es : List (Event ops)) (t : Transport State) → Silent posts t → Silent posts (run ops es t)
    unfolding run
    run-Silent [] t s = s
    run-Silent (e ∷ es) t s = run-Silent es (step ops e t).1 (step-Silent e t s)

  -- Once a reply is 401, nothing is posted ever again: not by the timer, not by either listener, not
  -- after another `start`, and not by a run that bypasses the backoff.
  pub posts-run_denied :
      (h : Host) (now : ℕ) (r : Random) (advice : Advice) (batch : List QueuedEvent)
      (es : List (Event ops)) (t : Transport State)
      → (run ops es (on_reply ops h now r (status 401 advice) batch t).1).posts ≡ t.posts
  unfolding on_reply stop
  posts-run_denied h now r advice batch es t =
      (run-Silent t.posts es (on_reply ops h now r (status 401 advice) batch t).1 (refl, refl)).1
