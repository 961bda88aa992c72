-- ===== src/Sdk/Transport/Replies.antt =====
-- packages/sdk-browser/src/transport.ts: what each reply does to the queue, to the backoff and to later
-- attempts.
use lyraflow.Prelude.{
  ℕ, zero, suc, ◌+◌, ◌-◌, ◌*◌, ◌^◌, ◌≤◌, ◌<◌, ◌≡◌, refl, ◌∙◌, inl, inr, Bool, true, false, not,
  ◌||◌, Option, none, some, List, arith, ltb, Bool-cases, All, ◌==◌, nat_eq, string_eq,
}
use native.Mathlib.Nat.{div-le_of_le-mul, mul-le-mul_left}
use lyraflow.Sdk.Queue.{QueuedEvent, ids, contains}
use lyraflow.Sdk.Transport.{
  backoff_base_ms, max_honoured_retry_after_ms, QueueOps, SendOutcome, retry, Transport, Advice,
  Reply, network_error, no_status, status, Random, exponential, jitter, delay, backoff, Host,
  run_once, on_reply,
}

-- A delay is at least one second and at most five minutes, whatever the server advises.
abbrev pub IsDelay : ℕ → Type 0
IsDelay ms = (backoff_base_ms ≤ ms) × (ms ≤ max_honoured_retry_after_ms)

pow-pos : (n : ℕ) → 1 ≤ 2 ^ n
pow-pos zero = omega arith
pow-pos (suc n) = omega (arith, pow-pos n)

-- The jitter is at most a fifth of what it is added to, and a millisecond.
jitter-le : (r : Random) (n : ℕ) → r.over < r.under → jitter r n ≤ n + 1
unfolding jitter
jitter-le r n proper = div-le_of_le-mul (5 * r.under) (le_all (mul-le-mul_left n (omega arith)))
  where
    le_all : n * r.over ≤ n * r.under → n * r.over + (5 * r.under - 1) ≤ 5 * r.under * (n + 1)
    le_all h = grind (arith, h)

delay-IsDelay :
    (r : Random) (advice : Advice) (failures : ℕ)
    → r.over < r.under
    → IsDelay (delay r advice failures)
unfolding delay exponential
delay-IsDelay r (some ms) failures proper = (omega arith, omega arith)
delay-IsDelay r none failures proper = (
  omega (arith, pow-pos (failures - 1)),
  omega (arith, jitter-le r (exponential failures) proper),
)

-- A reply that says nothing final about the batch: neither 202, nor 401, 400 or 413.
abbrev pub is_transient : Reply → Bool
is_transient network_error = true
is_transient no_status = true
is_transient (status code advice) = not (code == 202 || code == 401 || code == 400 || code == 413)

-- A reply after which the batch is not sent again.
abbrev pub is_final : ℕ → Bool
is_final code = code == 202 || code == 400 || code == 413

module _ (ops : QueueOps) where
  open ops use {State, peek, remove, held, remove-sent}

  -- What a transient reply leaves.
  abbrev Retried : ℕ → Transport State → Option SendOutcome × Transport State → Type 0
  Retried now t (outcome, t') =
      (outcome ≡ some retry)
      × ((t'.queue ≡ t.queue)
          × ((t'.posts ≡ t.posts) × ((ms : ℕ) × (IsDelay ms × (t'.next_attempt_at ≡ now + ms)))))

  -- A transient reply leaves every event in the queue, and the next attempt is due no sooner than a
  -- second and no later than five minutes from now, whatever `retry-after` says, where the random
  -- number is a proper fraction.
  pub on_reply_transient :
      (h : Host) (now : ℕ) (r : Random) (reply : Reply) (batch : List QueuedEvent)
      (t : Transport State)
      → r.over < r.under
      → is_transient reply ≡ true
      → Retried now t (on_reply ops h now r reply batch t)
  unfolding on_reply backoff
  on_reply_transient h now r network_error batch t proper transient =
      (refl, (refl, (refl, (_, (delay-IsDelay r none (t.failures + 1) proper, refl)))))
  on_reply_transient h now r no_status batch t proper transient =
      (refl, (refl, (refl, (_, (delay-IsDelay r none (t.failures + 1) proper, refl)))))
  on_reply_transient h now r (status code advice) batch t proper transient =
      let not_ok : (code == 202) ≡ false = ground arith in
      let not_denied : (code == 401) ≡ false = ground arith in
      let not_bad : (code == 400 || code == 413) ≡ false = ground arith in
      rw (not_ok, not_denied, not_bad)
        (refl, (refl, (refl, (_, (delay-IsDelay r advice (t.failures + 1) proper, refl)))))

  -- After a transient reply, nothing is posted by the timer or a change of visibility until a
  -- second has passed, where the random number is a proper fraction.
  pub posts-run_once_transient :
      (h g : Host) (now later : ℕ) (r : Random) (reply : Reply) (batch : List QueuedEvent)
      (t : Transport State)
      → r.over < r.under
      → is_transient reply ≡ true
      → later < now + 1000
      → (run_once ops g false later (on_reply ops h now r reply batch t).1).1.posts ≡ t.posts
  unfolding run_once
  posts-run_once_transient h g now later r reply batch t proper transient soon =
      let (outcome, (queue, (posts, (ms, (bounds, due))))) =
        on_reply_transient h now r reply batch t proper transient in
      early g later (on_reply ops h now r reply batch t).1 (omega arith) ∙ posts
    where
      early :
          (g : Host) (later : ℕ) (t : Transport State)
          → later < t.next_attempt_at
          → (run_once ops g false later t).1.posts ≡ t.posts
      early g later t before =
          let held_off : ltb later t.next_attempt_at ≡ true = ground arith in
          elim (Bool-cases t.is_stopped) [ inl on ↦ simp on | inr off ↦ simp (off, held_off) ]

  -- Once a batch is accepted, or refused for good, no event with an id of the batch is queued.
  pub held-on_reply_final :
      (h : Host) (now : ℕ) (r : Random) (code : ℕ) (advice : Advice) (batch : List QueuedEvent)
      (t : Transport State)
      → is_final code ≡ true
      → All
          (λ e. contains e.message_id (ids batch) ≡ false)
          (held (on_reply ops h now r (status code advice) batch t).1.queue)
  unfolding on_reply
  held-on_reply_final h now r code advice batch t final = elim (Bool-cases (code == 202)) [
    | inl ok ↦ rw ok (remove-sent now (ids batch) t.queue)
    | inr a ↦
        let not_denied : (code == 401) ≡ false = ground arith in
        let bad : (code == 400 || code == 413) ≡ true = ground arith in
        rw (a, not_denied, bad) (remove-sent now (ids batch) t.queue)
  ]
