-- ===== src/Sdk/Transport.antt =====
-- packages/sdk-browser/src/transport.ts: `Transport`, which posts batches of the queue. It awaits the
-- response and then its body, so the page's timers and listeners interleave with an attempt: `pending`
-- holds what each attempt awaits. The queue is used through the operations that the transport calls.
-- `fetch`, the response, `JSON.stringify` on objects with getters, `warn` and `Math.random` are
-- arguments. `posts` and `warnings` record what was handed to `fetchImpl` and to `warn`.
mod Tests
pub mod Laws
pub mod Replies
pub mod Stopped
pub mod Queued
use lyraflow.Prelude.{
  ℕ, zero, suc, ◌+◌, ◌-◌, ◌*◌, ◌/◌, ◌^◌, ◌≤◌, min, max, String, ◌≡◌, Bool, true, false, not, ◌&&◌,
  ◌||◌, Option, none, some, List, [], ◌∷◌, ◌++◌, ltb, if◌then◌else◌, length, All, ◌==◌, nat_eq,
  string_eq,
}
use lyraflow.Sdk.Queue.{QueuedEvent, ids, contains}

abbrev pub batch_size : ℕ
batch_size = 20

abbrev pub backoff_base_ms : ℕ
backoff_base_ms = 1000

abbrev pub backoff_max_ms : ℕ
backoff_max_ms = 30000

abbrev pub max_honoured_retry_after_ms : ℕ
max_honoured_retry_after_ms = 5 * 60000

-- The queue as the transport sees it: the clock of the call, and the events that are queued.
pub record QueueOps : Type 1 where
  pub State : Type 0
  pub peek : ℕ → ℕ → State → List QueuedEvent × State
  pub remove : ℕ → List String → State → State
  pub held : State → List QueuedEvent
  pub length-peek-le : (now n : ℕ) (q : State) → length (peek now n q).0 ≤ n
  pub remove-sent :
      (now : ℕ) (sent : List String) (q : State)
      → All (λ e. contains e.message_id sent ≡ false) (held (remove now sent q))

pub data SendOutcome : Type 0 where
  sent retry dropped stopped : SendOutcome

-- The messages that `warn` is given.
pub data Warning : Type 0 where
  some_unserialisable : ℕ → Warning
  batch_unserialisable key_rejected : Warning
  batch_rejected : ℕ → Warning
  rejected over_quota bot : ℕ → Warning

-- What an attempt awaits: the response, or the body of a 202.
pub data Pending : Type 0 where
  response : List QueuedEvent → Pending
  body : Pending

pub record Transport (Q : Type 0) : Type 0 where
  pub queue : Q
  pub running : Bool
  pub is_stopped : Bool
  pub in_flight : Bool
  pub failures : ℕ
  pub next_attempt_at : ℕ
  pub pending : List Pending
  pub posts : List (List QueuedEvent)
  pub warnings : List Warning

-- `Number(retryAfter) * 1000`, if finite; one below 0 counts as 0, which the floor treats alike.
abbrev pub Advice : Type 0
Advice = Option ℕ

-- What `fetchImpl` gives: a network error, something that has no finite status, or a response.
pub data Reply : Type 0 where
  network_error no_status : Reply
  status : ℕ → Advice → Reply

-- `Math.random()` as a fraction.
pub record Random : Type 0 where
  pub over : ℕ
  pub under : ℕ

-- The counts of the body of a 202, as far as they are numbers that are not negative; `none` for a
-- body that cannot be read.
pub record Tally : Type 0 where
  pub rejected : Option ℕ
  pub over_quota : Option ℕ
  pub bot : Option ℕ

-- `BACKOFF_BASE_MS * 2 ** (failures - 1)`, capped.
unfoldable pub exponential : ℕ → ℕ
exponential failures = min (backoff_base_ms * 2 ^ (failures - 1)) backoff_max_ms

-- The jitter, rounded up: no whole clock tells the difference.
unfoldable pub jitter : Random → ℕ → ℕ
jitter r n = (n * r.over + (5 * r.under - 1)) / (5 * r.under)

unfoldable pub delay : Random → Advice → ℕ → ℕ
delay r (some advised_ms) failures =
    min (max advised_ms backoff_base_ms) max_honoured_retry_after_ms
delay r none failures = exponential failures + jitter r (exponential failures)

module _ {Q : Type 0} where
  -- `#backoff`
  unfoldable pub backoff : ℕ → Random → Advice → Transport Q → Transport Q
  backoff now r advice t = record t {
    failures = t.failures + 1;
    next_attempt_at = now + delay r advice (t.failures + 1);
  }

  -- `start` and `stop`: the timer and the two listeners come and go together.
  unfoldable pub start : Transport Q → Transport Q
  start t = record t { running = true }

  unfoldable pub stop : Transport Q → Transport Q
  stop t = record t { running = false }

  abbrev pub warn : Warning → Transport Q → Transport Q
  warn w t = record t { warnings = t.warnings ++ w ∷ [] }

  -- `typeof n === 'number' && n > 0`
  abbrev pub report : (ℕ → Warning) → Option ℕ → Transport Q → Transport Q
  report w none t = t
  report w (some zero) t = t
  report w (some (suc n)) t = warn (w (suc n)) t

  -- `#reportBody`
  unfoldable pub report_body : Option Tally → Transport Q → Transport Q
  report_body none t = t
  report_body (some b) t =
      report bot b.bot (report over_quota b.over_quota (report rejected b.rejected t))

-- What the host's page supplies: whether `JSON.stringify` succeeds on a batch and on one event, and
-- whether `warn` returns.
pub record Host : Type 0 where
  pub serialises : List QueuedEvent → Bool
  pub serialises_one : QueuedEvent → Bool
  pub warn_returns : Warning → Bool

-- The branch that a warning ends: an exception in it reaches the catch of `#run`.
abbrev pub after_warn : Host → Warning → SendOutcome → SendOutcome
after_warn h w outcome = if h.warn_returns w then outcome else retry

unfoldable pub poisoned : Host → List QueuedEvent → List String
poisoned h [] = []
poisoned h (e ∷ es) = if h.serialises_one e then poisoned h es else e.message_id ∷ poisoned h es

-- What is removed when a batch cannot be serialised, and what is said.
abbrev pub to_drop : List String → List QueuedEvent → List String × Warning
to_drop [] batch = (ids batch, batch_unserialisable)
to_drop (i ∷ is) batch = (i ∷ is, some_unserialisable (length (i ∷ is)))

module _ (ops : QueueOps) where
  open ops use {State, peek, remove}

  abbrev pub drop_poison :
      Host → ℕ → List QueuedEvent → Transport State → Option SendOutcome × Transport State
  drop_poison h now batch t =
      let (gone, w) = to_drop (poisoned h batch) batch in
      (some (after_warn h w dropped), warn w (record t { queue = remove now gone t.queue }))

  -- `#attempt` up to its first await: `none` while the response is awaited.
  abbrev pub attempt :
      Host → ℕ → List QueuedEvent → Transport State → Option SendOutcome × Transport State
  attempt h now [] t = (some sent, t)
  attempt h now (e ∷ es) t =
      if h.serialises (e ∷ es)
      then (
        none,
        record t {
          in_flight = true;
          pending = t.pending ++ response (e ∷ es) ∷ [];
          posts = t.posts ++ (e ∷ es) ∷ [];
        },
      )
      else drop_poison h now (e ∷ es) t

  -- `#run`, with the argument `bypassBackoff`.
  unfoldable pub run_once : Host → Bool → ℕ → Transport State → Option SendOutcome × Transport State
  run_once h bypass_backoff now t =
      if t.is_stopped
      then (some stopped, t)
      else if not bypass_backoff && ltb now t.next_attempt_at
      then (some retry, t)
      else if t.in_flight
      then (some retry, t)
      else let (batch, q) = peek now batch_size t.queue in
        attempt h now batch (record t { queue = q })

  unfoldable pub flush : Host → ℕ → Transport State → Option SendOutcome × Transport State
  flush h now t = run_once h false now t

  abbrev pub remove_batch : ℕ → List QueuedEvent → Transport State → Transport State
  remove_batch now batch t = record t { queue = remove now (ids batch) t.queue }

  -- `#attempt` from the response on, and the `finally` of `#run` where the attempt ends here.
  abbrev pub on_status :
      Host
      → ℕ
      → Random
      → ℕ
      → Advice
      → List QueuedEvent
      → Transport State
      → Option SendOutcome × Transport State
  on_status h now r code advice batch t =
      if code == 202
      then (
        none,
        record (remove_batch now batch t) {
          failures = 0;
          next_attempt_at = 0;
          pending = t.pending ++ body ∷ [];
        },
      )
      else if code == 401
      then (
        some (after_warn h key_rejected stopped),
        warn key_rejected (stop (record t { is_stopped = true; in_flight = false })),
      )
      else if code == 400 || code == 413
      then (
        some (after_warn h (batch_rejected code) dropped),
        warn (batch_rejected code) (record (remove_batch now batch t) { in_flight = false }),
      )
      else (some retry, record (backoff now r advice t) { in_flight = false })

  unfoldable pub on_reply :
      Host
      → ℕ
      → Random
      → Reply
      → List QueuedEvent
      → Transport State
      → Option SendOutcome × Transport State
  on_reply h now r network_error batch t =
      (some retry, record (backoff now r none t) { in_flight = false })
  on_reply h now r no_status batch t =
      (some retry, record (backoff now r none t) { in_flight = false })
  on_reply h now r (status code advice) batch t = on_status h now r code advice batch t

  -- What the page interleaves.
  pub data Event : Type 0 where
    starts stops : Event
    runs : Host → Bool → ℕ → Event
    replies : Host → ℕ → Random → Reply → Event
    bodies : Option Tally → Event

  -- The attempt that awaits longest goes on, if it awaits what has come.
  abbrev pub resume_reply :
      Host
      → ℕ
      → Random
      → Reply
      → List Pending
      → Transport State
      → Option SendOutcome × Transport State
  resume_reply h now r reply (response batch ∷ rest) t =
      on_reply h now r reply batch (record t { pending = rest })
  resume_reply h now r reply _ t = (none, t)

  abbrev pub resume_body :
      Option Tally → List Pending → Transport State → Option SendOutcome × Transport State
  resume_body tally (body ∷ rest) t =
      (some sent, report_body tally (record t { pending = rest; in_flight = false }))
  resume_body tally _ t = (none, t)

  unfoldable pub step : Event → Transport State → Option SendOutcome × Transport State
  step starts t = (none, start t)
  step stops t = (none, stop t)
  step (runs h bypass now) t = run_once h bypass now t
  step (replies h now r reply) t = resume_reply h now r reply t.pending t
  step (bodies tally) t = resume_body tally t.pending t

  unfoldable pub run : List Event → Transport State → Transport State
  run [] t = t
  run (e ∷ es) t = run es (step e t).1
