-- ===== src/Sdk/Transport/Tests.antt =====
-- Runs of packages/sdk-browser/src/transport.ts over the queue at concrete inputs.
use lyraflow.Prelude.{◌≡◌, refl, inl, true, false, none, some, List, [], ◌∷◌, nat_eq, string_eq}
use lyraflow.Sdk.Json.{refused, empty, field, serialises_fields}
use lyraflow.Sdk.Queue.{serialisable, QueuedEvent, EventQueue, Stored, absent}
use lyraflow.Sdk.Transport.{
  QueueOps, Transport, Random, Host, status, on_reply, Event, starts, runs, run,
}
use lyraflow.Sdk.Transport.Laws.{IsSingle, run-IsSingle}
use lyraflow.Sdk.Transport.Stopped.{posts-run_denied}
use lyraflow.Sdk.Transport.Queued.{queue_ops}

abbrev ops : QueueOps
ops = queue_ops (λ t. some 1000) true

abbrev sound : QueuedEvent
sound = record { message_id = "m1"; timestamp = "t"; body = empty }

abbrev bad : QueuedEvent
bad = record { message_id = "m2"; timestamp = "t"; body = field "n" refused empty }

abbrev page : Host
page = record {
  serialises = serialisable;
  serialises_one = λ e. serialises_fields e.body;
  warn_returns = λ w. true;
}

abbrev half : Random
half = record { over = 1; under = 2 }

-- One event waits, and its batch has been posted.
abbrev waiting : Transport (EventQueue × Stored)
waiting = record {
  queue = (record { events = sound ∷ []; persist = false; expired = 0; corrupt = 0 }, absent);
  running = true;
  is_stopped = false;
  in_flight = true;
  failures = 0;
  next_attempt_at = 0;
  pending = [];
  posts = (sound ∷ []) ∷ [];
  warnings = [];
}

abbrev fresh : Transport (EventQueue × Stored)
fresh = record waiting { in_flight = false; posts = [] }

abbrev later_events : List (Event ops)
later_events = starts ∷ runs page true 5000 ∷ runs page false 9000 ∷ []

run-IsSingle_example : IsSingle ops (run ops later_events fresh)
run-IsSingle_example = run-IsSingle ops later_events fresh (inl (refl, refl))

posts-run_denied_example :
    (run ops later_events
      (on_reply ops page 4000 half (status 401 none) (sound ∷ []) waiting).1).posts
    ≡ (sound ∷ []) ∷ []
posts-run_denied_example =
    posts-run_denied ops page 4000 half none (sound ∷ []) later_events waiting
