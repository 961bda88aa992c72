-- ===== src/Sdk/Transport/Queued.antt =====
-- packages/sdk-browser/src/transport.ts over packages/sdk-browser/src/queue.ts: the queue as the
-- transport uses it, and a batch that cannot be serialised.
use lyraflow.Prelude.{ℕ, String, ◌≡◌, Bool, false, Option, List, Memᴰ, nat_eq, string_eq}
use lyraflow.Sdk.Queue.{QueuedEvent, EventQueue, Stored, ids, contains, prune}
use lyraflow.Sdk.Queue as Queue
use lyraflow.Sdk.Queue.Bounds as Bounds
use lyraflow.Sdk.Queue.Tabs as Tabs
use lyraflow.Sdk.Transport.{QueueOps, Host}

-- The queue of a tab, and whether its writes to storage are taken.
abbrev pub queue_ops : (String → Option ℕ) → Bool → QueueOps
queue_ops date_parse writable = record {
  State = EventQueue × Stored;
  peek = λ now n (q, s). let (batch, q') = Queue.peek date_parse now n q in (batch, (q', s));
  remove = λ now sent qs. Queue.remove date_parse now writable sent qs;
  held = λ qs. qs.0.events;
  length-peek-le = λ now n (q, s). Bounds.length-peek-le date_parse now n q;
  remove-sent = λ now sent (q, s). Tabs.remove-sent date_parse now writable sent q s;
}

-- The id of an event of the batch that cannot be serialised by itself.
abbrev pub IsPoison : Host → List QueuedEvent → String → Type 0
IsPoison h batch i =
    (e : QueuedEvent) × (Memᴰ e batch × ((e.message_id ≡ i) × (h.serialises_one e ≡ false)))
