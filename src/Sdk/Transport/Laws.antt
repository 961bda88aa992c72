-- ===== src/Sdk/Transport/Laws.antt =====
-- packages/sdk-browser/src/transport.ts: the in-flight guard and what an attempt awaits.
use lyraflow.Prelude.{
  ℕ, ◌≡◌, refl, sym, ap, ◌∙◌, subst, ◌⊎◌, inl, inr, Bool, true, false, not, ◌&&◌, ◌||◌, Option,
  none, some, List, [], ◌∷◌, ◌++◌, arith, ltb, Bool-cases, drop, ◌==◌, nat_eq, string_eq,
}
use lyraflow.Sdk.Queue.{QueuedEvent}
use lyraflow.Sdk.Transport.{
  batch_size, QueueOps, SendOutcome, retry, stopped, Pending, response, body, Transport, Advice,
  Reply, network_error, no_status, status, Random, Tally, backoff, start, stop, report_body, Host,
  attempt, run_once, on_status, on_reply, Event, starts, stops, runs, replies, bodies, resume_reply,
  resume_body, step, run,
}

module _ (ops : QueueOps) where
  open ops use {State, peek, remove, held, remove-sent, length-peek-le}

  -- No attempt awaits anything and the guard is down, or one does and the guard is up.
  abbrev pub IsSingle : Transport State → Type 0
  IsSingle t =
      ((t.pending ≡ []) × (t.in_flight ≡ false))
      ⊎ ((p : Pending) × ((t.pending ≡ p ∷ []) × (t.in_flight ≡ true)))

  pub run_once_cases {ℓ} :
      (P : Option SendOutcome × Transport State → Type ℓ) (h : Host) (bypass : Bool) (now : ℕ)
      (t : Transport State)
      → ((outcome : SendOutcome) → P (some outcome, t))
      → (t.is_stopped ≡ false
          → t.in_flight ≡ false
          → P (
              attempt ops h now
                (peek now batch_size t.queue).0
                (record t { queue = (peek now batch_size t.queue).1 })))
      → P (run_once ops h bypass now t)
  unfolding run_once
  run_once_cases P h bypass now t idle tries = elim (Bool-cases t.is_stopped) [
    | inl on ↦ subst P (simp on) (idle stopped)
    | inr off ↦ elim (Bool-cases (not bypass && ltb now t.next_attempt_at)) [
      | inl early ↦ subst P (simp (off, early)) (idle retry)
      | inr due ↦ elim (Bool-cases t.in_flight) [
        | inl busy ↦ subst P (simp (off, due, busy)) (idle retry)
        | inr free ↦ subst P (simp (off, due, free)) (tries off free)
      ]
    ]
  ]

  attempt-IsSingle :
      (h : Host) (now : ℕ) (batch : List QueuedEvent) (t : Transport State)
      → t.in_flight ≡ false
      → IsSingle t
      → IsSingle (attempt ops h now batch t).1
  attempt-IsSingle h now [] t free s = s
  attempt-IsSingle h now (e ∷ es) t free s = elim (Bool-cases (h.serialises (e ∷ es))) [
    | inl good ↦ rw good (alone s)
    | inr poison ↦ rw poison s
  ]
    where
      alone :
          IsSingle t
          → ((t.pending ++ response (e ∷ es) ∷ [] ≡ []) × (true ≡ false))
            ⊎ ((p : Pending) × ((t.pending ++ response (e ∷ es) ∷ [] ≡ p ∷ []) × (true ≡ true)))
      alone (inl (none_left, off)) = inr (response (e ∷ es), (rw none_left refl, refl))
      alone (inr (p, (one, on))) = cc

  on_status-IsSingle :
      (h : Host) (now : ℕ) (r : Random) (code : ℕ) (advice : Advice) (batch : List QueuedEvent)
      (t : Transport State)
      → t.pending ≡ []
      → t.in_flight ≡ true
      → IsSingle (on_status ops h now r code advice batch t).1
  unfolding backoff stop
  on_status-IsSingle h now r code advice batch t none_left on = elim (Bool-cases (code == 202)) [
    | inl ok ↦ rw ok (inr (body, (rw none_left refl, on)))
    | inr a ↦ elim (Bool-cases (code == 401)) [
      | inl denied ↦ rw (a, denied) (inl (none_left, refl))
      | inr b ↦ elim (Bool-cases (code == 400 || code == 413)) [
        | inl bad ↦ rw (a, b, bad) (inl (none_left, refl))
        | inr c ↦ rw (a, b, c) (inl (none_left, refl))
      ]
    ]
  ]

  on_reply-IsSingle :
      (h : Host) (now : ℕ) (r : Random) (reply : Reply) (batch : List QueuedEvent)
      (t : Transport State)
      → t.pending ≡ []
      → t.in_flight ≡ true
      → IsSingle (on_reply ops h now r reply batch t).1
  unfolding on_reply backoff
  on_reply-IsSingle h now r network_error batch t none_left on = inl (none_left, refl)
  on_reply-IsSingle h now r no_status batch t none_left on = inl (none_left, refl)
  on_reply-IsSingle h now r (status code advice) batch t none_left on =
      on_status-IsSingle h now r code advice batch t none_left on

  -- A tally is reported without touching anything but the warnings.
  pub report_body-rest :
      (tally : Option Tally) (t : Transport State)
      → ((report_body tally t).pending ≡ t.pending)
        × ((report_body tally t).in_flight ≡ t.in_flight)
        × ((report_body tally t).is_stopped ≡ t.is_stopped)
        × ((report_body tally t).posts ≡ t.posts)
  unfolding report_body
  report_body-rest none t = (refl, refl, refl, refl)
  report_body-rest (some b) t = ground arith

  rest_empty :
      (p : Pending) (rest : List Pending) (t : Transport State)
      → t.pending ≡ p ∷ rest
      → IsSingle t
      → (rest ≡ []) × (t.in_flight ≡ true)
  rest_empty p rest t same (inl (none_left, off)) = cc (none_left, same)
  rest_empty p rest t same (inr (q, (one, on))) = (ap (drop 1) (sym same ∙ one), on)

  resume_reply-IsSingle :
      (h : Host) (now : ℕ) (r : Random) (reply : Reply) (ps : List Pending) (t : Transport State)
      → t.pending ≡ ps
      → IsSingle t
      → IsSingle (resume_reply ops h now r reply ps t).1
  resume_reply-IsSingle h now r reply [] t same s = s
  resume_reply-IsSingle h now r reply (body ∷ rest) t same s = s
  resume_reply-IsSingle h now r reply (response batch ∷ rest) t same s =
      let (none_left, on) = rest_empty (response batch) rest t same s in
      on_reply-IsSingle h now r reply batch (record t { pending = rest }) none_left on

  resume_body-IsSingle :
      (tally : Option Tally) (ps : List Pending) (t : Transport State)
      → t.pending ≡ ps
      → IsSingle t
      → IsSingle (resume_body ops tally ps t).1
  resume_body-IsSingle tally [] t same s = s
  resume_body-IsSingle tally (response batch ∷ rest) t same s = s
  resume_body-IsSingle tally (body ∷ rest) t same s =
      let (none_left, on) = rest_empty body rest t same s in
      let (p, f, i, n) = report_body-rest tally (record t { pending = rest; in_flight = false }) in
      inl (p ∙ none_left, f)

  step-IsSingle : (e : Event ops) (t : Transport State) → IsSingle t → IsSingle (step ops e t).1
  unfolding step start stop
  step-IsSingle starts t s = s
  step-IsSingle stops t s = s
  step-IsSingle (runs h bypass now) t s =
      run_once_cases (λ x. IsSingle x.1) h bypass now t (λ outcome. s)
        λ off free. attempt-IsSingle h now _ _ free s
  step-IsSingle (replies h now r reply) t s = resume_reply-IsSingle h now r reply t.pending t refl s
  step-IsSingle (bodies tally) t s = resume_body-IsSingle tally t.pending t refl s

  -- Whatever the page interleaves, no more than one attempt awaits a response or a body, and the
  -- in-flight guard is up exactly while one does, if that holds at first.
  pub run-IsSingle :
      (es : List (Event ops)) (t : Transport State) → IsSingle t → IsSingle (run ops es t)
  unfolding run
  run-IsSingle [] t s = s
  run-IsSingle (e ∷ es) t s = run-IsSingle es (step ops e t).1 (step-IsSingle e t s)
