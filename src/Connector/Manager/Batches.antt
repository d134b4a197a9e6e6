-- ===== src/Connector/Manager/Batches.antt =====
-- What `receiveExpired` sends: every expired event once, in order, in batches that are not empty.
use mathlib.Core.List.{cons≢nil, append_assoc, append-nil}
use mathlib.Core.Bool.{false≢true}
use mathlib.Core.Option.{none-ne-some}
use solarwinds_otel_collecto.Base.{
  ℕ, ◌≡◌, refl, sym, ◌∙◌, ap, Bool, true, false, List, [], ◌∷◌, ◌++◌, Option, none, some, ok, err,
  if◌then◌else◌, arith, Bool-cases, inl, inr, ◌≢◌, Option-cases, All, All-append,
}
use solarwinds_otel_collecto.Connector.Pdata.{Pdata}
use solarwinds_otel_collecto.Connector.Events.{Event, EventLog}
use solarwinds_otel_collecto.Connector.Manager.{
  Receiver, failed_to_consume, Run, begin, expire, fire, finish, start, on_done, on_expired,
  on_timer, pending, expired_log,
}

abbrev pub is_some {ℓ} : {A : Type ℓ} → Option A → Bool
is_some none = false
is_some (some _) = true

module _ (pd : Pdata) where
  -- Batches, each with the time of its records: the events in all of them, and their logs.
  abbrev pub Batches : Type 0
  Batches = List (ℕ × List (Event pd))

  unfoldable pub events_of : Batches → List (Event pd)
  events_of [] = []
  events_of ((now, batch) ∷ batches) = batch ++ events_of batches

  unfoldable pub logs_of : Batches → List (EventLog pd)
  logs_of [] = []
  logs_of ((now, batch) ∷ batches) = expired_log pd now batch ∷ logs_of batches

  events_of-concat :
      (bs : Batches) (now : ℕ) (b : List (Event pd))
      → events_of (bs ++ (now, b) ∷ []) ≡ events_of bs ++ b
  unfolding events_of
  events_of-concat [] now b = append-nil b
  events_of-concat ((t, c) ∷ bs) now b =
      ap (◌++◌ c) (events_of-concat bs now b) ∙ sym (append_assoc c (events_of bs) b)

  logs_of-concat :
      (bs : Batches) (now : ℕ) (b : List (Event pd))
      → logs_of (bs ++ (now, b) ∷ []) ≡ logs_of bs ++ expired_log pd now b ∷ []
  unfolding logs_of
  logs_of-concat [] now b = refl
  logs_of-concat ((t, c) ∷ bs) now b = ap (◌∷◌ (expired_log pd t c)) (logs_of-concat bs now b)

module _ (pd : Pdata) (consume : EventLog pd → Bool) where
  -- The state of the loop against the events that were received.
  pub record Accounts (received : List (Event pd)) (s : Receiver pd) : Type 0 where
    pub batches : Batches pd
    pub logs : s.sent ≡ logs_of pd batches
    pub accepted : All (λ log. consume log ≡ true) s.sent
    pub full : All (λ (b : ℕ × List (Event pd)). b.1 ≢ []) batches
    pub in_order : received ≡ events_of pd batches ++ pending pd s.batch
    pub armed : s.timer ≡ is_some s.batch
    pub not_empty : s.batch ≢ some []

  concat-ne-nil : (xs : List (Event pd)) (x : Event pd) → xs ++ x ∷ [] ≢ []
  concat-ne-nil [] x = cons≢nil
  concat-ne-nil (y ∷ xs) x = cons≢nil

  some_inj : {xs ys : List (Event pd)} → some xs ≡ some ys → xs ≡ ys
  some_inj h = cc

  expire-Accounts :
      (event : Event pd) (received : List (Event pd)) (s : Receiver pd)
      → Accounts received s
      → Accounts (received ++ event ∷ []) (on_expired pd event s)
  unfolding on_expired
  expire-Accounts event received s h = elim (Option-cases s.batch) [
    | inl e ↦
        rw (e, on_expired)
          (record {
            batches = h.batches;
            logs = h.logs;
            accepted = h.accepted;
            full = h.full;
            in_order =
                ap (λ l. l ++ event ∷ [])
                  (h.in_order ∙ ap (λ o. events_of pd h.batches ++ pending pd o) e)
                ∙ append_assoc (events_of pd h.batches) [] (event ∷ []);
            armed = refl;
            not_empty = λ q. cons≢nil (some_inj q);
          })
    | inr (batch, e) ↦
        rw (e, on_expired)
          (record {
            batches = h.batches;
            logs = h.logs;
            accepted = h.accepted;
            full = h.full;
            in_order =
                ap (λ l. l ++ event ∷ [])
                  (h.in_order ∙ ap (λ o. events_of pd h.batches ++ pending pd o) e)
                ∙ append_assoc (events_of pd h.batches) batch (event ∷ []);
            armed = h.armed ∙ ap is_some e;
            not_empty = λ q. concat-ne-nil batch event (some_inj q);
          })
  ]

  -- A timer that fires on a pending batch sends it, or the consumer's error is a panic.
  on_timer-pending :
      (now : ℕ) (s : Receiver pd) (event : Event pd) (events : List (Event pd))
      → s.batch ≡ some (event ∷ events)
      → let log = expired_log pd now (event ∷ events) in
        on_timer pd consume now s ≡ (
          if consume log
          then ok (record s { batch = none; timer = false; sent = s.sent ++ log ∷ [] })
          else err failed_to_consume)
  unfolding on_timer
  on_timer-pending now s event events e = rw (e, on_timer) (ground arith)

  fire-Accounts :
      (now : ℕ) (received : List (Event pd)) (s t : Receiver pd)
      → Accounts received s
      → s.timer ≡ true
      → on_timer pd consume now s ≡ ok t
      → Accounts received t
  fire-Accounts now received s t h set fired = elim (Option-cases s.batch) [
    | inl e ↦ absurd (false≢true (sym (ap is_some e) ∙ sym h.armed ∙ set))
    | inr ([], e) ↦ absurd (h.not_empty e)
    | inr (event ∷ events, e) ↦
        let batch = event ∷ events in
        let log = expired_log pd now batch in
        elim (Bool-cases (consume log)) [
          | inl fine ↦
              let result : t ≡ record s { batch = none; timer = false; sent = s.sent ++ log ∷ [] } =
                ground (arith, on_timer-pending now s event events e) in
              rw result (record {
                batches = h.batches ++ (now, batch) ∷ [];
                logs = ap (λ l. l ++ log ∷ []) h.logs ∙ sym (logs_of-concat pd h.batches now batch);
                accepted = All-append _ s.sent (log ∷ []) h.accepted (fine, tt);
                full = All-append _ h.batches ((now, batch) ∷ []) h.full (cons≢nil, tt);
                in_order =
                    h.in_order
                    ∙ ap (λ o. events_of pd h.batches ++ pending pd o) e
                    ∙ sym (events_of-concat pd h.batches now batch)
                    ∙ sym (append-nil _);
                armed = refl;
                not_empty = λ q. none-ne-some [] q;
              })
          | inr refused ↦ absurd (ground (arith, on_timer-pending now s event events e))
        ]
  ]

  -- Whatever the rounds of the loop: the logs that were sent are the delete records of batches that
  -- are not empty, the consumer accepted each of them, and the batches followed by what is pending
  -- are exactly the events received, in their order: none is lost, none is sent twice. The timer
  -- runs exactly while a batch is pending.
  pub Run-Accounts :
      {received : List (Event pd)} {s : Receiver pd}
      → Run pd consume received s
      → Accounts received s
  unfolding start on_done events_of logs_of
  Run-Accounts begin = record {
    batches = [];
    logs = refl;
    accepted = tt;
    full = tt;
    in_order = refl;
    armed = refl;
    not_empty = λ q. none-ne-some [] q;
  }
  Run-Accounts (expire event {received} {s} run open_) =
      expire-Accounts event received s (Run-Accounts run)
  Run-Accounts (fire now {received} {s} {t} run open_ set fired) =
      fire-Accounts now received s t (Run-Accounts run) set fired
  Run-Accounts (finish {received} {s} run open_) =
      let h = Run-Accounts run in
      record {
        batches = h.batches;
        logs = h.logs;
        accepted = h.accepted;
        full = h.full;
        in_order = h.in_order;
        armed = h.armed;
        not_empty = h.not_empty;
      }
