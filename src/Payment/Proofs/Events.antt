-- ===== src/Payment/Proofs/Events.antt =====
-- The events of payment providers: recorded once, and processed once.
use kokoro_platform.Base.{
  ℕ, String, ◌≡◌, ◌≢◌, sym, ap, ◌∙◌, ◌⊎◌, inl, inr, Bool, true, some, none, Option, arith,
  Bool-cases, Option-cases, ◌==◌, eq_refl, eq_iff,
}
use kokoro_platform.Base.Effect.{ok, err, Result-cases}
use kokoro_platform.Base.Table.{find_first-put}
use kokoro_platform.Payment.Types.{
  record_missing, UpsertPlanInput, DeletePlanInput, UpsertSubscriptionInput, UpsertProviderInput,
  Json, RecordEventInput, PaymentEvent, EventStatus, processed, OrderStatus, confirming, paid,
}
use kokoro_platform.Payment.Payload.{same_payload, same_payload-to_json}
use kokoro_platform.Payment.Reordered.{Reordered, same_payload-Reordered}
use kokoro_platform.Payment.Amount.{parse_positive_bigint_string, parse_non_negative_bigint_string}
use kokoro_platform.Payment.Store.{Tables, Store, Context}
use kokoro_platform.Payment.Repository.Plans.{
  or_zero, plan_by_key, find_plan_by_id, upsert_plan_row, upsert_plan, delete_plan, restore_plan,
}
use kokoro_platform.Payment.Repository.Orders.{
  find_order_by_id, transition_order, is_open, is_pending,
}
use kokoro_platform.Payment.Repository.Subscriptions.{subscription_of, upsert_subscription}
use kokoro_platform.Payment.Repository.Events.{
  find_provider_by_key, upsert_provider, delete_provider, event_of, is_event, new_event, put_event,
  insert_event, assert_same_payment_event_idempotency_target, is_unprocessed,
  create_payment_event_or_read_existing, record_payment_event, find_payment_event_by_id,
  transition_payment_event_status,
}
use kokoro_platform.Payment.Machine.{
  Step, plan, drop_plan, revive_plan, order, confirm, pay, refund, subscribe, provider,
  drop_provider, event, process, Reach, here, next,
}
use kokoro_platform.Payment.Proofs.Writes.{create_order_cases, refund_order_atomically_cases}
use kokoro_platform.Payment.Proofs.Orders.{
  mark_order_confirming-transition, mark_order_paid-transition,
}

module _ (T : Tables) where
  -- What a call of recordPaymentEvent does: nothing, or it creates an event that was not there.
  record_payment_event_cases :
      (ctx : Context) (input : RecordEventInput) (s : Store T)
      → ((record_payment_event T ctx input s).1 ≡ s)
        ⊎ ((find_payment_event_by_id T ctx.new_id s ≡ none)
            × (event_of T input s ≡ none)
            × (record_payment_event T ctx input s
                ≡ (ok (new_event ctx input), put_event T (new_event ctx input) s)))
  unfolding record_payment_event create_payment_event_or_read_existing insert_event
  record_payment_event_cases ctx input s = elim (Option-cases (event_of T input s)) [
    | inr (e, found) ↦ inl (ground arith)
    | inl unknown ↦ elim (Option-cases (find_payment_event_by_id T ctx.new_id s)) [
      | inr (e, taken) ↦ inl (ground arith)
      | inl fresh ↦ inr (fresh, unknown, ground arith)
    ]
  ]

  pub replay :
      (ctx : Context) (input : RecordEventInput) (s : Store T) (e : PaymentEvent)
      → event_of T input s ≡ some e
      → e.event_type ≡ input.event_type
      → same_payload e.payload input.payload ≡ true
      → record_payment_event T ctx input s ≡ (ok e, s)
  unfolding record_payment_event assert_same_payment_event_idempotency_target
  replay ctx input s e found same_type same =
      let type_is : (e.event_type == input.event_type) ≡ true =
        rw same_type (eq_refl input.event_type) in
      ground arith

  taken_fails :
      (ctx : Context) (input : RecordEventInput) (s : Store T) (x : PaymentEvent)
      → event_of T input s ≡ none
      → find_payment_event_by_id T ctx.new_id s ≡ some x
      → (record_payment_event T ctx input s).0 ≡ err record_missing
  unfolding record_payment_event create_payment_event_or_read_existing insert_event
  taken_fails ctx input s x unknown taken = ground arith

  new_event_recorded :
      (ctx : Context) (input : RecordEventInput) (s : Store T)
      → event_of T input s ≡ none
      → find_payment_event_by_id T ctx.new_id s ≡ none
      → record_payment_event T ctx input s
        ≡ (ok (new_event ctx input), put_event T (new_event ctx input) s)
  unfolding record_payment_event create_payment_event_or_read_existing insert_event
  new_event_recorded ctx input s unknown fresh = ground arith

  transition_payment_event_status-processed :
      (other : String) (to : EventStatus) (text : Option String) (id : String) (e : PaymentEvent)
      (s : Store T)
      → find_payment_event_by_id T id s ≡ some e
      → e.status ≡ processed
      → find_payment_event_by_id T id
          (transition_payment_event_status T other is_unprocessed to text s).1
        ≡ some e
  unfolding transition_payment_event_status
  transition_payment_event_status-processed other to text id e s found h =
      elim (Option-cases (find_payment_event_by_id T other s)) [
        | inl absent ↦ ground arith
        | inr (x, there) ↦ elim (Bool-cases (is_unprocessed x.status)) [
          | inr closed ↦ ground arith
          | inl still ↦
              let named = T.events.find_unique-id other s.events x there in
              let differ : x.id ≢ id = λ k.
                let same : some x ≡ some e =
                  sym there ∙ ap (λ j. find_payment_event_by_id T j s) (sym named ∙ k) ∙ found in
                ground (arith, same) in
              ground (
                arith,
                T.events.find_unique-put_ne (record x { status = to; last_error = text }) id
                    s.events differ,
              )
        ]
      ]

  -- What has been recorded is there, for the event and with the payload of the call.
  recorded_matches :
      (ctx : Context) (input : RecordEventInput) (e : PaymentEvent) (s s' : Store T)
      → record_payment_event T ctx input s ≡ (ok e, s')
      → (event_of T input s' ≡ some e)
        × (e.event_type ≡ input.event_type)
        × (same_payload e.payload input.payload ≡ true)
  unfolding record_payment_event assert_same_payment_event_idempotency_target
  recorded_matches ctx input e s s' done = elim (Option-cases (event_of T input s)) [
    | inr (x, found) ↦ known x found
    | inl unknown ↦ elim (Option-cases (find_payment_event_by_id T ctx.new_id s)) [
      | inr (x, taken) ↦ absurd (ground (arith, taken_fails ctx input s x unknown taken))
      | inl fresh ↦
          let made = new_event_recorded ctx input s unknown fresh in
          let it : new_event ctx input ≡ e = ground (arith, sym made ∙ done) in
          let db_is : put_event T (new_event ctx input) s ≡ s' = ap (λ x. x.1) (sym made ∙ done) in
          let matches : is_event input (new_event ctx input) ≡ true =
            rw (eq_refl input.provider) (eq_refl input.event_id) in
          (
            ap (event_of T input) (sym db_is)
                ∙ find_first-put T.events (is_event input) (λ _. 0) (new_event ctx input) s.events
                    unknown matches
                ∙ ap some it,
            ap (λ x. x.event_type) (sym it),
            ap (λ x. same_payload x.payload input.payload) (sym it)
                ∙ same_payload-to_json input.payload,
          )
    ]
  ]
    where
      known :
          (x : PaymentEvent)
          → event_of T input s ≡ some x
          → (event_of T input s' ≡ some e)
            × (e.event_type ≡ input.event_type)
            × (same_payload e.payload input.payload ≡ true)
      known x found = elim (Bool-cases (x.event_type == input.event_type)) [
        | inr other ↦ absurd (ground arith)
        | inl type_is ↦ elim (Bool-cases (same_payload x.payload input.payload)) [
          | inr differs ↦ absurd (ground arith)
          | inl matches ↦
              let it : x ≡ e = ground arith in
              let db_is : s ≡ s' = ground arith in
              (
                ap (event_of T input) (sym db_is) ∙ found ∙ ap some it,
                ap (λ y. y.event_type) (sym it) ∙ (eq_iff x.event_type input.event_type).0 type_is,
                ap (λ y. same_payload y.payload input.payload) (sym it) ∙ matches,
              )
        ]
      ]

  -- An event is recorded once: after a call has returned an event, another delivery of it with the
  -- same provider, event id and type, whatever the clock, the new ids and the order of the entries
  -- in the objects of its payload, gets the same event back and changes nothing.
  pub record_payment_event-record_payment_event :
      (ctx ctx' : Context) (input : RecordEventInput) (payload : Json) (e : PaymentEvent)
      (s s' : Store T)
      → record_payment_event T ctx input s ≡ (ok e, s')
      → Reordered input.payload payload
      → record_payment_event T ctx' (record input { payload = payload }) s' ≡ (ok e, s')
  record_payment_event-record_payment_event ctx ctx' input payload e s s' done reordered =
      let (found, type_is, matches) = recorded_matches ctx input e s s' done in
      replay ctx' (record input { payload = payload }) s' e found type_is
        (same_payload-Reordered e.payload reordered matches)

  -- The calls that do not concern events.
  upsert_plan-events :
      (ctx : Context) (input : UpsertPlanInput) (s : Store T)
      → (upsert_plan T ctx input s).1.events ≡ s.events
  unfolding upsert_plan upsert_plan_row
  upsert_plan-events ctx input s =
      elim (Result-cases (parse_positive_bigint_string input.amount_minor)) [
        | inr (e, h) ↦ ground arith
        | inl (amount, h) ↦
            elim (Result-cases (parse_non_negative_bigint_string (or_zero input.credit_micros))) [
              | inr (e, g) ↦ ground arith
              | inl (credit, g) ↦ elim (Option-cases (plan_by_key T input s)) [
                | inl e ↦ ground arith
                | inr (p, e) ↦ ground arith
              ]
            ]
      ]

  delete_plan-events :
      (now : ℕ) (input : DeletePlanInput) (s : Store T)
      → (delete_plan T now input s).1.events ≡ s.events
  unfolding delete_plan
  delete_plan-events now input s = elim (Option-cases (find_plan_by_id T input.id s)) [
    | inl e ↦ ground arith
    | inr (p, e) ↦ ground arith
  ]

  restore_plan-events : (id : String) (s : Store T) → (restore_plan T id s).1.events ≡ s.events
  unfolding restore_plan
  restore_plan-events id s = elim (Option-cases (find_plan_by_id T id s)) [
    | inl e ↦ ground arith
    | inr (p, e) ↦ ground arith
  ]

  transition_order-events :
      (now : ℕ) (id : String) (from : OrderStatus → Bool) (to : OrderStatus) (s : Store T)
      → (transition_order T now id from to s).1.events ≡ s.events
  unfolding transition_order
  transition_order-events now id from to s = elim (Option-cases (find_order_by_id T id s)) [
    | inl e ↦ ground arith
    | inr (o, e) ↦ ground arith
  ]

  upsert_subscription-events :
      (ctx : Context) (input : UpsertSubscriptionInput) (s : Store T)
      → (upsert_subscription T ctx input s).1.events ≡ s.events
  unfolding upsert_subscription
  upsert_subscription-events ctx input s = elim (Option-cases (subscription_of T input s)) [
    | inl e ↦ ground arith
    | inr (p, e) ↦ ground arith
  ]

  upsert_provider-events :
      (ctx : Context) (input : UpsertProviderInput) (s : Store T)
      → (upsert_provider T ctx input s).1.events ≡ s.events
  unfolding upsert_provider
  upsert_provider-events ctx input s = elim (Option-cases (find_provider_by_key T input.key s)) [
    | inl e ↦ ground arith
    | inr (p, e) ↦ ground arith
  ]

  delete_provider-events :
      (key : String) (s : Store T) → (delete_provider T key s).1.events ≡ s.events
  unfolding delete_provider
  delete_provider-events key s = elim (Option-cases (find_provider_by_key T key s)) [
    | inl e ↦ ground arith
    | inr (p, e) ↦ ground arith
  ]

  Step-processed :
      {s t : Store T} (id : String) (e : PaymentEvent)
      → Step T s t
      → find_payment_event_by_id T id s ≡ some e
      → e.status ≡ processed
      → find_payment_event_by_id T id t ≡ some e
  Step-processed {s} id e (plan ctx input) found h =
      ap (T.events.find_unique id) (upsert_plan-events ctx input s) ∙ found
  Step-processed {s} id e (drop_plan now input) found h =
      ap (T.events.find_unique id) (delete_plan-events now input s) ∙ found
  Step-processed {s} id e (revive_plan p) found h =
      ap (T.events.find_unique id) (restore_plan-events p s) ∙ found
  Step-processed {s} id e (order ctx input) found h = elim (create_order_cases T ctx input s) [
    | inl same ↦ ap (find_payment_event_by_id T id) same ∙ found
    | inr c ↦ ap (find_payment_event_by_id T id) c.written ∙ found
  ]
  Step-processed {s} id e (confirm now o) found h =
      ap (find_payment_event_by_id T id) (mark_order_confirming-transition T now o s)
      ∙ ap (T.events.find_unique id) (transition_order-events now o is_pending confirming s)
      ∙ found
  Step-processed {s} id e (pay now o) found h =
      ap (find_payment_event_by_id T id) (mark_order_paid-transition T now o s)
      ∙ ap (T.events.find_unique id) (transition_order-events now o is_open paid s)
      ∙ found
  Step-processed {s} id e (refund ctx o input _) found h =
      elim (refund_order_atomically_cases T ctx o input s) [
        | inl same ↦ ap (find_payment_event_by_id T id) same ∙ found
        | inr g ↦ ap (find_payment_event_by_id T id) g.written ∙ found
      ]
  Step-processed {s} id e (subscribe ctx input) found h =
      ap (T.events.find_unique id) (upsert_subscription-events ctx input s) ∙ found
  Step-processed {s} id e (provider ctx input) found h =
      ap (T.events.find_unique id) (upsert_provider-events ctx input s) ∙ found
  Step-processed {s} id e (drop_provider key) found h =
      ap (T.events.find_unique id) (delete_provider-events key s) ∙ found
  Step-processed {s} id e (event ctx input) found h =
      elim (record_payment_event_cases ctx input s) [
        | inl same ↦ ap (find_payment_event_by_id T id) same ∙ found
        | inr (fresh, _, made) ↦
            let differ : ctx.new_id ≢ id =
              λ k. ground (arith, sym fresh ∙ ap (λ j. find_payment_event_by_id T j s) k ∙ found) in
            ap (λ x. find_payment_event_by_id T id x.1) made
            ∙ T.events.find_unique-put_ne (new_event ctx input) id s.events differ
            ∙ found
      ]
  Step-processed {s} id e (process other to text) found h =
      transition_payment_event_status-processed other to text id e s found h

  -- Whatever calls the database serves, in whatever order, an event that has been processed is never
  -- changed again.
  pub Reach-processed :
      {s t : Store T} (id : String) (e : PaymentEvent)
      → Reach T s t
      → find_payment_event_by_id T id s ≡ some e
      → e.status ≡ processed
      → find_payment_event_by_id T id t ≡ some e
  Reach-processed id e here found h = found
  Reach-processed id e (next r step) found h =
      Step-processed id e step (Reach-processed id e r found h) h
