-- ===== src/Reimbursements/Delivery.antt =====
-- Stripe delivers an event at least once: what a second delivery and a failed one do
-- (`process_stripe_event` of reimbursements/webhooks.py).
use papertrail.Base.{
  ◌≡◌, true, false, arith, Error, ok, raised, Text, text_eq_refl, is_blank, exists,
}
use papertrail.Database.{World, Env, M, atomic}
use papertrail.Reimbursements.Webhooks.{
  Event, handle, is_processed, mark_processed, process_once, process_stripe_event,
}

atomic_raised :
    {A : Type 0} (m : M A) (w : World) {e : Error}
    → (atomic m w).0 ≡ raised e
    → (atomic m w).1.db ≡ w.db
atomic_raised m w h = ground arith

-- A delivery whose processing raises leaves the whole database as it was, the marker of the event
-- included.
pub process_stripe_event_raised :
    (env : Env) (event : Event) (w : World) {e : Error}
    → (process_stripe_event env event w).0 ≡ raised e
    → (process_stripe_event env event w).1.db ≡ w.db
unfolding process_stripe_event
process_stripe_event_raised env event w h = atomic_raised (process_once env event) w h

is_processed-mark_processed :
    (id : Text) (w : World) → is_blank id ≡ false → is_processed id (mark_processed id w.db) ≡ true
unfolding is_processed mark_processed exists
is_processed-mark_processed id w h = ground (arith, text_eq_refl id)

-- Once an event with an id has been processed with success, every later delivery of it, in any
-- environment, succeeds and changes nothing.
pub process_stripe_event_idempotent :
    (env later : Env) (event : Event) (w : World)
    → is_blank event.id ≡ false
    → (process_stripe_event env event w).0 ≡ ok tt
    → let w' = (process_stripe_event env event w).1 in
      process_stripe_event later event w' ≡ (ok tt, w')
unfolding process_stripe_event
process_stripe_event_idempotent env later event w h k =
    ground (arith, is_processed-mark_processed event.id (handle env event.body w).1 h)
