-- ===== src/Events/Delete/Failure.antt =====
-- What a deletion that fails leaves behind.
use incident_garden.Prelude.{
  ◌≡◌, ◌∙◌, ◌⊎◌, inl, inr, Bool, true, false, ◌&&◌, [], ◌∷◌, ◌++◌, arith, if◌then◌else◌,
}
use incident_garden.Domain.{Uuid, Event, is_scheduled}
use incident_garden.Store.{
  Error, Result, ok, err, World, event_cancelled, Action, pure, ◌>>=◌, finally, rollback, begin_tx,
  notify, after,
}
use incident_garden.Store.Steps.{Step}
use incident_garden.Store.Quiet.{
  Unseen, Unseen-IsPreorder, quiet_rules, Atomic, Atomic-finally, Atomic-bind, commit-Atomic,
}
use incident_garden.Events.Repository.Reads.{get_event-Unseen}
use incident_garden.Events.Repository.{get_event}
use incident_garden.Events.Delete.{delete_body, delete_event}

delete_body-Atomic : (e : Uuid) → Atomic (delete_body e)
unfolding delete_body
delete_body-Atomic e = search (quiet_rules, Atomic-bind, commit-Atomic) depth 7

-- The committed tables are as they were; at most the cancellation of the event has been announced.
pub record Announced (w w' : World) : Type 0 where
  pub same_db : w'.db ≡ w.db
  pub notices :
      (w'.notices ≡ w.notices)
      ⊎ ((event : Event) × (w'.notices ≡ w.notices ++ event_cancelled event ∷ []))

-- An action that, where it fails, has done no more than that.
record Lenient {A : Type 0} (m : Action A) : Type 0 where
  at : (w : World) (x : Error) → (m w).0 ≡ err x → Announced w (m w).1

Unseen-Announced : (w w' : World) → Unseen w w' → Announced w w'
Unseen-Announced w w' u = record { same_db = u.same_db; notices = inl u.same_notices }

Announced-after : (u v w : World) → Unseen u v → Announced v w → Announced u w
Announced-after u v w h k = record {
  same_db = k.same_db ∙ h.same_db;
  notices = elim k.notices [
    | inl none_sent ↦ inl (none_sent ∙ h.same_notices)
    | inr (event, sent) ↦ inr (event, ground (arith, sent, h.same_notices))
  ];
}

module _ {A B : Type 0} where
  Lenient-after :
      (r : Result A) (f : A → Action B) → ((a : A) → Lenient (f a)) → Lenient (after r f)
  unfolding after
  Lenient-after (ok a) f h = record { at = (h a).at }
  Lenient-after (err x) f h = record {
    at = λ w e p. Unseen-Announced w w (Unseen-IsPreorder.reflexive w);
  }

  Lenient-bind :
      (m : Action A) (f : A → Action B)
      → Step Unseen m
      → ((a : A) → Lenient (f a))
      → Lenient (m >>= f)
  unfolding ◌>>=◌
  Lenient-bind m f sm sf = record {
    at = λ w e h.
        let (r, w') = m w in
        Announced-after w w' (after r f w').1 (sm.at w) ((Lenient-after r f sf).at w' e h);
  }

-- The notice is sent, and then the transaction runs.
Lenient-notify :
    {A : Type 0} (c : Bool) (event : Event) (m : Action A)
    → Atomic m
    → Lenient ((if c then notify (event_cancelled event) else pure tt) >>= λ _. m)
unfolding ◌>>=◌ notify pure after
Lenient-notify true event m s = record {
  at = λ w e h.
      let sent = s.at (record w { notices = w.notices ++ event_cancelled event ∷ [] }) e h in
      record { same_db = sent.same_db; notices = inr (event, sent.same_notices) };
}
Lenient-notify false event m s = record { at = λ w e h. Unseen-Announced w (m w).1 (s.at w e h) }

deletion-Atomic : (e : Uuid) → Atomic (begin_tx >>= λ _. finally (delete_body e) rollback)
deletion-Atomic e = search (quiet_rules, delete_body-Atomic, Atomic-finally, Atomic-bind) depth 7

delete_event-Lenient : (b : Bool) (e : Uuid) → Lenient (delete_event b e)
unfolding delete_event
delete_event-Lenient b e = Lenient-bind (get_event e) _ (get_event-Unseen e) λ event.
    Lenient-bind _ _ (search quiet_rules) λ t.
      Lenient-notify (is_scheduled event.status && b && event.notify_subscribers) event _
        (deletion-Atomic e)

-- A deletion that fails leaves the committed tables as they were; it may have announced the
-- cancellation of an event, and has sent nothing else.
pub delete_event-Announced :
    (has_notifier : Bool) (e : Uuid) (w : World) (x : Error)
    → (delete_event has_notifier e w).0 ≡ err x
    → Announced w (delete_event has_notifier e w).1
delete_event-Announced b e = (delete_event-Lenient b e).at
