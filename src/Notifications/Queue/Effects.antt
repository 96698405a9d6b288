-- ===== src/Notifications/Queue/Effects.antt =====
-- What a statement on the queue leaves, whether the server carries it out or refuses it.
use incident_garden.Prelude.{
  ◌≡◌, refl, ap, ◌⊎◌, inl, inr, Bool, true, false, ◌&&◌, not, Option, none, some, List, [], ◌∷◌,
  arith, any, update_where,
}
use incident_garden.Domain.{Uuid}
use incident_garden.Store.{Result, ok, channel_not_found}
use incident_garden.Notifications.Payload.{NotificationChannel}
use incident_garden.Notifications.Queue.{
  QueueItem, QueueReply, rows, no_rows, Mail, is_item, settle, attempt, statement, set_row,
  get_channel,
}

-- Some statement to come is refused.
abbrev pub refusals : List Bool → Bool
refusals fs = any (λ b. b) fs

-- The queue, the calls and the clock are as they were, and no refusal has been added.
pub record Same (m m' : Mail) : Type 0 where
  pub queue : m'.queue ≡ m.queue
  pub calls : m'.calls ≡ m.calls
  pub now : m'.now ≡ m.now
  pub fewer : (refusals m'.faults && not (refusals m.faults)) ≡ false

-- A row is changed, or the statement is refused.
pub record Sets (i : Uuid) (f : QueueItem → QueueItem) (m m' : Mail) : Type 0 where
  pub queue :
      (m'.queue ≡ update_where (is_item i) f m.queue)
      ⊎ ((m'.queue ≡ m.queue) × (refusals m.faults ≡ true))
  pub calls : m'.calls ≡ m.calls
  pub now : m'.now ≡ m.now
  pub fewer : (refusals m'.faults && not (refusals m.faults)) ≡ false

attempt-Sets :
    (i : Uuid) (f : QueueItem → QueueItem) (fs : List Bool) (m : Mail)
    → m.faults ≡ fs
    → Sets i f m (attempt fs (rows tt (update_where (is_item i) f m.queue)) m).1
unfolding attempt settle
attempt-Sets i f [] m e = record {
  queue = inl refl;
  calls = refl;
  now = refl;
  fewer = ground (arith, e);
}
attempt-Sets i f (false ∷ fs) m e = record {
  queue = inl refl;
  calls = refl;
  now = refl;
  fewer = ground (arith, e);
}
attempt-Sets i f (true ∷ fs) m e = record {
  queue = inr (refl, ground (arith, e));
  calls = refl;
  now = refl;
  fewer = ground (arith, e);
}

pub set_row-Sets : (i : Uuid) (f : QueueItem → QueueItem) (m : Mail) → Sets i f m (set_row i f m).1
unfolding set_row statement
set_row-Sets i f m = attempt-Sets i f m.faults m refl

abbrev channel_reply : Option NotificationChannel → List QueueItem → QueueReply NotificationChannel
channel_reply o q = elim o [ none ↦ no_rows channel_not_found | some row ↦ rows row q ]

attempt-Same :
    (o : Option NotificationChannel) (fs : List Bool) (m : Mail)
    → m.faults ≡ fs
    → Same m (attempt fs (channel_reply o m.queue) m).1
unfolding attempt settle
attempt-Same none [] m e = record {
  queue = refl;
  calls = refl;
  now = refl;
  fewer = ground (arith, e);
}
attempt-Same none (false ∷ fs) m e = record {
  queue = refl;
  calls = refl;
  now = refl;
  fewer = ground (arith, e);
}
attempt-Same none (true ∷ fs) m e = record {
  queue = refl;
  calls = refl;
  now = refl;
  fewer = ground (arith, e);
}
attempt-Same (some c) [] m e = record {
  queue = refl;
  calls = refl;
  now = refl;
  fewer = ground (arith, e);
}
attempt-Same (some c) (false ∷ fs) m e = record {
  queue = refl;
  calls = refl;
  now = refl;
  fewer = ground (arith, e);
}
attempt-Same (some c) (true ∷ fs) m e = record {
  queue = refl;
  calls = refl;
  now = refl;
  fewer = ground (arith, e);
}

pub get_channel-Same : (c : Uuid) (m : Mail) → Same m (get_channel c m).1
unfolding get_channel statement
get_channel-Same c m = attempt-Same _ m.faults m refl

rest : List Bool → List Bool
rest [] = []
rest (b ∷ bs) = bs

attempt_served :
    {A : Type 0} (fs : List Bool) (a : A) (q : List QueueItem) (m : Mail)
    → refusals fs ≡ false
    → m.faults ≡ fs
    → attempt fs (rows a q) m ≡ (ok a, record m { queue = q; faults = rest fs })
unfolding attempt settle rest
attempt_served [] a q m h e = ap (λ fs. (ok a, record m { queue = q; faults = fs })) e
attempt_served (false ∷ fs) a q m h e = refl
attempt_served (true ∷ fs) a q m h e = cc

rest_served : (fs : List Bool) → refusals fs ≡ false → refusals (rest fs) ≡ false
unfolding rest
rest_served [] h = refl
rest_served (b ∷ bs) h = ground arith

-- A statement that the server carries out.
pub record Serves {A : Type 0} (a : A) (q : List QueueItem) (m : Mail) (r : Result A × Mail)
    : Type 0 where
  pub after : Mail
  pub result : r ≡ (ok a, after)
  pub queue : after.queue ≡ q
  pub calls : after.calls ≡ m.calls
  pub served : refusals after.faults ≡ false

pub statement-Serves :
    {A : Type 0} (f : List QueueItem → QueueReply A) (a : A) (q : List QueueItem) (m : Mail)
    → f m.queue ≡ rows a q
    → refusals m.faults ≡ false
    → Serves a q m (statement f m)
unfolding statement
statement-Serves f a q m e h = record {
  after = record m { queue = q; faults = rest m.faults };
  result = rw e (attempt_served m.faults a q m h refl);
  queue = refl;
  calls = refl;
  served = rest_served m.faults h;
}

settle-eq-ok :
    {A : Type 0} (r : QueueReply A) (m : Mail) {a : A} {m' : Mail}
    → settle r m ≡ (ok a, m')
    → r ≡ rows a m'.queue
unfolding settle
settle-eq-ok (rows b q) m h = ground arith
settle-eq-ok (no_rows e) m h = cc

attempt-eq-ok :
    {A : Type 0} (fs : List Bool) (r : QueueReply A) (m : Mail) {a : A} {m' : Mail}
    → attempt fs r m ≡ (ok a, m')
    → r ≡ rows a m'.queue
unfolding attempt
attempt-eq-ok [] r m h = settle-eq-ok r m h
attempt-eq-ok (false ∷ fs) r m h = settle-eq-ok r (record m { faults = fs }) h
attempt-eq-ok (true ∷ fs) r m h = cc

-- A statement that returns has returned what it computes from the queue.
pub statement-eq-ok :
    {A : Type 0} (f : List QueueItem → QueueReply A) (m : Mail) {a : A} {m' : Mail}
    → statement f m ≡ (ok a, m')
    → f m.queue ≡ rows a m'.queue
unfolding statement
statement-eq-ok f m h = attempt-eq-ok m.faults (f m.queue) m h
