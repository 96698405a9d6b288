-- ===== src/Notifications/Worker/Outcome.antt =====
-- What `processItem` does to the queue, whatever the server refuses and the senders answer.
use mathlib.Core.Path.{subst}
use incident_garden.Prelude.{
  String, ◌+◌, ◌<◌, ◌≡◌, refl, sym, ap, ◌∙◌, ◌⊎◌, inl, inr, Bool, true, false, ◌&&◌, not, Option,
  none, some, List, [], ◌∷◌, ◌++◌, arith, leb, update_where, Bool-cases,
}
use incident_garden.Domain.{Uuid}
use incident_garden.Store.{Result, ok, err}
use incident_garden.Notifications.Payload.{ChannelType, NotificationChannel, Notification}
use incident_garden.Notifications.Queue.{
  QueueItem, SendError, Mail, is_item, get_channel, mark_as_sent, mark_as_failed, mark_for_retry,
  as_sent, as_failed, for_retry,
}
use incident_garden.Notifications.Queue.Effects.{
  refusals, Same, Sets, set_row-Sets, get_channel-Same,
}
use incident_garden.Notifications.Worker.{
  Worker, Rendered, message, render_error, is_retryable, answer, send_to_channel,
  calculate_next_attempt, handle_send_error, after_send, send_item, on_channel, process_item,
}

module _ {F : Type 0} where
  -- What may become of an item's row: it stays as it is only where the server refuses a statement;
  -- it is sent; it is given up; or it waits for another attempt, which its limit allows, at the time
  -- that the back-off gives.
  pub data Change (w : Worker F) (item : QueueItem) (m : Mail)
      : (QueueItem → QueueItem) → Type 0 where
    unmarked : refusals m.faults ≡ true → Change w item m (λ row. row)
    delivered : Change w item m (as_sent m.now)
    given_up : (reason : String) → Change w item m (as_failed reason m.now)
    retried :
        (reason : String)
        → item.attempts + 1 < item.max_attempts
        → Change w item m
            (for_retry reason (calculate_next_attempt w (item.attempts + 1) m.now) m.now)

  -- One item's row is changed, no other row is, and the senders are called at most once.
  pub record Processes (w : Worker F) (item : QueueItem) (m m' : Mail) : Type 0 where
    pub change : QueueItem → QueueItem
    pub becomes : Change w item m change
    pub queue : m'.queue ≡ update_where (is_item item.id) change m.queue
    pub called : (m'.calls ≡ m.calls) ⊎ ((n : Notification) × (m'.calls ≡ m.calls ++ n ∷ []))
    pub now : m'.now ≡ m.now
    pub fewer : (refusals m'.faults && not (refusals m.faults)) ≡ false

update_where_same : (i : Uuid) (q : List QueueItem) → update_where (is_item i) (λ row. row) q ≡ q
update_where_same i [] = refl
update_where_same i (x ∷ xs) = ground (arith, update_where_same i xs)

-- What has happened before the row is marked.
record Reached (m m' : Mail) : Type 0 where
  queue : m'.queue ≡ m.queue
  called : (m'.calls ≡ m.calls) ⊎ ((n : Notification) × (m'.calls ≡ m.calls ++ n ∷ []))
  now : m'.now ≡ m.now
  fewer : (refusals m'.faults && not (refusals m.faults)) ≡ false

refused_before :
    (a b : List Bool)
    → (refusals b && not (refusals a)) ≡ false
    → refusals b ≡ true
    → refusals a ≡ true
refused_before a b h k = ground (arith, Bool-cases (refusals a))

fewer_trans :
    (a b c : List Bool)
    → (refusals b && not (refusals a)) ≡ false
    → (refusals c && not (refusals b)) ≡ false
    → (refusals c && not (refusals a)) ≡ false
fewer_trans a b c h k =
    ground (arith, Bool-cases (refusals a), Bool-cases (refusals b), Bool-cases (refusals c))

called_on :
    (m m' m'' : Mail)
    → m''.calls ≡ m'.calls
    → (m'.calls ≡ m.calls) ⊎ ((n : Notification) × (m'.calls ≡ m.calls ++ n ∷ []))
    → (m''.calls ≡ m.calls) ⊎ ((n : Notification) × (m''.calls ≡ m.calls ++ n ∷ []))
called_on m m' m'' e (inl h) = inl (e ∙ h)
called_on m m' m'' e (inr (n, h)) = inr (n, e ∙ h)

Same-Reached : (m m' : Mail) → Same m m' → Reached m m'
Same-Reached m m' s = record { queue = s.queue; called = inl s.calls; now = s.now; fewer = s.fewer }

module _ {F : Type 0} (w : Worker F) (item : QueueItem) where
  marked :
      (f : QueueItem → QueueItem) (m m' m'' : Mail)
      → Reached m m'
      → Change w item m f
      → Sets item.id f m' m''
      → Processes w item m m''
  marked f m m' m'' r c s = elim s.queue [
    | inl set ↦ record {
      change = f;
      becomes = c;
      queue = set ∙ ap (update_where (is_item item.id) f) r.queue;
      called = called_on m m' m'' s.calls r.called;
      now = s.now ∙ r.now;
      fewer = fewer_trans m.faults m'.faults m''.faults r.fewer s.fewer;
    }
    | inr (kept, refused) ↦ record {
      change = λ row. row;
      becomes = unmarked (refused_before m.faults m'.faults r.fewer refused);
      queue = kept ∙ r.queue ∙ sym (update_where_same item.id m.queue);
      called = called_on m m' m'' s.calls r.called;
      now = s.now ∙ r.now;
      fewer = fewer_trans m.faults m'.faults m''.faults r.fewer s.fewer;
    }
  ]

  mark_as_failed-Processes :
      (reason : String) (m m' : Mail)
      → Reached m m'
      → Processes w item m (mark_as_failed item.id reason m').1
  unfolding mark_as_failed
  mark_as_failed-Processes reason m m' r =
      marked (as_failed reason m'.now) m m' _ r
        (subst (λ t. Change w item m (as_failed reason t)) (sym r.now) (given_up reason))
        (set_row-Sets item.id (as_failed reason m'.now) m')

  mark_as_sent-Processes :
      (m m' : Mail) → Reached m m' → Processes w item m (mark_as_sent item.id m').1
  unfolding mark_as_sent
  mark_as_sent-Processes m m' r =
      marked (as_sent m'.now) m m' _ r
        (subst (λ t. Change w item m (as_sent t)) (sym r.now) delivered)
        (set_row-Sets item.id (as_sent m'.now) m')

  mark_for_retry-Processes :
      (reason : String) (m m' : Mail)
      → item.attempts + 1 < item.max_attempts
      → Reached m m'
      → Processes w item m
          (mark_for_retry item.id reason (calculate_next_attempt w (item.attempts + 1) m'.now) m').1
  unfolding mark_for_retry
  mark_for_retry-Processes reason m m' under r =
      marked _ m m' _ r
        (subst
          (λ t.
            Change w item m (for_retry reason (calculate_next_attempt w (item.attempts + 1) t) t))
          (sym r.now) (retried reason under))
        (set_row-Sets item.id _ m')

  handle_send_error-Processes :
      (e : SendError) (m m' : Mail)
      → Reached m m'
      → Processes w item m (handle_send_error w item e m')
  unfolding handle_send_error
  handle_send_error-Processes e m m' r = elim (Bool-cases (not (is_retryable e))) [
    | inl fatal ↦ rw fatal (mark_as_failed-Processes e.message m m' r)
    | inr again ↦ elim (Bool-cases (leb item.max_attempts (item.attempts + 1))) [
      | inl spent ↦ rw (again, spent) (mark_as_failed-Processes _ m m' r)
      | inr under ↦
          rw (again, under) (mark_for_retry-Processes e.message m m' (ground (arith, under)) r)
    ]
  ]

  after_send-Processes :
      (m : Mail) (r : Option SendError × Mail)
      → Reached m r.1
      → Processes w item m (after_send w item r)
  unfolding after_send
  after_send-Processes m (none, m') h = mark_as_sent-Processes m m' h
  after_send-Processes m (some e, m') h = handle_send_error-Processes e m m' h

  answer-Reached :
      (xs : List (Option SendError)) (n : Notification) (m m' : Mail)
      → Same m m'
      → Reached m (answer xs n m').1
  unfolding answer
  answer-Reached [] n m m' s = record {
    queue = s.queue;
    called = inr (n, ground (arith, s.calls));
    now = s.now;
    fewer = s.fewer;
  }
  answer-Reached (a ∷ xs) n m m' s = record {
    queue = s.queue;
    called = inr (n, ground (arith, s.calls));
    now = s.now;
    fewer = s.fewer;
  }

  send_to_channel-Reached :
      (t : ChannelType) (n : Notification) (m m' : Mail)
      → Same m m'
      → Reached m (send_to_channel w t n m').1
  unfolding send_to_channel
  send_to_channel-Reached t n m m' s = elim (Bool-cases (w.has_sender t)) [
    | inl there ↦ rw there (answer-Reached m'.answers n m m' s)
    | inr missing ↦ rw missing (Same-Reached m m' s)
  ]

  send_item-Processes :
      (channel : NotificationChannel) (r : Rendered) (m m' : Mail)
      → Same m m'
      → Processes w item m (send_item w item channel r m')
  unfolding send_item
  send_item-Processes channel (render_error text) m m' s =
      mark_as_failed-Processes text m m' (Same-Reached m m' s)
  send_item-Processes channel (message subject body) m m' s =
      after_send-Processes m _ (send_to_channel-Reached channel.type _ m m' s)

  on_channel-Processes :
      (m : Mail) (r : Result NotificationChannel × Mail)
      → Same m r.1
      → Processes w item m (on_channel w item r)
  unfolding on_channel
  on_channel-Processes m (err e, m') s =
      mark_as_failed-Processes (w.error_text e) m m' (Same-Reached m m' s)
  on_channel-Processes m (ok channel, m') s = elim (Bool-cases (not channel.is_verified)) [
    | inl unverified ↦
        rw unverified (mark_as_failed-Processes "channel not verified" m m' (Same-Reached m m' s))
    | inr verified ↦ elim (Bool-cases (not channel.is_enabled)) [
      | inl disabled ↦
          rw (verified, disabled)
            (mark_as_failed-Processes "channel disabled" m m' (Same-Reached m m' s))
      | inr enabled ↦
          rw (verified, enabled)
            (send_item-Processes channel (w.render channel.type item.payload) m m' s)
    ]
  ]

-- Whatever the server refuses and the senders answer, handling an item changes its row alone and
-- calls a sender at most once. The row is sent, is given up, or waits for another attempt, which its
-- limit allows, at the time that the back-off gives; it stays as it is only where the server has
-- refused a statement.
pub process_item-Processes :
    {F : Type 0} (w : Worker F) (item : QueueItem) (m : Mail)
    → Processes w item m (process_item w item m)
unfolding process_item
process_item-Processes w item m =
    on_channel-Processes w item m (get_channel item.channel_id m)
      (get_channel-Same item.channel_id m)
