-- ===== src/Console/Feed/Delivery.antt =====
-- console/_sse.py: what one subscriber of a broadcaster sees, whatever the others do.
use beam_agents.Base.{
  ℕ, ◌≤◌, ◌==◌, ◌≡◌, refl, sym, ap, ◌∙◌, str_eq, true, false, Bool-cases, inl, inr, Option, none,
  some, List, [], ◌∷◌, ◌++◌, map, All, arith, if◌then◌else◌,
}
use beam_agents.Console.Feed.{
  LiveEvent, RecordBatch, Subscriber, new_subscriber, Broadcaster, offer, offer_all, offered_to,
  fan_out, subscribe, discard, release, take_next, take_from, coalesce, publish, publish_batch,
  kind_lagged,
}
use beam_agents.Console.Feed.Mailbox.{
  Seen, see, IsSettled, fresh-IsSettled, offer-IsSettled, take_next-IsSettled, cons_assoc,
}
use beam_agents.Console.Feed.Coalesce.{IsPlain, coalesce-IsPlain}

-- what happens at a broadcaster
pub data FeedStep : Type 0 where
  publishes : LiveEvent → FeedStep
  publishes_batch : RecordBatch → FeedStep
  reads : (id : ℕ) → FeedStep
  connects : (id : ℕ) → FeedStep
  leaves : (id : ℕ) → FeedStep

-- a broadcaster, with what was published since `me` subscribed and what `me` has seen
pub record Session : Type 0 where
  pub feed : Broadcaster
  pub offered : List LiveEvent
  pub seen : Seen

pub find : ℕ → List (ℕ × Subscriber) → Option Subscriber
find id [] = none
find id ((j, s) ∷ rest) = if j == id then some s else find id rest

module _ (me : ℕ) where
  unfoldable pub step : FeedStep → Session → Session
  step (publishes event) x = record x {
    feed = publish event x.feed;
    offered = x.offered ++ event ∷ [];
  }
  step (publishes_batch batch) x = record x {
    feed = publish_batch batch x.feed;
    offered = x.offered ++ coalesce batch;
  }
  step (reads id) x =
      let (taken, left) = take_from id x.feed.subscribers in
      record x {
        feed = record x.feed { subscribers = left };
        seen = if id == me then see taken x.seen else x.seen;
      }
  step (connects id) x = record x { feed = subscribe id x.feed }
  step (leaves id) x = record x { feed = release id x.feed }

  unfoldable pub steps : List FeedStep → Session → Session
  steps [] x = x
  steps (c ∷ cs) x = steps cs (step c x)

  -- nobody publishes the marker itself, and the subscriber neither comes again nor leaves
  abbrev pub Stays : FeedStep → Type 0
  Stays (publishes event) = str_eq event.kind kind_lagged ≡ false
  Stays (publishes_batch batch) = Unit
  Stays (reads id) = Unit
  Stays (connects id) = (id == me) ≡ false
  Stays (leaves id) = (id == me) ≡ false

  pub record IsServed (x : Session) : Type 0 where
    pub mailbox : Subscriber
    pub connected : find me x.feed.subscribers ≡ some mailbox
    pub settled : IsSettled x.offered x.seen mailbox

  append_nil : (xs : List LiveEvent) → xs ++ [] ≡ xs
  append_nil [] = refl
  append_nil (x ∷ xs) = ap (λ r. x ∷ r) (append_nil xs)

  offer_all-IsSettled :
      (events offered : List LiveEvent) (seen : Seen) (s : Subscriber)
      → All IsPlain events
      → IsSettled offered seen s
      → IsSettled (offered ++ events) seen (offer_all events s)
  unfolding offer_all
  offer_all-IsSettled [] offered seen s tt h = rw (append_nil offered) h
  offer_all-IsSettled (e ∷ events) offered seen s (p, ps) h =
      rw (sym (cons_assoc offered e events)) (
        offer_all-IsSettled events (offered ++ e ∷ []) seen (offer e s) ps
          (offer-IsSettled offered seen e s p h))

  find-fan_out :
      (events : List LiveEvent) (subs : List (ℕ × Subscriber)) (s : Subscriber)
      → find me subs ≡ some s
      → find me (map (offered_to events) subs) ≡ some (offer_all events s)
  unfolding find
  find-fan_out events [] s h = cc
  find-fan_out events ((j, t) ∷ rest) s h = ground (arith, find-fan_out events rest s, h)

  find-take_other :
      (id : ℕ) (subs : List (ℕ × Subscriber))
      → (id == me) ≡ false
      → find me (take_from id subs).1 ≡ find me subs
  unfolding find take_from
  find-take_other id [] other = refl
  find-take_other id ((j, t) ∷ rest) other = ground (arith, find-take_other id rest other, other)

  find-take_same :
      (subs : List (ℕ × Subscriber)) (s : Subscriber)
      → find me subs ≡ some s
      → ((take_from me subs).0 ≡ (take_next s).0)
        × (find me (take_from me subs).1 ≡ some (take_next s).1)
  unfolding find take_from
  find-take_same [] s h = cc
  find-take_same ((j, t) ∷ rest) s h = ground (arith, find-take_same rest s, h)

  find-discard :
      (id : ℕ) (subs : List (ℕ × Subscriber))
      → (id == me) ≡ false
      → find me (discard id subs) ≡ find me subs
  unfolding find discard
  find-discard id [] other = refl
  find-discard id ((j, t) ∷ rest) other = ground (arith, find-discard id rest other, other)

  fan_out-IsServed :
      (events : List LiveEvent) (x : Session)
      → All IsPlain events
      → IsServed x
      → IsServed (record x { feed = fan_out events x.feed; offered = x.offered ++ events })
  unfolding fan_out
  fan_out-IsServed events x plain h = record {
    mailbox = offer_all events h.mailbox;
    connected = find-fan_out events x.feed.subscribers h.mailbox h.connected;
    settled = offer_all-IsSettled events x.offered x.seen h.mailbox plain h.settled;
  }

  read_own : (x : Session) → IsServed x → IsServed (step (reads me) x)
  unfolding step
  read_own x h =
      let (taken, left) = find-take_same x.feed.subscribers h.mailbox h.connected in
      let mine : (me == me) ≡ true = ground arith in
      rw (mine, taken)
        (record {
          mailbox = (take_next h.mailbox).1;
          connected = left;
          settled = take_next-IsSettled x.offered x.seen h.mailbox h.settled;
        })

  step-IsServed : (c : FeedStep) (x : Session) → Stays c → IsServed x → IsServed (step c x)
  unfolding step publish publish_batch subscribe release find
  step-IsServed (publishes event) x plain h = fan_out-IsServed (event ∷ []) x (plain, tt) h
  step-IsServed (publishes_batch batch) x stays h =
      fan_out-IsServed (coalesce batch) x (coalesce-IsPlain batch) h
  step-IsServed (connects id) x other h = record {
    mailbox = h.mailbox;
    connected = rw other h.connected;
    settled = h.settled;
  }
  step-IsServed (leaves id) x other h = record {
    mailbox = h.mailbox;
    connected = find-discard id x.feed.subscribers other ∙ h.connected;
    settled = h.settled;
  }
  step-IsServed (reads id) x stays h = elim (Bool-cases (id == me)) [
    | inl same ↦ (let at : id ≡ me = ground (arith, same) in rw at (read_own x h))
    | inr other ↦ rw other (record {
      mailbox = h.mailbox;
      connected = find-take_other id x.feed.subscribers other ∙ h.connected;
      settled = h.settled;
    })
  ]

  steps-IsServed :
      (cs : List FeedStep) (x : Session) → All Stays cs → IsServed x → IsServed (steps cs x)
  unfolding steps
  steps-IsServed [] x stays h = h
  steps-IsServed (c ∷ cs) x (here, stays) h =
      steps-IsServed cs (step c x) stays (step-IsServed c x here h)

  unfoldable pub subscribed : Broadcaster → Session
  unfolding subscribe
  subscribed b = record {
    feed = subscribe me b;
    offered = [];
    seen = record { events = []; told = 0 };
  }

  -- From the moment a reader subscribes, whatever is published, read, connected or disconnected
  -- around it: its queue stays within the depth, what it has seen and what waits for it is what was
  -- published in order but for the events it missed, those are counted by the markers it has seen
  -- and the drops it will be told of, and it never sleeps on either.
  pub subscribed-IsServed :
      (b : Broadcaster) (cs : List FeedStep)
      → 1 ≤ b.queue_depth
      → All Stays cs
      → IsServed (steps cs (subscribed b))
  unfolding subscribed subscribe find
  subscribed-IsServed b cs room stays = steps-IsServed cs (subscribed b) stays (record {
    mailbox = new_subscriber b.queue_depth;
    connected = ground arith;
    settled = fresh-IsSettled b.queue_depth room;
  })
