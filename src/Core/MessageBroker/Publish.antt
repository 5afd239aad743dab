-- ===== src/Core/MessageBroker/Publish.antt =====
-- Publication in `MessageBroker` of src/core/message-broker.ts: delivery, its counts, and the buffer of
-- recent messages.
use sync_engine.Base.{
  ℕ, ◌+◌, ◌-◌, String, Bool, true, false, Option, none, some, List, [], ◌∷◌, ◌++◌, ◌==◌, length,
  drop, filter, str_eq, if◌then◌else◌, or_else,
}
use sync_engine.Base.Map
use sync_engine.Base.Map.{Map}
use sync_engine.Utils.RingBuffer
use sync_engine.Utils.RingBuffer.{RingBuffer}
use sync_engine.Core.Types.{MessageType, SyncMessage}
use sync_engine.Core.MessageBroker.State.{Subscription, ChannelStats, MessageBroker, subscribers}

-- What one subscriber does with a message: its filter turns it away, its handler takes it, or one of
-- the two throws.
pub data Outcome : Type 0 where
  skipped handled failed : Outcome

-- What a publication did: the counts, and the subscribers whose handlers were called.
pub record Tally : Type 0 where
  pub delivered : ℕ
  pub dropped : ℕ
  pub calls : List String

unfoldable pub attempt : Option (Unit {0}) → Outcome
attempt none = failed
attempt (some _) = handled

abbrev pub tally_of : ChannelStats → Tally
tally_of s = record { delivered = s.delivered; dropped = s.dropped; calls = [] }

abbrev pub with_tally : ChannelStats → Tally → ChannelStats
with_tally s t = record s { delivered = t.delivered; dropped = t.dropped }

abbrev pub no_tally : Tally
no_tally = record { delivered = 0; dropped = 0; calls = [] }

-- What the outcome of one round of the loop and its call of a handler, if it made one, add.
unfoldable pub add_outcome : Tally → Outcome × List String → Tally
add_outcome t (o, made) =
    let calls = t.calls ++ made in
    elim o [
      | skipped ↦ record t { calls = calls }
      | handled ↦ record t { delivered = t.delivered + 1; calls = calls }
      | failed ↦ record t { dropped = t.dropped + 1; calls = calls }
    ]

module _ {ℓ} {A : Type ℓ} where
  unfoldable pub next_sequence : MessageBroker A → String → MessageBroker A × ℕ
  next_sequence b channel =
      let next = or_else (Map.get b.sequence_counters channel) 0 + 1 in
      (record b { sequence_counters = Map.set b.sequence_counters channel next }, next)

  abbrev pub message_of :
      String → String → MessageType → A → Option String → String → ℕ → ℕ → SyncMessage A
  message_of node_id channel type payload target id now seq = record {
    id = id;
    type = type;
    channel = channel;
    source = node_id;
    target = target;
    payload = payload;
    timestamp = now;
    sequence = seq;
    ttl = 30000;
  }

  -- `sub.handler(message)`: what it does, and the call in the log.
  unfoldable pub call_handler : Subscription A → SyncMessage A → Outcome × List String
  unfolding attempt
  call_handler s m = (attempt (s.handler m), s.id ∷ [])

  -- `if (sub.filter && !sub.filter(message)) continue; handler(message)`, inside the `try`.
  unfoldable pub offer : Subscription A → SyncMessage A → Outcome × List String
  unfolding call_handler
  offer s m = elim s.filter [
    | none ↦ call_handler s m
    | some f ↦ elim (f m) [
      | none ↦ (failed, [])
      | some ok ↦ if ok then call_handler s m else (skipped, [])
    ]
  ]

  -- The loop over the subscribers, from the counts so far.
  unfoldable pub deliver : SyncMessage A → Tally → List (Subscription A) → Tally
  deliver m t [] = t
  deliver m t (s ∷ subs) = deliver m (add_outcome t (offer s m)) subs

  -- The body of `publish` once the message is made, from the channel's subscribers and counts. The
  -- flag says whether `message:published` is emitted.
  unfoldable pub dispatch_to :
      MessageBroker A
      → SyncMessage A
      → List (Subscription A)
      → Option ChannelStats
      → MessageBroker A × List String × Bool
  dispatch_to b m [] none = (b, [], false)
  dispatch_to b m [] (some s) = (
    record b {
      channel_stats = Map.set b.channel_stats m.channel (record s { dropped = s.dropped + 1 });
    },
    [],
    false,
  )
  dispatch_to b m (s ∷ subs) none = (b, (deliver m no_tally (s ∷ subs)).calls, true)
  dispatch_to b m (s ∷ subs) (some st) =
      let t = deliver m (tally_of st) (s ∷ subs) in
      (
        record b { channel_stats = Map.set b.channel_stats m.channel (with_tally st t) },
        t.calls,
        true,
      )

  unfoldable pub dispatch : MessageBroker A → SyncMessage A → MessageBroker A × List String × Bool
  unfolding dispatch_to
  dispatch b m = dispatch_to b m (subscribers b m.channel) (Map.get b.channel_stats m.channel)

  unfoldable pub publish :
      MessageBroker A
      → String
      → MessageType
      → A
      → Option String
      → String
      → ℕ
      → MessageBroker A × List String × Bool
  unfolding dispatch next_sequence
  publish b channel type payload target id now =
      let (b', seq) = next_sequence b channel in
      let m = message_of b.node_id channel type payload target id now seq in
      dispatch (record b' { message_buffer = (RingBuffer.push b.message_buffer m).0 }) m

  -- `publishSync` keeps no counts.
  unfoldable pub publish_sync :
      MessageBroker A → String → MessageType → A → String → ℕ → MessageBroker A × List String
  unfolding next_sequence
  publish_sync b channel type payload id now =
      let (b', seq) = next_sequence b channel in
      let m = message_of b.node_id channel type payload none id now seq in
      (
        record b' { message_buffer = (RingBuffer.push b.message_buffer m).0 },
        (deliver m no_tally (subscribers b channel)).calls,
      )

  -- `broadcast`, given an identifier for each message: one publication for each channel.
  unfoldable pub broadcast_to :
      MessageBroker A
      → List String
      → MessageType
      → A
      → (String → String)
      → ℕ
      → MessageBroker A × List String
  unfolding publish_sync
  broadcast_to b [] type payload id_for now = (b, [])
  broadcast_to b (c ∷ cs) type payload id_for now =
      let (b', calls) = publish_sync b c type payload (id_for c) now in
      let later : MessageBroker A × List String = broadcast_to b' cs type payload id_for now in
      (later.0, calls ++ later.1)

  unfoldable pub broadcast :
      MessageBroker A → MessageType → A → (String → String) → ℕ → MessageBroker A × List String
  unfolding broadcast_to
  broadcast b type payload id_for now = broadcast_to b (Map.keys b.channels) type payload id_for now

  abbrev pub present : List (Option (SyncMessage A)) → List (SyncMessage A)
  present [] = []
  present (none ∷ ms) = present ms
  present (some m ∷ ms) = m ∷ present ms

  -- `all.filter(m => m.channel === channel).slice(-count)`: `slice(-0)` is the whole list. An
  -- `undefined` among the messages would make the filter throw; there is none in a valid buffer.
  unfoldable pub get_recent_messages : MessageBroker A → String → ℕ → List (SyncMessage A)
  get_recent_messages b channel count =
      let found =
        filter (λ (m : SyncMessage A). str_eq m.channel channel)
          (present (RingBuffer.to_array b.message_buffer)) in
      if count == 0 then found else drop (length found - count) found
