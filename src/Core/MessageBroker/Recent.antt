-- ===== src/Core/MessageBroker/Recent.antt =====
-- The buffer of recent messages. `push` refuses when the ring is full, and no call of the broker
-- takes a message out, so the buffer keeps the first messages and not the recent ones.
use sync_engine.Base.{
  ℕ, ◌<◌, ◌≡◌, refl, ◌∙◌, ap, ◌⊎◌, inl, inr, String, Bool, Option, some, List, [], ◌∷◌, ◌++◌, map,
  arith, length, filter, str_eq,
}
use sync_engine.Base.Map
use sync_engine.Utils.RingBuffer
use sync_engine.Utils.RingBuffer.Refine.{Repr, push_refines, to_array_refines}
use sync_engine.Core.Types.{MessageType, SyncMessage}
use sync_engine.Core.MessageBroker.State.{MessageBroker, subscribers, subscribe, unsubscribe}
use sync_engine.Core.MessageBroker.Publish.{publish, present, get_recent_messages}
use sync_engine.Core.MessageBroker.Delivery.{published, dispatch_to_keeps}
use sync_engine.Core.MessageBroker.Channels.{Call, subscribes, unsubscribes, publishes, step, run}

module _ {ℓ} {A : Type ℓ} where
  buffer-publish :
      (b : MessageBroker A) (channel : String) (type : MessageType) (payload : A)
      (target : Option String) (id : String) (now : ℕ)
      → (publish b channel type payload target id now).0.message_buffer
        ≡ (RingBuffer.push b.message_buffer (published b channel type payload target id now)).0
  unfolding publish
  buffer-publish b channel type payload target id now =
      (dispatch_to_keeps _ _ (subscribers b channel) (Map.get b.channel_stats channel)).1

  -- In a broker whose buffer represents a queue, a publication is recorded after the messages before it exactly while the buffer has room; once
  -- it is full the buffer stays as it is.
  pub publish_recorded :
      (b : MessageBroker A) (q : List (SyncMessage A)) (channel : String) (type : MessageType)
      (payload : A) (target : Option String) (id : String) (now : ℕ)
      → Repr b.message_buffer q
      → let b' = (publish b channel type payload target id now).0 in
        ((length q < b.message_buffer.capacity)
          × Repr b'.message_buffer (q ++ published b channel type payload target id now ∷ []))
        ⊎ ((length q ≡ b.message_buffer.capacity) × (b'.message_buffer ≡ b.message_buffer))
  publish_recorded b q channel type payload target id now v =
      let m = published b channel type payload target id now in
      let same = buffer-publish b channel type payload target id now in
      elim (push_refines m v) [
        | inl (full, e) ↦
            inr (full, same ∙ ap (λ (r : RingBuffer.RingBuffer (SyncMessage A) × Bool). r.0) e)
        | inr (free, _, v') ↦ inl (free, rw same v')
      ]

  present-some : (q : List (SyncMessage A)) → present (map some q) ≡ q
  present-some [] = refl
  present-some (m ∷ q) = rw (present-some q)

  -- With a count of 0 the recent messages of a channel are all its messages that the buffer holds.
  pub recent_from_queue :
      (b : MessageBroker A) (q : List (SyncMessage A)) (channel : String)
      → Repr b.message_buffer q
      → get_recent_messages b channel 0 ≡ filter (λ (m : SyncMessage A). str_eq m.channel channel) q
  unfolding get_recent_messages
  recent_from_queue b q channel v = rw ((to_array_refines v).0, present-some q)

  buffer-step :
      (b : MessageBroker A) (q : List (SyncMessage A)) (c : Call A)
      → Repr b.message_buffer q
      → length q ≡ b.message_buffer.capacity
      → (step b c).message_buffer ≡ b.message_buffer
  unfolding step
  buffer-step b q (subscribes sub now) v full = unfold subscribe in ground arith
  buffer-step b q (unsubscribes sub) v full = unfold unsubscribe in ground arith
  buffer-step b q (publishes channel type payload target id now) v full =
      elim (publish_recorded b q channel type payload target id now v) [
        | inl (free, _) ↦ absurd (omega arith)
        | inr (_, e) ↦ e
      ]

  recent-buffer :
      (b b' : MessageBroker A) (channel : String) (count : ℕ)
      → b'.message_buffer ≡ b.message_buffer
      → get_recent_messages b' channel count ≡ get_recent_messages b channel count
  unfolding get_recent_messages
  recent-buffer b b' channel count e = rw e

  -- Once a buffer that represents a queue is full, no subscription, unsubscription or publication
  -- changes what `getRecentMessages` returns.
  pub recent_frozen :
      (b : MessageBroker A) (q : List (SyncMessage A)) (cs : List (Call A)) (channel : String)
      (count : ℕ)
      → Repr b.message_buffer q
      → length q ≡ b.message_buffer.capacity
      → get_recent_messages (run b cs) channel count ≡ get_recent_messages b channel count
  unfolding run
  recent_frozen b q [] channel count v full = refl
  recent_frozen b q (c ∷ cs) channel count v full =
      let same = buffer-step b q c v full in
      recent_frozen (step b c) q cs channel count (rw same v) (rw same full)
      ∙ recent-buffer b (step b c) channel count same
