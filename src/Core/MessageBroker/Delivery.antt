-- ===== src/Core/MessageBroker/Delivery.antt =====
-- Who gets a message, what is counted, and which numbers the messages have.
use mathlib.Core.List.{append-nil, append_assoc}
use mathlib.Core.Option
use native.Mathlib.Nat.{add-zero}
use sync_engine.Base.{
  ℕ, ◌+◌, ◌≡◌, ◌≢◌, refl, ◌∙◌, ap, String, Bool, true, false, Option, none, some, List, [], ◌∷◌,
  ◌++◌, map, arith, length, filter, str_eq, eq_iff, if◌then◌else◌, or_else, inl, inr, ◌&&◌, ◌||◌,
  not, is_some, Option-cases,
}
use sync_engine.Base.Map
use sync_engine.Base.Map.Laws.{get-set, get-set_self}
use sync_engine.Utils.RingBuffer
use sync_engine.Core.Types.{MessageType, SyncMessage}
use sync_engine.Core.MessageBroker.State.{Subscription, ChannelStats, MessageBroker}
use sync_engine.Core.MessageBroker.Publish.{
  Tally, tally_of, with_tally, offer, add_outcome, deliver, dispatch_to, publish,
}

-- The answer of a filter lets the message through: there is no filter, or it returns true.
abbrev pub lets_through : Option (Option Bool) → Bool
lets_through none = true
lets_through (some (some true)) = true
lets_through _ = false

-- The filter throws.
abbrev pub has_thrown : Option (Option Bool) → Bool
has_thrown (some none) = true
has_thrown _ = false

module _ {ℓ} {A : Type ℓ} where
  abbrev pub filtered : SyncMessage A → Subscription A → Option (Option Bool)
  filtered m s = Option.map (λ (f : SyncMessage A → Option Bool). f m) s.filter

  -- The subscribers whose handlers are called, those of them whose handlers return, and those whose
  -- filters or handlers throw.
  abbrev pub is_reached : SyncMessage A → Subscription A → Bool
  is_reached m s = lets_through (filtered m s)

  abbrev pub takes : SyncMessage A → Subscription A → Bool
  takes m s = lets_through (filtered m s) && is_some (s.handler m)

  abbrev pub throws : SyncMessage A → Subscription A → Bool
  throws m s =
      has_thrown (filtered m s) || (lets_through (filtered m s) && not (is_some (s.handler m)))

  pub takers : SyncMessage A → List (Subscription A) → List (Subscription A)
  takers m = filter (takes m)

  pub throwers : SyncMessage A → List (Subscription A) → List (Subscription A)
  throwers m = filter (throws m)

  pub called : SyncMessage A → List (Subscription A) → List String
  called m subs = map (λ (s : Subscription A). s.id) (filter (is_reached m) subs)

  -- One round of the loop.
  add_outcome-offer :
      (m : SyncMessage A) (t : Tally) (s : Subscription A)
      → add_outcome t (offer s m) ≡ record {
        delivered = t.delivered + (if takes m s then 1 else 0);
        dropped = t.dropped + (if throws m s then 1 else 0);
        calls = t.calls ++ (if is_reached m s then s.id ∷ [] else []);
      }
  unfolding add_outcome offer
  add_outcome-offer m t s = elim (Option-cases s.filter) [
    | inl e ↦ elim (Option-cases (s.handler m)) [
      | inl h ↦ rw (e, offer, h) (ground (arith, e, h))
      | inr (u, h) ↦ rw (e, offer, h) (ground (arith, e, h))
    ]
    | inr (f, e) ↦ elim (Option-cases (f m)) [
      | inl g ↦ rw (e, offer, g) (ground (arith, e, g))
      | inr (true, g) ↦ elim (Option-cases (s.handler m)) [
        | inl h ↦ rw (e, offer, g, h) (ground (arith, e, g, h))
        | inr (u, h) ↦ rw (e, offer, g, h) (ground (arith, e, g, h))
      ]
      | inr (false, g) ↦ rw (e, offer, g) (ground (arith, e, g))
    ]
  ]

  deliver_lem :
      (m : SyncMessage A) (t : Tally) (subs : List (Subscription A))
      → deliver m t subs ≡ record {
        delivered = t.delivered + length (takers m subs);
        dropped = t.dropped + length (throwers m subs);
        calls = t.calls ++ called m subs;
      }
  unfolding deliver takers throwers called
  deliver_lem m t [] = rw (add-zero, add-zero, append-nil)
  deliver_lem m t (s ∷ subs) =
      ap (λ u. deliver m u subs) (add_outcome-offer m t s)
      ∙ deliver_lem m
          (record {
            delivered = t.delivered + (if takes m s then 1 else 0);
            dropped = t.dropped + (if throws m s then 1 else 0);
            calls = t.calls ++ (if is_reached m s then s.id ∷ [] else []);
          })
          subs
      ∙ ground (
        arith,
        append_assoc t.calls (s.id ∷ [])
            (map (λ (x : Subscription A). x.id) (filter (is_reached m) subs)),
        append_assoc t.calls [] (map (λ (x : Subscription A). x.id) (filter (is_reached m) subs)),
      )

  -- The message that a publication makes, under the number after the channel's last one.
  abbrev pub published :
      MessageBroker A → String → MessageType → A → Option String → String → ℕ → SyncMessage A
  published b channel type payload target id now = record {
    id = id;
    type = type;
    channel = channel;
    source = b.node_id;
    target = target;
    payload = payload;
    timestamp = now;
    sequence = or_else (Map.get b.sequence_counters channel) 0 + 1;
    ttl = 30000;
  }

  -- The subscribers of a channel, in the order of subscription.
  abbrev pub listed : MessageBroker A → String → List (Subscription A)
  listed b channel = or_else (Map.get b.channels channel) []

  -- What a publication adds to the counts of its channel, if they are kept: with no subscriber one
  -- drop, and else a delivery for each that takes the message and a drop for each that throws.
  abbrev pub counted : SyncMessage A → List (Subscription A) → ChannelStats → ChannelStats
  counted m [] s = record s { dropped = s.dropped + 1 }
  counted m (x ∷ subs) s = record s {
    delivered = s.delivered + length (takers m (x ∷ subs));
    dropped = s.dropped + length (throwers m (x ∷ subs));
  }

  dispatch_to_lem :
      (b : MessageBroker A) (m : SyncMessage A) (subs : List (Subscription A))
      (stats : Option ChannelStats)
      → Map.get b.channel_stats m.channel ≡ stats
      → ((dispatch_to b m subs stats).1 ≡ called m subs)
        × (Map.get (dispatch_to b m subs stats).0.channel_stats m.channel
            ≡ Option.map (counted m subs) stats)
        × ((j : String)
            → m.channel ≢ j
            → Map.get (dispatch_to b m subs stats).0.channel_stats j ≡ Map.get b.channel_stats j)
  unfolding dispatch_to
  dispatch_to_lem b m [] none e = (unfold called in refl, e, λ j ne. refl)
  dispatch_to_lem b m [] (some st) e = (
    unfold called in refl,
    get-set_self b.channel_stats m.channel _,
    λ j ne. ground (
      arith,
      eq_iff m.channel j,
      get-set b.channel_stats m.channel j (record st { dropped = st.dropped + 1 }),
    ),
  )
  dispatch_to_lem b m (s ∷ subs) none e = (rw deliver_lem refl, e, λ j ne. refl)
  dispatch_to_lem b m (s ∷ subs) (some st) e = (
    rw deliver_lem refl,
    get-set_self b.channel_stats m.channel _ ∙ rw deliver_lem refl,
    λ j ne. ground (
      arith,
      eq_iff m.channel j,
      get-set b.channel_stats m.channel j (with_tally st (deliver m (tally_of st) (s ∷ subs))),
    ),
  )

  pub dispatch_to_keeps :
      (b : MessageBroker A) (m : SyncMessage A) (subs : List (Subscription A))
      (stats : Option ChannelStats)
      → let b' = (dispatch_to b m subs stats).0 in
        (b'.sequence_counters ≡ b.sequence_counters)
        × (b'.message_buffer ≡ b.message_buffer)
        × (b'.channels ≡ b.channels)
  unfolding dispatch_to
  dispatch_to_keeps b m [] none = (refl, refl, refl)
  dispatch_to_keeps b m [] (some st) = (refl, refl, refl)
  dispatch_to_keeps b m (s ∷ subs) none = (refl, refl, refl)
  dispatch_to_keeps b m (s ∷ subs) (some st) = (refl, refl, refl)

  -- Where handlers and filters do not call the broker while the message is delivered, and return or
  -- throw by the message alone: a publication calls the handlers of exactly those subscribers of its
  -- channel that have no filter or whose filter returns true, in the order of subscription, also
  -- after one that throws; it adds to the counts of the channel a delivery for each of them that
  -- returns and a drop for each whose filter or handler throws (one drop if there is no subscriber),
  -- and to no other channel's; and the message has the number after the channel's last one, which
  -- becomes the last one of this channel alone.
  pub publish_effects :
      (b : MessageBroker A) (channel : String) (type : MessageType) (payload : A)
      (target : Option String) (id : String) (now : ℕ)
      → let m = published b channel type payload target id now in
        let subs = listed b channel in
        let (b', calls, _) = publish b channel type payload target id now in
        (calls ≡ called m subs)
        × (Map.get b'.channel_stats channel
            ≡ Option.map (counted m subs) (Map.get b.channel_stats channel))
        × ((j : String) → channel ≢ j → Map.get b'.channel_stats j ≡ Map.get b.channel_stats j)
        × ((j : String)
            → Map.get b'.sequence_counters j
              ≡ (if str_eq channel j then some m.sequence else Map.get b.sequence_counters j))
  unfolding publish
  publish_effects b channel type payload target id now =
      let m = published b channel type payload target id now in
      let subs = listed b channel in
      let b2 : MessageBroker A = record b {
        sequence_counters = Map.set b.sequence_counters channel m.sequence;
        message_buffer = (RingBuffer.push b.message_buffer m).0;
      } in
      let stats = Map.get b.channel_stats channel in
      let sent = dispatch_to_lem b2 m subs stats refl in
      (
        sent.0,
        sent.1,
        sent.2,
        λ j.
            ap (λ (c : Map.Map ℕ). Map.get c j) (dispatch_to_keeps b2 m subs stats).0
            ∙ get-set b.sequence_counters channel j m.sequence,
      )
