-- ===== src/Core/MessageBroker/Channels.antt =====
-- Channels come and go with their subscribers.
use sync_engine.Base.{
  ℕ, ◌+◌, ◌≡◌, ◌≢◌, refl, String, true, Option, none, some, List, [], ◌∷◌, ◌++◌, arith, All, eq_iff,
  Option-cases, inl, inr,
}
use sync_engine.Base.Map
use sync_engine.Base.Map.Laws.{get-set, get-set_self, get-delete}
use sync_engine.Core.Types.{MessageType, SyncMessage}
use sync_engine.Core.MessageBroker.State.{
  Subscription, ChannelStats, MessageBroker, subscribers, create, subscribe, without, unsubscribe,
}
use sync_engine.Core.MessageBroker.Publish.{tally_of, with_tally, deliver, dispatch_to, publish}
use sync_engine.Core.MessageBroker.Delivery.{published}

module _ {ℓ} {A : Type ℓ} where
  -- Counts are kept for exactly the channels that exist, and a channel that exists has a subscriber.
  pub record IsValid (b : MessageBroker A) : Type ℓ where
    pub paired : (c : String) → Map.has b.channels c ≡ Map.has b.channel_stats c
    pub nonempty : (c : String) → Map.get b.channels c ≢ some []

  append-ne-nil : (xs : List (Subscription A)) (x : Subscription A) → xs ++ x ∷ [] ≢ []
  append-ne-nil [] x e = cc
  append-ne-nil (y ∷ xs) x e = cc

  pub subscribe-IsValid :
      (b : MessageBroker A) (sub : Subscription A) (now : ℕ)
      → IsValid b
      → IsValid (subscribe b sub now)
  unfolding subscribe
  subscribe-IsValid b sub now v = elim (Option-cases (Map.get b.channels sub.channel)) [
    | inl e ↦
        rw (e, subscribe)
          (record {
            paired = λ c. ground (
              arith,
              v.paired c,
              get-set b.channels sub.channel c (sub ∷ []),
              get-set b.channel_stats sub.channel c
                  (record { delivered = 0; dropped = 0; created_at = now }),
            );
            nonempty =
                λ c h. ground (arith, v.nonempty c, get-set b.channels sub.channel c (sub ∷ []));
          })
    | inr (subs, e) ↦
        rw (e, subscribe)
          (record {
            paired = λ c. ground (
              arith,
              v.paired c,
              eq_iff sub.channel c,
              get-set b.channels sub.channel c (subs ++ sub ∷ []),
            );
            nonempty = λ c h. ground (
              arith,
              v.nonempty c,
              append-ne-nil subs sub,
              get-set b.channels sub.channel c (subs ++ sub ∷ []),
            );
          })
  ]

  -- What unsubscribing leaves of a channel's set.
  left_over : MessageBroker A → Subscription A → List (Subscription A) → MessageBroker A
  left_over b sub [] = record b {
    channels = Map.delete b.channels sub.channel;
    channel_stats = Map.delete b.channel_stats sub.channel;
  }
  left_over b sub (s ∷ rest) = record b { channels = Map.set b.channels sub.channel (s ∷ rest) }

  left_over-IsValid :
      (b : MessageBroker A) (sub : Subscription A) (rest : List (Subscription A))
      → Map.has b.channels sub.channel ≡ true
      → IsValid b
      → IsValid (left_over b sub rest)
  unfolding left_over
  left_over-IsValid b sub [] e v = record {
    paired = λ c. ground (
      arith,
      v.paired c,
      get-delete b.channels sub.channel c,
      get-delete b.channel_stats sub.channel c,
    );
    nonempty = λ c h. ground (arith, v.nonempty c, get-delete b.channels sub.channel c);
  }
  left_over-IsValid b sub (s ∷ rest) e v = record {
    paired = λ c.
        ground
          (arith, v.paired c, eq_iff sub.channel c, get-set b.channels sub.channel c (s ∷ rest));
    nonempty = λ c h. ground (arith, v.nonempty c, get-set b.channels sub.channel c (s ∷ rest));
  }

  unsubscribe-left_over :
      (b : MessageBroker A) (sub : Subscription A) (subs : List (Subscription A))
      → Map.get b.channels sub.channel ≡ some subs
      → unsubscribe b sub ≡ left_over b sub (without sub.id subs)
  unfolding unsubscribe left_over
  unsubscribe-left_over b sub subs e = rw (e, unsubscribe) (ground arith)

  pub unsubscribe-IsValid :
      (b : MessageBroker A) (sub : Subscription A) → IsValid b → IsValid (unsubscribe b sub)
  unsubscribe-IsValid b sub v = elim (Option-cases (Map.get b.channels sub.channel)) [
    | inl e ↦ unfold unsubscribe in rw (e, unsubscribe) v
    | inr (subs, e) ↦
        rw (unsubscribe-left_over b sub subs e)
          (left_over-IsValid b sub (without sub.id subs) (rw e) v)
  ]

  dispatch_to-IsValid :
      (b : MessageBroker A) (m : SyncMessage A) (subs : List (Subscription A))
      (stats : Option ChannelStats)
      → Map.get b.channel_stats m.channel ≡ stats
      → IsValid b
      → IsValid (dispatch_to b m subs stats).0
  unfolding dispatch_to
  dispatch_to-IsValid b m [] none e v = v
  dispatch_to-IsValid b m [] (some st) e v = record {
    paired = λ c. ground (
      arith,
      v.paired c,
      eq_iff m.channel c,
      get-set b.channel_stats m.channel c (record st { dropped = st.dropped + 1 }),
    );
    nonempty = v.nonempty;
  }
  dispatch_to-IsValid b m (s ∷ subs) none e v = v
  dispatch_to-IsValid b m (s ∷ subs) (some st) e v = record {
    paired = λ c. ground (
      arith,
      v.paired c,
      eq_iff m.channel c,
      get-set b.channel_stats m.channel c (with_tally st (deliver m (tally_of st) (s ∷ subs))),
    );
    nonempty = v.nonempty;
  }

  pub publish-IsValid :
      (b : MessageBroker A) (channel : String) (type : MessageType) (payload : A)
      (target : Option String) (id : String) (now : ℕ)
      → IsValid b
      → IsValid (publish b channel type payload target id now).0
  unfolding publish
  publish-IsValid b channel type payload target id now v =
      let m = published b channel type payload target id now in
      dispatch_to-IsValid _ m (subscribers b channel) (Map.get b.channel_stats channel) refl
        (record { paired = v.paired; nonempty = v.nonempty })

-- A call of the broker by its clients.
pub data Call {ℓ} (A : Type ℓ) : Type ℓ where
  subscribes : Subscription A → ℕ → Call A
  unsubscribes : Subscription A → Call A
  publishes : String → MessageType → A → Option String → String → ℕ → Call A

module _ {ℓ} {A : Type ℓ} where
  unfoldable pub step : MessageBroker A → Call A → MessageBroker A
  step b (subscribes sub now) = subscribe b sub now
  step b (unsubscribes sub) = unsubscribe b sub
  step b (publishes channel type payload target id now) =
      (publish b channel type payload target id now).0

  unfoldable pub run : MessageBroker A → List (Call A) → MessageBroker A
  run b [] = b
  run b (c ∷ cs) = run (step b c) cs

  step-IsValid : (b : MessageBroker A) (c : Call A) → IsValid b → IsValid (step b c)
  unfolding step
  step-IsValid b (subscribes sub now) v = subscribe-IsValid b sub now v
  step-IsValid b (unsubscribes sub) v = unsubscribe-IsValid b sub v
  step-IsValid b (publishes channel type payload target id now) v =
      publish-IsValid b channel type payload target id now v

  run_keeps : (b : MessageBroker A) (cs : List (Call A)) → IsValid b → IsValid (run b cs)
  unfolding run
  run_keeps b [] v = v
  run_keeps b (c ∷ cs) v = run_keeps (step b c) cs (step-IsValid b c v)

  create-IsValid : (node_id : String) (size : ℕ) → IsValid (create {A = A} node_id size)
  unfolding create Map.get
  create-IsValid node_id size = record { paired = λ c. refl; nonempty = λ c e. cc }

  -- After any calls of a new broker, counts are kept for exactly the channels that exist, and every
  -- channel that exists has a subscriber.
  pub run-IsValid :
      (node_id : String) (size : ℕ) (cs : List (Call A)) → IsValid (run (create node_id size) cs)
  run-IsValid node_id size cs = run_keeps (create node_id size) cs (create-IsValid node_id size)

  -- Where counts are kept for exactly the channels that exist, a message to a channel without
  -- subscribers is counted nowhere: the counts of every channel are as before.
  pub undelivered_uncounted :
      (b : MessageBroker A) (channel : String) (type : MessageType) (payload : A)
      (target : Option String) (id : String) (now : ℕ)
      → IsValid b
      → Map.get b.channels channel ≡ none
      → (publish b channel type payload target id now).0.channel_stats ≡ b.channel_stats
  unfolding publish
  undelivered_uncounted b channel type payload target id now v e =
      let no_stats : Map.get b.channel_stats channel ≡ none = ground (arith, v.paired channel) in
      rw (e, no_stats, dispatch_to) refl

  without-snoc :
      (id : String) (subs : List (Subscription A)) (s : Subscription A)
      → s.id ≡ id
      → All (λ (x : Subscription A). x.id ≢ id) subs
      → without id (subs ++ s ∷ []) ≡ subs
  unfolding without
  without-snoc id [] s e a = ground (arith, eq_iff s.id id)
  without-snoc id (x ∷ subs) s e a = ground (arith, eq_iff x.id id, without-snoc id subs s e a.1)

  channels-subscribe :
      (b : MessageBroker A) (sub : Subscription A) (now : ℕ)
      → (subscribe b sub now).channels
        ≡ Map.set b.channels sub.channel (subscribers b sub.channel ++ sub ∷ [])
  unfolding subscribe
  channels-subscribe b sub now = ground arith

  get-left_over :
      (b b1 : MessageBroker A) (sub : Subscription A) (rest : List (Subscription A)) (c : String)
      → IsValid b
      → subscribers b sub.channel ≡ rest
      → b1.channels ≡ Map.set b.channels sub.channel (rest ++ sub ∷ [])
      → Map.get (left_over b1 sub rest).channels c ≡ Map.get b.channels c
  unfolding left_over
  get-left_over b b1 sub [] c v e p = rw p (
      ground (
        arith,
        e,
        v.nonempty sub.channel,
        eq_iff sub.channel c,
        get-delete (Map.set b.channels sub.channel (sub ∷ [])) sub.channel c,
        get-set b.channels sub.channel c (sub ∷ []),
      ))
  get-left_over b b1 sub (s ∷ rest) c v e p = rw p (
      ground (
        arith,
        e,
        eq_iff sub.channel c,
        get-set (Map.set b.channels sub.channel (s ∷ rest ++ sub ∷ [])) sub.channel c (s ∷ rest),
        get-set b.channels sub.channel c (s ∷ rest ++ sub ∷ []),
      ))

  -- In a broker that keeps counts for exactly its channels and no channel without subscribers,
  -- unsubscribing undoes a subscription under an identifier new to its channel: each channel has the
  -- subscribers, in their order, that it had before.
  pub unsubscribe-subscribe :
      (b : MessageBroker A) (sub : Subscription A) (now : ℕ)
      → IsValid b
      → All (λ (x : Subscription A). x.id ≢ sub.id) (subscribers b sub.channel)
      → (c : String)
      → Map.get (unsubscribe (subscribe b sub now) sub).channels c ≡ Map.get b.channels c
  unsubscribe-subscribe b sub now v fresh c =
      let b1 = subscribe b sub now in
      let subs = subscribers b sub.channel in
      let p = channels-subscribe b sub now in
      let stored : Map.get b1.channels sub.channel ≡ some (subs ++ sub ∷ []) =
        rw p (get-set_self b.channels sub.channel (subs ++ sub ∷ [])) in
      rw
        (
          unsubscribe-left_over b1 sub (subs ++ sub ∷ []) stored,
          without-snoc sub.id subs sub refl fresh,
        )
        (get-left_over b b1 sub subs c v refl p)
