-- ===== src/Core/EventBus/DeadLetters.antt =====
-- Which envelopes the queue of src/core/event-bus.ts holds.
use mathlib.Core.List.{append_assoc, append-nil}
use sync_engine.Base.{
  ℕ, zero, suc, ◌-◌, ◌≤◌, ◌≡◌, refl, sym, ap, subst, ◌∙◌, inl, inr, String, Option, none, some,
  List, [], ◌∷◌, ◌++◌, arith, ltb, ◌==◌, length, shift, drop, length-append, length-drop,
  if◌then◌else◌, Option-cases, Bool-cases,
}
use sync_engine.Core.Value.{Fields}
use sync_engine.Core.EventBus.{
  EventBus, EventEnvelope, Emitter, passed, add_to_dead_letter, deliver, emit, envelope_of,
}

drop_all {ℓ} : {A : Type ℓ} (n : ℕ) (xs : List A) → length xs ≤ n → drop n xs ≡ []
drop_all zero [] le = refl
drop_all (suc n) [] le = refl
drop_all zero (x ∷ xs) le = absurd (omega (arith, le))
drop_all (suc n) (x ∷ xs) le = drop_all n xs (omega (arith, le))

shift-drop {ℓ} : {A : Type ℓ} (n : ℕ) (xs : List A) → shift (drop n xs) ≡ drop (suc n) xs
shift-drop zero [] = refl
shift-drop zero (x ∷ xs) = refl
shift-drop (suc n) [] = refl
shift-drop (suc n) (x ∷ xs) = shift-drop n xs

drop_before {ℓ} :
    {A : Type ℓ} (n : ℕ) (xs ys : List A) → n ≤ length xs → drop n (xs ++ ys) ≡ drop n xs ++ ys
drop_before zero xs ys le = refl
drop_before (suc n) [] ys le = absurd (omega (arith, le))
drop_before (suc n) (x ∷ xs) ys le = drop_before n xs ys (omega (arith, le))

-- The last elements of a list, as many as may be kept.
abbrev pub last_of {ℓ} : {A : Type ℓ} → ℕ → List A → List A
last_of max xs = drop (length xs - max) xs

module _ {A H E T : Type 0} (em : Emitter A H E T) where
  add_to_dead_letter-last_of :
      (max : ℕ) (xs : List (EventEnvelope A)) (e : EventEnvelope A)
      → add_to_dead_letter em max (last_of max xs) e ≡ last_of max (xs ++ e ∷ [])
  unfolding add_to_dead_letter
  add_to_dead_letter-last_of max xs e =
      let n : ℕ = length xs - max in
      let longer = length-append (drop n xs) (e ∷ []) in
      let left = length-drop n xs in
      let whole = length-append xs (e ∷ []) in
      let moved = drop_before n xs (e ∷ []) (omega arith) in
      elim (Bool-cases (ltb max (length (drop n xs ++ e ∷ [])))) [
        | inl t ↦
            let next : suc n ≡ length (xs ++ e ∷ []) - max =
              ground (arith, t, longer, left, whole) in
            rw t (
              ap shift (sym moved)
              ∙ shift-drop n (xs ++ e ∷ [])
              ∙ ap (λ k. drop k (xs ++ e ∷ [])) next)
        | inr t ↦
            let same : n ≡ length (xs ++ e ∷ []) - max = ground (arith, t, longer, left, whole) in
            rw t (sym moved ∙ ap (λ k. drop k (xs ++ e ∷ [])) same)
      ]

  -- One call of `emit`.
  pub record Emission : Type 0 where
    pub event : String
    pub payload : A
    pub source : String
    pub metadata : Option Fields
    pub id : String
    pub now : ℕ
    pub elapsed : ℕ

  abbrev emit_one : EventBus A E T → Emission → EventBus A E T
  emit_one s x = emit em s x.event x.payload x.source x.metadata x.id x.now x.elapsed

  unfoldable pub emit_all : EventBus A E T → List Emission → EventBus A E T
  unfolding emit
  emit_all s [] = s
  emit_all s (x ∷ xs) = emit_all (emit_one s x) xs

  -- The envelope as the middleware leaves it.
  abbrev pub sent_on : EventBus A E T → Emission → Option (EventEnvelope A)
  sent_on s x =
      passed em s.middleware (envelope_of em x.id x.event x.payload x.source x.now x.metadata)

  -- The envelope that nobody took: there is no listener, or one of them throws.
  abbrev pub undelivered :
      EventBus A E T → String → Option (EventEnvelope A) → List (EventEnvelope A)
  undelivered s event none = []
  undelivered s event (some e) =
      if em.listener_count s.emitter event == 0
      then e ∷ []
      else (if (em.emit s.emitter event e).1 then [] else e ∷ [])

  abbrev pub all_undelivered : EventBus A E T → List Emission → List (EventEnvelope A)
  all_undelivered s [] = []
  all_undelivered s (x ∷ xs) =
      undelivered s x.event (sent_on s x) ++ all_undelivered (emit_one s x) xs

  -- The queue holds the last ones of the envelopes, and its bound is this one.
  abbrev pub HoldsLast : EventBus A E T → ℕ → List (EventEnvelope A) → Type 0
  HoldsLast s max xs = (s.dead_letter_queue ≡ last_of max xs) × (s.max_dead_letters ≡ max)

  deliver-HoldsLast :
      (s : EventBus A E T) (event : String) (e : EventEnvelope A) (elapsed max : ℕ)
      (xs : List (EventEnvelope A))
      → HoldsLast s max xs
      → HoldsLast (deliver em s event e elapsed) max (xs ++ undelivered s event (some e))
  unfolding deliver
  deliver-HoldsLast s event e elapsed max xs (h, b) =
      let added : add_to_dead_letter em s.max_dead_letters s.dead_letter_queue e
          ≡ last_of max (xs ++ e ∷ []) =
        ap (λ n. add_to_dead_letter em n s.dead_letter_queue e) b
        ∙ ap (λ q. add_to_dead_letter em max q e) h
        ∙ add_to_dead_letter-last_of max xs e in
      elim (Bool-cases (em.listener_count s.emitter event == 0)) [
        | inl n ↦ rw (n, deliver) (added, b)
        | inr n ↦ elim (Bool-cases (em.emit s.emitter event e).1) [
          | inl f ↦ rw (n, deliver, f) (h ∙ ap (last_of max) (sym (append-nil xs)), b)
          | inr f ↦ rw (n, deliver, f) (added, b)
        ]
      ]

  emit_one-HoldsLast :
      (s : EventBus A E T) (x : Emission) (max : ℕ) (xs : List (EventEnvelope A))
      → HoldsLast s max xs
      → HoldsLast (emit_one s x) max (xs ++ undelivered s x.event (sent_on s x))
  unfolding emit
  emit_one-HoldsLast s x max xs h = elim (Option-cases (sent_on s x)) [
    | inl e ↦ rw (e, emit) (h.0 ∙ ap (last_of max) (sym (append-nil xs)), h.1)
    | inr (y, e) ↦ rw (e, emit) (deliver-HoldsLast s x.event y x.elapsed max xs h)
  ]

  emit_all-HoldsLast :
      (s : EventBus A E T) (xs : List Emission) (max : ℕ) (ys : List (EventEnvelope A))
      → HoldsLast s max ys
      → HoldsLast (emit_all s xs) max (ys ++ all_undelivered s xs)
  unfolding emit_all
  emit_all-HoldsLast s [] max ys h = (h.0 ∙ ap (last_of max) (sym (append-nil ys)), h.1)
  emit_all-HoldsLast s (x ∷ xs) max ys h =
      let first = undelivered s x.event (sent_on s x) in
      subst (HoldsLast (emit_all s (x ∷ xs)) max)
        (append_assoc ys first (all_undelivered (emit_one s x) xs))
        (emit_all-HoldsLast (emit_one s x) xs max (ys ++ first) (emit_one-HoldsLast s x max ys h))

  -- From a bus whose queue is empty, after any emissions: the dead letters are the most recent of the
  -- envelopes that passed the middleware and had no listener, or one that threw, as many as the bound
  -- allows, in the order of their emission.
  pub emit_all-last_of :
      (s : EventBus A E T) (xs : List Emission)
      → s.dead_letter_queue ≡ []
      → (emit_all s xs).dead_letter_queue ≡ last_of s.max_dead_letters (all_undelivered s xs)
  emit_all-last_of s xs empty =
      (emit_all-HoldsLast s xs s.max_dead_letters []
        (empty ∙ sym (drop_all (0 - s.max_dead_letters) [] (omega arith)), refl)).0
