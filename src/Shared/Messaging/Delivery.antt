-- ===== src/Shared/Messaging/Delivery.antt =====
-- What the offsets of the Kafka loop promise.
use food_delivery_system.Base.{
  ℕ, suc, ◌+◌, ◌≡◌, refl, ap, sym, ◌∙◌, Bool, true, false, Option, none, some, arith, Option-cases,
  inl, inr,
}
use food_delivery_system.Shared.Messaging.{
  Incoming, Handler, handle, Kafka, IsKafka, Stage, ready, read, answered, fetch, answer, settle,
  step, steps, poll_once, run_kafka,
}

module _ {Topic Raw Payload State : Type 0} (k : Kafka (Incoming Topic Raw)) (laws : IsKafka k)
    (parse : Raw → Option Payload) (handlers : Topic → Option (Handler Payload State)) where
  -- Every message is acknowledged.
  abbrev pub NeverRaises : Type 0
  NeverRaises =
      (topic : Topic) (raw : Raw) (s : State) → (handle parse handlers topic raw s).0 ≡ true

  -- Where a process that is started again reads on, by the stage at which it had stopped: at the message
  -- that was read, until the commit after its handler; otherwise behind everything that was read.
  unfoldable pub ReadsOn : Stage (Incoming Topic Raw) → k.Client → Type 0
  ReadsOn ready c = laws.position (k.restart c) ≡ laws.position c
  ReadsOn (read none) c = laws.position (k.restart c) ≡ laws.position c
  ReadsOn (read (some m)) c =
      (laws.log (laws.position (k.restart c)) ≡ some m)
      × (laws.position c ≡ suc (laws.position (k.restart c)))
  ReadsOn (answered false) c = laws.position (k.restart c) ≡ laws.position c
  ReadsOn (answered true) c = laws.position c ≡ suc (laws.position (k.restart c))

  fetched-ReadsOn :
      (o : Option (Incoming Topic Raw × k.Client)) (c : k.Client)
      → k.poll c ≡ o
      → laws.position (k.restart c) ≡ laws.position c
      → let (stage, d) = fetch k parse handlers o c in ReadsOn stage d
  unfolding ReadsOn
  fetched-ReadsOn none c e h = h
  fetched-ReadsOn (some (m, d)) c e h =
      let same : laws.position (k.restart d) ≡ laws.position c =
        laws.resumes d ∙ laws.keeps c d m e ∙ sym (laws.resumes c) ∙ h in
      (ap laws.log same ∙ laws.reads c d m e, laws.advances c d m e ∙ ap suc (sym same))

  answered-ReadsOn :
      (m : Option (Incoming Topic Raw)) (c : k.Client) (s : State)
      → NeverRaises
      → ReadsOn (read m) c
      → ReadsOn (answered (answer k parse handlers m s).0) c
  unfolding ReadsOn
  answered-ReadsOn none c s good h = h
  answered-ReadsOn (some m) c s good h = elim (Option-cases m.value) [
    | inl tombstone ↦ rw tombstone h.1
    | inr (raw, e) ↦ rw (e, good m.topic raw s) h.1
  ]

  settled-ReadsOn :
      (b : Bool) (c : k.Client)
      → ReadsOn (answered b) c
      → ReadsOn ready (settle k parse handlers b c)
  unfolding ReadsOn
  settled-ReadsOn false c h = h
  settled-ReadsOn true c h = laws.resumes (k.commit c) ∙ laws.commits c ∙ sym (laws.stays c)

  step-ReadsOn :
      (stage : Stage (Incoming Topic Raw)) (c : k.Client) (s : State)
      → NeverRaises
      → ReadsOn stage c
      → let (next, d, _) = step k parse handlers (stage, c, s) in ReadsOn next d
  unfolding ReadsOn
  step-ReadsOn ready c s good h = fetched-ReadsOn (k.poll c) c refl h
  step-ReadsOn (read m) c s good h = answered-ReadsOn m c s good h
  step-ReadsOn (answered b) c s good h = settled-ReadsOn b c h

  steps-ReadsOn :
      (n : ℕ) (stage : Stage (Incoming Topic Raw)) (c : k.Client) (s : State)
      → NeverRaises
      → ReadsOn stage c
      → let (next, d, _) = steps k parse handlers n (stage, c, s) in ReadsOn next d
  unfolding steps
  steps-ReadsOn Prim.Native.Nat.zero stage c s good h = h
  steps-ReadsOn (suc n) stage c s good h =
      let (next, d, s') = step k parse handlers (stage, c, s) in
      steps-ReadsOn n next d s' good (step-ReadsOn stage c s good h)

  round-ReadsOn :
      (c : k.Client) (s : State)
      → NeverRaises
      → ReadsOn ready c
      → ReadsOn ready (poll_once k parse handlers (c, s)).0
  unfolding poll_once ReadsOn
  round-ReadsOn c s good h = elim (Option-cases (k.poll c)) [
    | inl idle ↦ rw idle h
    | inr ((m, d), polled) ↦ rw polled (
        settled-ReadsOn (answer k parse handlers (some m) s).0 d
          (answered-ReadsOn (some m) d s good (fetched-ReadsOn (some (m, d)) c polled h)))
  ]

  rounds-ReadsOn :
      (n : ℕ) (c : k.Client) (s : State)
      → NeverRaises
      → ReadsOn ready c
      → ReadsOn ready (run_kafka k parse handlers n (c, s)).0
  unfolding run_kafka poll_once
  rounds-ReadsOn Prim.Native.Nat.zero c s good h = h
  rounds-ReadsOn (suc n) c s good h =
      rounds-ReadsOn n (poll_once k parse handlers (c, s)).0 (poll_once k parse handlers (c, s)).1
        good (round-ReadsOn c s good h)

  -- While no handler raises, a process that began with everything read committed, and stops after any number
  -- of rounds and any number of steps of the round after them, continues at the message that was read last
  -- when its handler has not returned or its offset is not committed yet, and behind everything that was
  -- read otherwise: so no message is passed over before its handler returned, and only one can come twice.
  pub run_kafka-resumes :
      (n i : ℕ) (c : k.Client) (s : State)
      → NeverRaises
      → laws.committed c ≡ laws.position c
      → let (d, s') = run_kafka k parse handlers n (c, s) in
        let (stage, e, _) = steps k parse handlers i (ready, d, s') in ReadsOn stage e
  unfolding ReadsOn
  run_kafka-resumes n i c s good h =
      let (d, s') = run_kafka k parse handlers n (c, s) in
      steps-ReadsOn i ready d s' good (rounds-ReadsOn n c s good (laws.resumes c ∙ h))

  -- A message whose handler raised is lost if the next one is handled: after these two rounds a restarted process
  -- reads on behind both of them.
  pub run_kafka-skips :
      (c d e : k.Client) (s : State) (topic other : Topic) (raw next : Raw)
      → k.poll c ≡ some (record { topic = topic; value = some raw }, d)
      → (handle parse handlers topic raw s).0 ≡ false
      → k.poll d ≡ some (record { topic = other; value = some next }, e)
      → (handle parse handlers other next (handle parse handlers topic raw s).1).0 ≡ true
      → laws.position (k.restart (run_kafka k parse handlers 2 (c, s)).0) ≡ laws.position c + 2
  unfolding run_kafka poll_once
  run_kafka-skips c d e s topic other raw next first failed second handled =
      rw (first, failed, second, handled)
        (laws.resumes (k.commit e)
          ∙ laws.commits e
          ∙ omega (
            arith,
            laws.advances c d (record { topic = topic; value = some raw }) first,
            laws.advances d e (record { topic = other; value = some next }) second,
          ))
