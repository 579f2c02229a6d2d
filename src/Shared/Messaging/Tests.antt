-- ===== src/Shared/Messaging/Tests.antt =====
-- The consumer over a log of four messages, of which the second makes its handler raise.
use food_delivery_system.Base.{
  ℕ, suc, ◌≡◌, refl, true, false, not, Option, none, some, List, [], ◌∷◌, arith, ◌==◌, ltb,
  if◌then◌else◌,
}
use food_delivery_system.Shared.Messaging.{
  Incoming, Handler, handle, Kafka, IsKafka, ready, read, steps, poll_once, run_kafka,
}
use food_delivery_system.Shared.Messaging.Delivery.{ReadsOn, run_kafka-resumes, run_kafka-skips}

abbrev entry : ℕ → Option (Incoming ℕ ℕ)
entry n = if ltb n 4 then some (record { topic = 0; value = some n }) else none

-- A position and a committed offset.
abbrev polled : Option (Incoming ℕ ℕ) → ℕ → ℕ → Option (Incoming ℕ ℕ × (ℕ × ℕ))
polled none position committed = none
polled (some m) position committed = some (m, (suc position, committed))

abbrev small_kafka : Kafka (Incoming ℕ ℕ)
small_kafka = record {
  Client = ℕ × ℕ;
  poll = λ c. polled (entry c.0) c.0 c.1;
  commit = λ c. (c.0, c.0);
  restart = λ c. (c.1, c.1);
}

reads_entry :
    (o : Option (Incoming ℕ ℕ)) (p q : ℕ) (d : ℕ × ℕ) (m : Incoming ℕ ℕ)
    → polled o p q ≡ some (m, d)
    → o ≡ some m
reads_entry none p q d m e = cc
reads_entry (some x) p q d m e = ground (arith, e)

moves_on :
    (o : Option (Incoming ℕ ℕ)) (p q : ℕ) (d : ℕ × ℕ) (m : Incoming ℕ ℕ)
    → polled o p q ≡ some (m, d)
    → (d.0 ≡ suc p) × (d.1 ≡ q)
moves_on none p q d m e = cc
moves_on (some x) p q d m e = (ground (arith, e), ground (arith, e))

abbrev small_kafka-IsKafka : IsKafka small_kafka
small_kafka-IsKafka = record {
  position = λ c. c.0;
  committed = λ c. c.1;
  log = entry;
  reads = λ c d m. reads_entry (entry c.0) c.0 c.1 d m;
  advances = λ c d m e. (moves_on (entry c.0) c.0 c.1 d m e).0;
  keeps = λ c d m e. (moves_on (entry c.0) c.0 c.1 d m e).1;
  commits = λ c. refl;
  stays = λ c. refl;
  resumes = λ c. refl;
}

abbrev parsed : ℕ → Option ℕ
parsed raw = some raw

abbrev collect : ℕ → Option (Handler ℕ (List ℕ))
collect topic = some (λ payload seen. (true, payload ∷ seen))

abbrev collect_but_one : ℕ → Option (Handler ℕ (List ℕ))
collect_but_one topic = some (λ payload seen. (not (payload == 1), payload ∷ seen))

never_raises : (topic raw : ℕ) (s : List ℕ) → (handle parsed collect topic raw s).0 ≡ true
unfolding handle
never_raises topic raw s = refl

-- Two rounds, and then one step: the third message waits for its handler, and comes again.
in_third :
    let (d, seen) = run_kafka small_kafka parsed collect 2 ((0, 0), []) in
    steps small_kafka parsed collect 1 (ready, d, seen)
    ≡ (read (some (record { topic = 0; value = some 2 })), (3, 2), 1 ∷ 0 ∷ [])
unfolding run_kafka poll_once steps handle
in_third = refl

run_kafka-resumes_example :
    let (d, seen) = run_kafka small_kafka parsed collect 2 ((0, 0), []) in
    let (stage, e, _) = steps small_kafka parsed collect 1 (ready, d, seen) in
    ReadsOn small_kafka small_kafka-IsKafka parsed collect stage e
run_kafka-resumes_example =
    run_kafka-resumes small_kafka small_kafka-IsKafka parsed collect 2 1 (0, 0) [] never_raises refl

raises : (handle parsed collect_but_one 0 1 []).0 ≡ false
unfolding handle
raises = refl

fine_after : (handle parsed collect_but_one 0 2 (handle parsed collect_but_one 0 1 []).1).0 ≡ true
unfolding handle
fine_after = refl

run_kafka-skips_example : (run_kafka small_kafka parsed collect_but_one 2 ((1, 1), [])).0.1 ≡ 3
unfolding run_kafka poll_once handle
run_kafka-skips_example =
    run_kafka-skips small_kafka small_kafka-IsKafka parsed collect_but_one (1, 1) (2, 1) (3, 1) [] 0
      0 1 2 refl raises refl fine_after
