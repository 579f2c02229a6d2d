-- ===== src/Shared/Messaging.antt =====
-- shared/messaging.py: the consumer. The broker's client is a parameter with what its documentation says of offsets;
-- how a raw message is parsed and unwrapped, and the handlers of a service over its state, are arguments.
pub mod Delivery
mod Tests
use food_delivery_system.Base.{ℕ, suc, ◌≡◌, Bool, true, false, Option, none, some, if◌then◌else◌}

-- What came on a topic; a tombstone has no value.
pub record Incoming (Topic Raw : Type 0) : Type 0 where
  pub topic : Topic
  pub value : Option Raw

-- A handler that raises says `false`. What it committed before it raised stays.
abbrev pub Handler : Type 0 → Type 0 → Type 0
Handler Payload State = Payload → State → Bool × State

module _ {Payload State : Type 0} where
  abbrev pub run_handler : Option (Handler Payload State) → Payload → State → Bool × State
  run_handler none payload s = (true, s)
  run_handler (some handler) payload s = handler payload s

  abbrev pub handle_parsed : Option (Handler Payload State) → Option Payload → State → Bool × State
  handle_parsed handler none s = (true, s)
  handle_parsed handler (some payload) s = run_handler handler payload s

module _ {Topic Raw Payload State : Type 0} where
  -- `_handle`, with `_dispatch`: whether to acknowledge, and the state
  unfoldable pub handle :
      (Raw → Option Payload)
      → (Topic → Option (Handler Payload State))
      → Topic
      → Raw
      → State
      → Bool × State
  handle parse handlers topic raw s = handle_parsed (handlers topic) (parse raw) s

-- A Kafka consumer, as the loop uses it: the next message that has come, the commit of what was read, and a
-- restart of the process.
pub record Kafka (Message : Type 0) : Type 1 where
  pub Client : Type 0
  pub poll : Client → Option (Message × Client)
  pub commit : Client → Client
  pub restart : Client → Client

pub record IsKafka {Message : Type 0} (k : Kafka Message) : Type 0 where
  pub position : k.Client → ℕ
  pub committed : k.Client → ℕ
  pub log : ℕ → Option Message
  pub reads : (c d : k.Client) (m : Message) → k.poll c ≡ some (m, d) → log (position c) ≡ some m
  pub advances :
      (c d : k.Client) (m : Message) → k.poll c ≡ some (m, d) → position d ≡ suc (position c)
  pub keeps : (c d : k.Client) (m : Message) → k.poll c ≡ some (m, d) → committed d ≡ committed c
  pub commits : (c : k.Client) → committed (k.commit c) ≡ position c
  pub stays : (c : k.Client) → position (k.commit c) ≡ position c
  pub resumes : (c : k.Client) → position (k.restart c) ≡ committed c

-- Where the loop of `_run_kafka` stands: before it asks for a message, with what came, and with the answer
-- whether to commit.
pub data Stage (Message : Type 0) : Type 0 where
  ready : Stage Message
  read : Option Message → Stage Message
  answered : Bool → Stage Message

module _ {Topic Raw Payload State : Type 0} where
  module _ (k : Kafka (Incoming Topic Raw)) (parse : Raw → Option Payload)
      (handlers : Topic → Option (Handler Payload State)) where
    abbrev pub fetch :
        Option (Incoming Topic Raw × k.Client) → k.Client → Stage (Incoming Topic Raw) × k.Client
    fetch none c = (read none, c)
    fetch (some (m, d)) c = (read (some m), d)

    abbrev pub answer_value : Option Raw → Topic → State → Bool × State
    answer_value none topic s = (true, s)
    answer_value (some raw) topic s = handle parse handlers topic raw s

    -- Whether to commit: always for a tombstone, never when nothing came.
    abbrev pub answer : Option (Incoming Topic Raw) → State → Bool × State
    answer none s = (false, s)
    answer (some m) s = answer_value m.value m.topic s

    abbrev pub settle : Bool → k.Client → k.Client
    settle b c = if b then k.commit c else c

    -- One of the three steps of a round. The process may stop between any two.
    abbrev pub step :
        Stage (Incoming Topic Raw) × k.Client × State
        → Stage (Incoming Topic Raw) × k.Client × State
    step (ready, c, s) = let (stage, d) = fetch (k.poll c) c in (stage, d, s)
    step (read m, c, s) = let (b, s') = answer m s in (answered b, c, s')
    step (answered b, c, s) = (ready, settle b c, s)

    unfoldable pub steps :
        ℕ
        → Stage (Incoming Topic Raw) × k.Client × State
        → Stage (Incoming Topic Raw) × k.Client × State
    steps Prim.Native.Nat.zero x = x
    steps (suc n) x = steps n (step x)

    -- One round of the loop.
    unfoldable pub poll_once : k.Client × State → k.Client × State
    poll_once (c, s) = let (_, d, s') = step (step (step (ready, c, s))) in (d, s')

    -- The loop, for as many rounds as pass before the consumer stops.
    unfoldable pub run_kafka : ℕ → k.Client × State → k.Client × State
    run_kafka Prim.Native.Nat.zero x = x
    run_kafka (suc n) x = run_kafka n (poll_once x)

pub data Reply : Type 0 where
  ack nack : Reply

-- `_callback` of `_run_pubsub`
unfoldable pub on_pubsub :
    {Topic Raw Payload State : Type 0}
    → (Raw → Option Payload)
    → (Topic → Option (Handler Payload State))
    → Topic
    → Raw
    → State
    → Reply × State
on_pubsub parse handlers topic raw s =
    let r = handle parse handlers topic raw s in (if r.0 then ack else nack, r.1)
