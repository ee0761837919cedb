-- ===== src/AlertService/Consumer.antt =====
-- alert-service/kafka/consumer.go: how one message of a claim is handled, and the loop over a claim.
-- Spans and log lines are left out. The processor may return an error or panic.
pub mod Marks
pub mod Delivery
use server_monitor.Base.{
  ℕ, String, Bool, true, false, Option, none, some, List, [], ◌∷◌, ◌==◌, if◌then◌else◌,
}
use server_monitor.Errors.{GoError, message, Result, ok, err}
use server_monitor.AlertService.Event.{AlertEvent}
use server_monitor.AlertService.Store.{is_permanent}

pub data MessageResult : Type 0 where
  message_processed message_invalid_json message_permanent_err message_process_error : MessageResult

pub record Message : Type 0 where
  pub offset : ℕ
  pub value : String

-- How a call of `Process` ends.
pub data Verdict : Type 0 where
  returned : Option GoError → Verdict
  panicked : Verdict

-- `ObserveKafkaMessage` is called once, if there is an observer; `MarkMessage` at most once.
pub record Handled (S : Type 0) : Type 0 where
  pub state : S
  pub result : MessageResult
  pub marked : Bool

-- NewConsumer's checks, before the client library is asked for a group
unfoldable pub check_consumer_args : List String → String → Bool → Option GoError
check_consumer_args [] group_id has_processor = some (message "kafka brokers is empty")
check_consumer_args (b ∷ bs) group_id has_processor =
    if group_id == ""
    then some (message "kafka group id is empty")
    else if has_processor
    then none
    else some (message "alert processor is required")

-- What a claim leaves: the state, each message's result, and the offsets marked, in order.
pub record Claim (S : Type 0) : Type 0 where
  pub final : S
  pub results : List MessageResult
  pub marks : List ℕ

module _ {S : Type 0} (unmarshal : String → Option AlertEvent)
    (processor : AlertEvent → S → Verdict × S) where
  after_process : Verdict → S → Handled S
  unfolding is_permanent
  after_process panicked s = record { state = s; result = message_process_error; marked = false }
  after_process (returned none) s = record { state = s; result = message_processed; marked = true }
  after_process (returned (some e)) s =
      if is_permanent e
      then record { state = s; result = message_permanent_err; marked = true }
      else record { state = s; result = message_process_error; marked = false }

  handle_event : Option AlertEvent → S → Handled S
  unfolding after_process
  handle_event none s = record { state = s; result = message_invalid_json; marked = true }
  handle_event (some event) s = let (verdict, t) = processor event s in after_process verdict t

  unfoldable pub process_message : Message → S → Handled S
  unfolding handle_event
  process_message msg s = handle_event (unmarshal msg.value) s

  -- ConsumeClaim: the messages in order, whatever became of those before
  unfoldable pub consume_claim : List Message → S → Claim S
  unfolding process_message
  consume_claim [] s = record { final = s; results = []; marks = [] }
  consume_claim (m ∷ ms) s =
      let h = process_message m s in
      let rest = consume_claim ms h.state in
      record {
        final = rest.final;
        results = h.result ∷ rest.results;
        marks = if h.marked then m.offset ∷ rest.marks else rest.marks;
      }
