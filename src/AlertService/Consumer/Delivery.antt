-- ===== src/AlertService/Consumer/Delivery.antt =====
-- The consumer over the store: what a claim does to Redis.
use server_monitor.Base.{String, Option, none, some, List, [], ◌∷◌, if◌then◌else◌}
use server_monitor.Times.{TimeFormat}
use server_monitor.RedisServer.{Redis, RedisLaws}
use server_monitor.AlertService.Event.{AlertEvent, validate_event}
use server_monitor.AlertService.Store.{Store, process}
use server_monitor.AlertService.Store.Outcomes.{is_none}
use server_monitor.AlertService.Store.View.{View, apply_event}
use server_monitor.AlertService.Consumer.{Message, Verdict, returned}

-- What the messages of a claim mean for the view: what is no JSON and what is invalid means nothing.
abbrev pub apply_decoded : TimeFormat → (AlertEvent → String) → Option AlertEvent → View → View
apply_decoded fmt encode none v = v
apply_decoded fmt encode (some event) v =
    if is_none (validate_event event) then apply_event fmt event (encode event) v else v

abbrev pub apply_messages :
    TimeFormat → (AlertEvent → String) → (String → Option AlertEvent) → List Message → View → View
apply_messages fmt encode unmarshal [] v = v
apply_messages fmt encode unmarshal (m ∷ ms) v =
    apply_messages fmt encode unmarshal ms (apply_decoded fmt encode (unmarshal m.value) v)

module _ (R : Redis) (L : RedisLaws R) (fmt : TimeFormat) (encode : AlertEvent → String)
    (unmarshal : String → Option AlertEvent) (c : Store) where
  open R use {State}

  abbrev pub marshal : AlertEvent → Option String
  marshal e = some (encode e)

  -- (*Store).Process as the processor of the consumer.
  abbrev pub store_processor : AlertEvent → State → Verdict × State
  store_processor event s =
      let p = process R fmt marshal (some c) event s in (returned p.error, p.redis)
