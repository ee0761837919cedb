-- ===== src/Lib.antt =====
-- server-monitor: the logic of its services, with what makes it correct.
--
-- The program is a monitoring system of three services in Go. The probe (server-probe) exports
-- figures of a host to Prometheus. The web service (server-web) answers the API: it reads hosts
-- and metrics from Prometheus, keeps users, alert rules and the history of alerts in MySQL, takes
-- the webhooks of Alertmanager, sends each alert that is new to Kafka and to the clients of its
-- WebSocket hub, and shows the state of the alerts from Redis. The alert service (alert-service)
-- consumes the events from Kafka and keeps that state in Redis. What follows is the path of an
-- alert from the webhook to the state that is shown, the doors that the API has, and the parts of
-- the web service and the probe that compute something of their own.
--
-- Which file models which part:
--   * AlertService/Event: the event and its fingerprint, the Redis keys and the checks of
--     alert-service/alert/processor.go and alert-service/kafka/event.go
--   * AlertService/Scripts: the Lua scripts of alert-service/redis/client.go and their rollback,
--     on the Redis server of RedisServer; AlertService/Store: alert-service/alert/store.go
--   * AlertService/Consumer: alert-service/kafka/consumer.go, a claim being a list of messages
--   * WebAlerts: server-web/alert/service.go. Webhook is HandleWebhook, History the rows that it
--     archives, Cache what it needs of Redis, Queries what the API reads back
--   * WebRedis: server-web/redis/client.go, the client that fills that interface, and the request
--     window with its transaction
--   * Auth: server-web/auth (Token, Accounts) and the guards of server-web/api/middleware (auth.go,
--     rbac.go). Auth/Toy is a codec and a table of users to run them with
--   * Sockets: server-web/websocket/hub.go; what the hub is told, by whichever goroutine, is a
--     list of steps
--   * Hosts: server-web/host/service.go and the cache in front of it
--   * Prometheus: server-web/prometheus, from the answers of the server to the list of hosts
--     (HostList; Merged and Listed say what is in it), and the queries (Queries, Range)
--   * Rules: the checks and the rendering of server-web/api/handlers/alert_rules.go; Rules/Sync
--     writes the rules file, Rules/Routes are the routes on the table of rules
--   * Channels: the checks of server-web/api/handlers/channels.go and the addresses that its test
--     of a channel dials
--   * HostGroups: the routes of server-web/api/handlers/host_groups.go on the two tables of
--     server-web/model/host_group.go. Database is what the tables are relied on for, Memory one that
--     runs; Filter is the group that a request for hosts names
--   * Config: pkg/configutil/env.go (Env) and the config packages of server-web (Web), alert-service
--     (Consumer) and server-probe (Probe), with the checks of addresses that they share. Start is
--     what the main packages make of a configuration; Sample is one to run
--   * RateLimit: server-web/api/middleware/ratelimit.go around the window of WebRedis
--   * PubSub: the reconnecting loop of server-web/pubsub/subscriber.go, and in PubSub/Hub the steps of
--     hub.go; Shutdown: pkg/shutdown/shutdown.go
--   * Collector: addCounterDelta of server-probe/collector/network.go and disk.go
--   * Base, Errors, Times: texts, maps, numbers, sorting, Go errors and times
--   * RedisServer: what Redis keeps under a key. RedisServer/Memory is one that runs
-- In each, the Tests module runs the code on concrete inputs.
--
-- How the code becomes definitions:
--   * A struct is a record and a method a function of the state that answers with the next state.
--     A context, a logger and a metric are left out.
--   * An error is a value of GoError: a message, or a message around another error; fmt.Errorf
--     with %w is `wrapped`. A nil error is `none`, and a result with an error is a Result.
--   * A Go string is a text of Unicode characters, and `len` counts its bytes in UTF-8. Texts that
--     are no valid UTF-8 are not modelled.
--   * A map is a list of keys with values that has each key once. The order in which Go goes
--     through a map is the order of that list.
--   * A time is a number of nanoseconds, a duration an integer of them. Sums of them do not wrap:
--     the program's are far below 2^63. A product of a configured number and a unit wraps.
--   * Library code is a parameter, a record of functions with its documented laws as fields: the
--     Redis server, HMAC, base64 and JSON, bcrypt, the tables behind gorm, floating-point
--     numbers, for the rules file the operating system, promtool and Prometheus, and for the
--     channels the packages net and net/url.
--   * A call that breaks off is a parameter as well: the scripts and the window take which of
--     their commands fail.
--
-- Bounds. The loop over the brackets of a rule's expression runs on fuel, as many turns as the
-- expression has characters: a turn goes beyond a bracket, so the fuel is never used up before the
-- text. Printing a number takes 20 digits, enough below 2^64, which is what a user's id is.
-- All other functions are by recursion on what they read: a loop that waits for events is a function
-- of the list of events.
--
-- Not modelled: the other routes and the JSON of all, the other collectors of the
-- probe, the wiring of the processes. Concurrency
-- is modelled where the program orders it, by the hub's steps and by Redis' transactions, and not
-- within a goroutine's own work.
pub mod AlertService
pub mod Auth
pub mod Base
pub mod Channels
pub mod Collector
pub mod Config
pub mod Errors
pub mod HostGroups
pub mod Hosts
pub mod Prometheus
pub mod PubSub
pub mod RateLimit
pub mod RedisServer
pub mod Rules
pub mod Shutdown
pub mod Sockets
pub mod Times
pub mod WebAlerts
pub mod WebRedis
