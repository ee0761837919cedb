-- ===== src/AlertService/Consumer/Marks.antt =====
-- Which offsets a claim marks, and what that means for the offset that Kafka commits.
use server_monitor.Base.{
  ℕ, ◌<◌, String, ◌≡◌, ◌≢◌, refl, Bool, true, false, Option, none, some, List, [], ◌∷◌, arith, All,
  if◌then◌else◌, Bool-cases, inl, inr,
}
use server_monitor.AlertService.Event.{AlertEvent}
use server_monitor.AlertService.Consumer.{
  MessageResult, message_process_error, Message, Verdict, returned, panicked, after_process,
  handle_event, process_message, consume_claim,
}

-- A transient failure is the one result that leaves its message unmarked.
abbrev pub is_settled : MessageResult → Bool
is_settled message_process_error = false
is_settled _ = true

-- The offsets of the messages whose results are settled.
abbrev pub settled_offsets : List Message → List MessageResult → List ℕ
settled_offsets [] rs = []
settled_offsets (m ∷ ms) [] = []
settled_offsets (m ∷ ms) (r ∷ rs) =
    let rest = settled_offsets ms rs in if is_settled r then m.offset ∷ rest else rest

module _ {S : Type 0} (unmarshal : String → Option AlertEvent)
    (processor : AlertEvent → S → Verdict × S) where
  after_process_marked :
      (v : Verdict) (s : S)
      → (after_process unmarshal processor v s).marked
        ≡ is_settled (after_process unmarshal processor v s).result
  unfolding after_process
  after_process_marked panicked s = refl
  after_process_marked (returned none) s = refl
  after_process_marked (returned (some e)) s = ground arith

  handle_event_marked :
      (o : Option AlertEvent) (s : S)
      → (handle_event unmarshal processor o s).marked
        ≡ is_settled (handle_event unmarshal processor o s).result
  unfolding handle_event
  handle_event_marked none s = refl
  handle_event_marked (some e) s = after_process_marked (processor e s).0 (processor e s).1

  -- Offsets grow along a claim.
  abbrev pub Ascending : ℕ → List Message → Type 0
  Ascending o [] = Unit
  Ascending o (m ∷ ms) = (o < m.offset) × Ascending m.offset ms

  marks_above :
      (o : ℕ) (ms : List Message) (s : S)
      → Ascending o ms
      → All (λ n. o < n) (consume_claim unmarshal processor ms s).marks
  unfolding consume_claim
  marks_above o [] s h = tt
  marks_above o (m ∷ ms) s h = elim (Bool-cases (process_message unmarshal processor m s).marked) [
    | inl y ↦ rw (y, consume_claim) (h.0, marks_above o ms _ (weaken o m.offset ms h.0 h.1))
    | inr n ↦ rw (n, consume_claim) (marks_above o ms _ (weaken o m.offset ms h.0 h.1))
  ]
    where
      weaken : (a b : ℕ) (l : List Message) → a < b → Ascending b l → Ascending a l
      weaken a b [] p q = tt
      weaken a b (x ∷ l) p q = (omega arith, q.1)

  first_above :
      (committed : List ℕ → ℕ) (o : ℕ) (marks : List ℕ)
      → ((l : List ℕ) → All (λ n. n < committed l) l)
      → marks ≢ []
      → All (λ n. o < n) marks
      → o < committed marks
  first_above committed o [] law some_mark above = absurd (some_mark refl)
  first_above committed o (n ∷ ns) law some_mark above = omega (arith, (law (n ∷ ns)).0, above.0)

  -- A message that fails for the moment is not retried once a later message of its claim is marked:
  -- the client library commits an offset beyond every mark, so also beyond the failed message.
  pub failed_is_skipped :
      (committed : List ℕ → ℕ) (m : Message) (ms : List Message) (s : S)
      → ((l : List ℕ) → All (λ n. n < committed l) l)
      → Ascending m.offset ms
      → (process_message unmarshal processor m s).result ≡ message_process_error
      → (consume_claim unmarshal processor ms (process_message unmarshal processor m s).state).marks
        ≢ []
      → m.offset < committed (consume_claim unmarshal processor (m ∷ ms) s).marks
  unfolding consume_claim process_message
  failed_is_skipped committed m ms s law up failed later =
      let off : (process_message unmarshal processor m s).marked ≡ false =
        ground (arith, handle_event_marked (unmarshal m.value) s) in
      rw off (
        first_above committed m.offset
          (consume_claim unmarshal processor ms
            (process_message unmarshal processor m s).state).marks
          law later (marks_above m.offset ms _ up))
