-- ===== src/Sockets/Closing.antt =====
-- Each client's channel is closed once, and the number of clients keeps its bound.
use server_monitor.Base.{
  ℕ, ◌+◌, ◌≤◌, ◌<◌, String, ◌≡◌, refl, ap, true, ◌&&◌, List, [], ◌∷◌, length, arith, eqb, ltb, leb,
  eqb_refl, eqb→eq, if◌then◌else◌, Bool-cases, inl, inr,
}
use server_monitor.Sockets.{
  Hub, Event, register, unregister, broadcast, written, connected, delete_client, close_send,
  observe_connections, disconnect, handle_register, handle_unregister, deliver, deliver_all,
  broadcast_message, write_one, handle, run, close_all, stop,
}

-- How often a client stands among the clients.
abbrev pub occurs : ℕ → List ℕ → ℕ
occurs c [] = 0
occurs c (d ∷ ds) = let rest = occurs c ds in if eqb c d then rest + 1 else rest

occurs-delete_client :
    (c d : ℕ) (cs : List ℕ) → occurs d (delete_client c cs) ≡ (if eqb c d then 0 else occurs d cs)
occurs-delete_client c d [] = ground arith
occurs-delete_client c d (x ∷ cs) = ground (arith, occurs-delete_client c d cs)

pub occurs-connected : (c : ℕ) (cs : List ℕ) → connected c cs ≡ true → 1 ≤ occurs c cs
occurs-connected c [] h = cc
occurs-connected c (d ∷ ds) h = ground (arith, occurs-connected c ds)

length-delete_client : (c : ℕ) (cs : List ℕ) → length (delete_client c cs) ≤ length cs
length-delete_client c [] = omega arith
length-delete_client c (d ∷ ds) = ground (arith, length-delete_client c ds)

-- Each client that was registered so far is connected, once, or its channel was closed, once; no
-- other client is either. There are no more clients than allowed, and the gauge shows their number.
pub record Accounted (seen : List ℕ) (h : Hub) : Type 0 where
  pub once : (c : ℕ) → occurs c h.clients + h.closes c ≡ occurs c seen
  pub distinct : (c : ℕ) → occurs c seen ≤ 1
  pub bounded : length h.clients ≤ h.max_connections
  pub allowed : 0 < h.max_connections
  pub shown : h.gauge ≡ length h.clients

disconnect-Accounted :
    (seen : List ℕ) (c : ℕ) (h : Hub)
    → Accounted seen h
    → connected c h.clients ≡ true
    → Accounted seen (disconnect c h)
unfolding disconnect close_send observe_connections
disconnect-Accounted seen c h a there = record {
  once = λ d. ground (
    arith,
    a.once d,
    a.once c,
    a.distinct c,
    occurs-connected c h.clients there,
    occurs-delete_client c d h.clients,
  );
  distinct = a.distinct;
  bounded = omega (arith, a.bounded, length-delete_client c h.clients);
  allowed = a.allowed;
  shown = refl;
}

register-Accounted :
    (seen : List ℕ) (c : ℕ) (h : Hub)
    → Accounted seen h
    → occurs c seen ≡ 0
    → Accounted (c ∷ seen) (handle_register c h)
unfolding handle_register close_send observe_connections
register-Accounted seen c h a new =
    elim (Bool-cases (ltb 0 h.max_connections && leb h.max_connections (length h.clients))) [
      | inl full ↦ rw full (record {
        once = λ d. ground (arith, a.once d, a.once c);
        distinct = λ d. ground (arith, a.distinct d);
        bounded = a.bounded;
        allowed = a.allowed;
        shown = a.shown;
      })
      | inr room ↦ rw room (record {
        once = λ d. ground (arith, a.once d, eqb→eq c d, eqb_refl d);
        distinct = λ d. ground (arith, a.distinct d);
        bounded = ground (arith, a.allowed);
        allowed = a.allowed;
        shown = refl;
      })
    ]

unregister-Accounted :
    (seen : List ℕ) (c : ℕ) (h : Hub) → Accounted seen h → Accounted seen (handle_unregister c h)
unfolding handle_unregister
unregister-Accounted seen c h a = elim (Bool-cases (connected c h.clients)) [
  | inl there ↦ rw there (disconnect-Accounted seen c h a there)
  | inr gone ↦ rw gone a
]

deliver-Accounted :
    (seen : List ℕ) (message : String) (c : ℕ) (h : Hub)
    → Accounted seen h
    → Accounted seen (deliver message c h)
unfolding deliver
deliver-Accounted seen message c h a = elim (Bool-cases (connected c h.clients)) [
  | inr gone ↦ rw gone a
  | inl there ↦ elim (Bool-cases (ltb (length (h.waiting c)) 32)) [
    | inl room ↦
        rw (there, room)
          (record {
            once = a.once;
            distinct = a.distinct;
            bounded = a.bounded;
            allowed = a.allowed;
            shown = a.shown;
          })
    | inr full ↦ rw (there, full) (disconnect-Accounted seen c h a there)
  ]
]

deliver_all-Accounted :
    (seen : List ℕ) (message : String) (cs : List ℕ) (h : Hub)
    → Accounted seen h
    → Accounted seen (deliver_all message cs h)
unfolding deliver_all
deliver_all-Accounted seen message [] h a = a
deliver_all-Accounted seen message (c ∷ cs) h a =
    deliver_all-Accounted seen message cs (deliver message c h)
      (deliver-Accounted seen message c h a)

-- The clients of a run's register events, newest first, after those of before. ServeWS makes a new
-- client for each, so no client registers twice.
abbrev pub registered : List Event → List ℕ → List ℕ
registered [] seen = seen
registered (register c ∷ es) seen = registered es (c ∷ seen)
registered (_ ∷ es) seen = registered es seen

abbrev pub Fresh : List Event → List ℕ → Type 0
Fresh [] seen = Unit
Fresh (register c ∷ es) seen = (occurs c seen ≡ 0) × Fresh es (c ∷ seen)
Fresh (_ ∷ es) seen = Fresh es seen

-- Whatever the hub is told and in whatever order, as long as each client registers once: each client
-- that registered is connected or its channel was closed, and either but once; there are at most as
-- many clients as allowed; and the observer was last told their number.
pub run-Accounted :
    (events : List Event) (seen : List ℕ) (h : Hub)
    → Accounted seen h
    → Fresh events seen
    → Accounted (registered events seen) (run events h)
unfolding run handle broadcast_message write_one
run-Accounted [] seen h a f = a
run-Accounted (register c ∷ es) seen h a f =
    run-Accounted es (c ∷ seen) (handle_register c h) (register-Accounted seen c h a f.0) f.1
run-Accounted (unregister c ∷ es) seen h a f =
    run-Accounted es seen (handle_unregister c h) (unregister-Accounted seen c h a) f
run-Accounted (broadcast m ∷ es) seen h a f =
    run-Accounted es seen (deliver_all m h.clients h) (deliver_all-Accounted seen m h.clients h a) f
run-Accounted (written c ∷ es) seen h a f =
    run-Accounted es seen (write_one c h)
      (record {
        once = a.once;
        distinct = a.distinct;
        bounded = a.bounded;
        allowed = a.allowed;
        shown = a.shown;
      })
      f

close_all-closes :
    (cs : List ℕ) (h : Hub) (d : ℕ) → (close_all cs h).closes d ≡ h.closes d + occurs d cs
unfolding close_all close_send
close_all-closes [] h d = omega arith
close_all-closes (c ∷ cs) h d = ground (
  arith,
  eqb→eq c d,
  eqb→eq d c,
  eqb_refl d,
  close_all-closes cs (record (close_send c h) { clients = delete_client c h.clients }) d,
)

close_all-clients :
    (cs : List ℕ) (h : Hub) (d : ℕ)
    → occurs d (close_all cs h).clients ≡ (if eqb (occurs d cs) 0 then occurs d h.clients else 0)
unfolding close_all close_send
close_all-clients [] h d = refl
close_all-clients (c ∷ cs) h d = ground (
  arith,
  eqb→eq c d,
  eqb→eq d c,
  eqb_refl d,
  occurs-delete_client c d h.clients,
  close_all-clients cs (record (close_send c h) { clients = delete_client c h.clients }) d,
)

occurs_none : (cs : List ℕ) → ((d : ℕ) → occurs d cs ≡ 0) → cs ≡ []
occurs_none [] h = refl
occurs_none (c ∷ cs) h =
    let one : 1 ≤ occurs c (c ∷ cs) = ground (arith, eqb_refl c) in absurd (omega (arith, h c, one))

-- When the hub stops, the channel of each client that ever registered was closed exactly once, no
-- client is left, and the observer is told 0.
pub stop-closes :
    (seen : List ℕ) (h : Hub) (c : ℕ)
    → Accounted seen h
    → ((stop h).closes c ≡ occurs c seen) × ((stop h).clients ≡ []) × ((stop h).gauge ≡ 0)
unfolding stop observe_connections
stop-closes seen h c a =
    let empty : (close_all h.clients h).clients ≡ [] =
      occurs_none _ (λ d. ground (arith, close_all-clients h.clients h d)) in
    (omega (arith, close_all-closes h.clients h c, a.once c), empty, ap length empty)
