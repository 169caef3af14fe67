-- ===== src/Ipc/Server/Delivery.antt =====
-- Whom a frame reaches.
use open_sesame.Prelude.{
  ℕ, ◌≡◌, refl, sym, ap, ◌∙◌, ◌≢◌, inl, inr, Bool, true, false, Option, none, some, ◌==◌, ==_iff,
  if◌then◌else◌, Bool-cases, Option-cases,
}
use mathlib.Core.Option
use open_sesame.Prelude.Text.{Text}
use open_sesame.Prelude.Maps.{nat_eq, list_eq, get, get-insert, get-remove, beq-ne}
use open_sesame.Prelude.Update.{adjust, get-adjust, get-adjust_ne, get-adjust_if, get-map_values}
use open_sesame.Ipc.Server.{
  Frame, Message, EventKind, daemon_started, access_denied, other_event, Postcard, ConnectionState,
  ServerState, TrustVector, send, try_send, is_below,
}
use open_sesame.Ipc.Server.Route.{
  Fresh, denial, send_access_denied, forward, set_connection, stamp, bind_name, respond, broadcast,
  receive, keeps_identity, route_frame,
}
use open_sesame.Ipc.Server.Admission.{
  Admitted, Refused, bound, reason, refused, route_frame-Admitted, route_frame-Refused,
}

abbrev pub is_started : EventKind → Bool
is_started (daemon_started _ _ _) = true
is_started _ = false

bind_name-other :
    (e : EventKind) (name : Option Text) (cid : ℕ) (s : ServerState)
    → is_started e ≡ false
    → bind_name e name cid s ≡ s
bind_name-other (daemon_started _ _ _) name cid s h = cc
bind_name-other (access_denied _) name cid s h = refl
bind_name-other (other_event _) name cid s h = refl

-- The connection that a response is for.
abbrev pub is_target : Option ℕ → ℕ → Bool
is_target none k = false
is_target (some target_id) k = target_id == k

forward-request :
    (codec : Postcard) (msg : Message) (cid : ℕ) (name : Option Text) (trust : Option TrustVector)
    (s : ServerState) {frame : Frame}
    → is_started msg.payload ≡ false
    → msg.correlation_id ≡ none
    → codec.encode (stamp name trust msg) ≡ some frame
    → forward codec msg cid name trust s ≡ broadcast msg cid frame s
unfolding forward
forward-request codec msg cid name trust s other request encoded =
    rw (bind_name-other msg.payload name cid s other, encoded) (rw request refl)

pub forward-response :
    (codec : Postcard) (msg : Message) (cid : ℕ) (name : Option Text) (trust : Option TrustVector)
    (s : ServerState) {frame : Frame} {corr_id : ℕ}
    → is_started msg.payload ≡ false
    → msg.correlation_id ≡ some corr_id
    → codec.encode (stamp name trust msg) ≡ some frame
    → forward codec msg cid name trust s ≡ respond corr_id frame s
unfolding forward
forward-response codec msg cid name trust s other response encoded =
    rw (bind_name-other msg.payload name cid s other, encoded) (rw response refl)

receive_other :
    (msg : Message) (cid : ℕ) (frame : Frame) (k : ℕ) (c : ConnectionState)
    → k ≢ cid
    → receive msg cid frame k c
      ≡ (if is_below c.security_clearance msg.security_level then c else send frame c)
receive_other msg cid frame k c ne = rw (beq-ne k cid ne) refl

receive_self :
    (msg : Message) (frame : Frame) (k : ℕ) (c : ConnectionState) → receive msg k frame k c ≡ c
receive_self msg frame k c = rw ((==_iff k k).1 refl) refl

get-broadcast :
    (msg : Message) (cid : ℕ) (frame : Frame) (s : ServerState) (k : ℕ)
    → get (broadcast msg cid frame s).connections k
      ≡ Option.map (receive msg cid frame k) (get s.connections k)
unfolding broadcast
get-broadcast msg cid frame s k = get-map_values (receive msg cid frame) s.connections k

pub respond-connections :
    (corr_id : ℕ) (frame : Frame) (s : ServerState) (k : ℕ)
    → get (respond corr_id frame s).connections k ≡ (
        if is_target (get s.pending_requests corr_id) k
        then Option.map (send frame) (get s.connections k)
        else get s.connections k)
unfolding respond
respond-connections corr_id frame s k = elim (Option-cases (get s.pending_requests corr_id)) [
  | inl unknown ↦ rw (unknown, respond) refl
  | inr (target_id, known) ↦
      rw (known, respond) (get-adjust_if target_id k (send frame) s.connections)
]

pub respond-pending :
    (corr_id : ℕ) (frame : Frame) (s : ServerState)
    → get (respond corr_id frame s).pending_requests corr_id ≡ none
unfolding respond
respond-pending corr_id frame s = elim (Option-cases (get s.pending_requests corr_id)) [
  | inl unknown ↦ rw (unknown, respond) (get-remove corr_id s.pending_requests)
  | inr (target_id, known) ↦ rw (known, respond) (get-remove corr_id s.pending_requests)
]

pub respond-confirmations :
    (corr_id : ℕ) (frame : Frame) (s : ServerState)
    → (respond corr_id frame s).confirmations ≡ adjust corr_id (try_send frame) s.confirmations
unfolding respond
respond-confirmations corr_id frame s = elim (Option-cases (get s.pending_requests corr_id)) [
  | inl unknown ↦ rw (unknown, respond) refl
  | inr (target_id, known) ↦ rw (known, respond) refl
]

broadcast-pending :
    (msg : Message) (cid : ℕ) (frame : Frame) (s : ServerState)
    → get (broadcast msg cid frame s).pending_requests msg.msg_id ≡ some cid
unfolding broadcast
broadcast-pending msg cid frame s = get-insert msg.msg_id cid s.pending_requests

refused-tx :
    (codec : Postcard) (fresh : Fresh) (msg : Message) (conn : ConnectionState) {reply : Frame}
    → codec.encode (denial fresh msg.msg_id (reason codec fresh msg conn)) ≡ some reply
    → (refused codec fresh msg conn).tx ≡ try_send reply conn.tx
unfolding send_access_denied send
refused-tx codec fresh msg conn encoded =
    rw encoded (elim (Bool-cases (keeps_identity conn.daemon_id msg.sender)) [
      | inl same ↦ rw same refl
      | inr other ↦ rw other refl
    ])

module _ (codec : Postcard) (fresh : Fresh) (s : ServerState) (cid : ℕ) (payload : Frame)
    (msg : Message) (conn : ConnectionState) (decoded : codec.decode payload ≡ some msg)
    (connected : get s.connections cid ≡ some conn) where
  abbrev pub routed : ServerState
  routed = route_frame codec fresh cid payload s

  -- A frame whose sender has changed its id, or has not the clearance for the message, reaches
  -- nobody and changes nothing but the sender's connection, which gets the denial that the codec
  -- makes, as far as its channel has room.
  pub route_frame-denied :
      {reply : Frame}
      → Refused conn msg
      → codec.encode (denial fresh msg.msg_id (reason codec fresh msg conn)) ≡ some reply
      → (Option.map (λ c. c.tx) (get routed.connections cid) ≡ some (try_send reply conn.tx))
        × ((k : ℕ) → k ≢ cid → get routed.connections k ≡ get s.connections k)
        × (routed.pending_requests ≡ s.pending_requests)
        × (routed.confirmations ≡ s.confirmations)
        × (routed.name_to_conn ≡ s.name_to_conn)
  route_frame-denied {reply} no_pass encoded =
      rw (route_frame-Refused codec fresh s cid payload msg conn decoded connected no_pass)
        (own, λ k ne. get-adjust_ne cid k _ s.connections (λ h. ne (sym h)), refl, refl, refl)
    where
      own :
          Option.map
            (λ c. c.tx)
            (get (adjust cid (λ _. refused codec fresh msg conn) s.connections) cid)
          ≡ some (try_send reply conn.tx)
      own =
          rw (get-adjust cid (λ _. refused codec fresh msg conn) s.connections, connected)
            (ap some (refused-tx codec fresh msg conn encoded))

  -- A request of an admitted sender reaches each other connection that has the clearance for it, and
  -- no other; the answer to it will be for the sender.
  pub route_frame-request :
      {frame : Frame}
      → Admitted conn msg
      → is_started msg.payload ≡ false
      → msg.correlation_id ≡ none
      → codec.encode (stamp conn.verified_name conn.trust_vector msg) ≡ some frame
      → ((k : ℕ) (c : ConnectionState)
          → k ≢ cid
          → get s.connections k ≡ some c
          → get routed.connections k
            ≡ some (if is_below c.security_clearance msg.security_level then c else send frame c))
        × (get routed.connections cid ≡ some (bound conn msg))
        × (get routed.pending_requests msg.msg_id ≡ some cid)
  route_frame-request {frame} ok other request encoded =
      rw
        (
          route_frame-Admitted codec fresh s cid payload msg conn decoded connected ok,
          forward-request codec msg cid conn.verified_name conn.trust_vector _ other request
              encoded,
        )
        (others, own, broadcast-pending msg cid frame s')
    where
      s' : ServerState
      s' = set_connection cid (bound conn msg) s

      others :
          (k : ℕ) (c : ConnectionState)
          → k ≢ cid
          → get s.connections k ≡ some c
          → get (broadcast msg cid frame s').connections k
            ≡ some (if is_below c.security_clearance msg.security_level then c else send frame c)
      others k c ne present =
          rw
            (
              get-broadcast msg cid frame s' k,
              get-adjust_ne cid k (λ _. bound conn msg) s.connections (λ h. ne (sym h)),
              present,
            )
            (ap some (receive_other msg cid frame k c ne))

      own : get (broadcast msg cid frame s').connections cid ≡ some (bound conn msg)
      own =
          rw
            (
              get-broadcast msg cid frame s' cid,
              get-adjust cid (λ _. bound conn msg) s.connections,
              connected,
            )
            (ap some (receive_self msg frame cid (bound conn msg)))

-- A frame of a connection that the server has evicted, or knows no more, passes without a check: a
-- request of any level reaches every connection that has the clearance for it.
route_frame-evicted :
    (codec : Postcard) (fresh : Fresh) (s : ServerState) (cid : ℕ) (payload : Frame) (msg : Message)
    {frame : Frame} (k : ℕ) (c : ConnectionState)
    → codec.decode payload ≡ some msg
    → get s.connections cid ≡ none
    → is_started msg.payload ≡ false
    → msg.correlation_id ≡ none
    → codec.encode (stamp none none msg) ≡ some frame
    → get s.connections k ≡ some c
    → is_below c.security_clearance msg.security_level ≡ false
    → get (route_frame codec fresh cid payload s).connections k ≡ some (send frame c)
unfolding route_frame
route_frame-evicted codec fresh s cid payload msg {frame} k c decoded gone other request encoded
      present cleared =
    rw
      (
        decoded,
        gone,
        forward-request codec msg cid none none s other request encoded,
        get-broadcast msg cid frame s k,
        present,
      )
      (ap some (receive_other msg cid frame k c ne ∙ rw cleared refl))
  where
    differ :
        get s.connections k ≡ some c
        → get s.connections cid ≡ none
        → get s.connections k ≡ get s.connections cid
        → ⊥
    differ p q e = cc

    ne : k ≢ cid
    ne e = differ present gone (ap (get s.connections) e)
