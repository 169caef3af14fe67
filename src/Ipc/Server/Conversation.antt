-- ===== src/Ipc/Server/Conversation.antt =====
-- A request, its response, and a client that the registry does not know.
use open_sesame.Prelude.{
  ℕ, ◌≡◌, refl, sym, ap, ◌∙◌, ◌≢◌, true, false, none, some, ◌==◌, ==_iff, if◌then◌else◌,
}
use mathlib.Core.Option
use open_sesame.Prelude.Maps.{nat_eq, list_eq, get, get-insert, beq-ne}
use open_sesame.Prelude.Update.{get-adjust, get-adjust_ne, get-adjust_if}
use open_sesame.Types.{SecurityLevel, open_level, internal, profile_scoped, secrets_only}
use open_sesame.Ipc.Registry.{Pubkey, lookup}
use open_sesame.Ipc.Server.{
  Frame, Message, Postcard, ConnectionState, ServerState, send, try_send, is_below,
}
use open_sesame.Ipc.Server.Route.{Fresh, stamp, set_connection, respond, route_frame}
use open_sesame.Ipc.Server.Connect.{establish, clearance_of, handshake_trust, channel}
use open_sesame.Ipc.Server.Admission.{Admitted, bound, route_frame-Admitted}
use open_sesame.Ipc.Server.Delivery.{
  is_started, is_target, forward-response, respond-connections, respond-confirmations,
  respond-pending, route_frame-request,
}
use open_sesame.Ipc.Server.Pending.{Later, Later-IsPending, respond-spares}

-- A message of a connection that is admitted, with the frame that goes on: a request, or an answer.
pub record IsRouted (codec : Postcard) (s : ServerState) (cid : ℕ) (payload : Frame) (msg : Message)
    (conn : ConnectionState) (frame : Frame) : Type 0 where
  pub decoded : codec.decode payload ≡ some msg
  pub connected : get s.connections cid ≡ some conn
  pub admitted : Admitted conn msg
  pub not_started : is_started msg.payload ≡ false
  pub encoded : codec.encode (stamp conn.verified_name conn.trust_vector msg) ≡ some frame

-- A response of `responder` that reached the connection that asked, and that alone.
pub record IsAnswered (id asker responder : ℕ) (out : Frame) (bound_responder : ConnectionState)
    (before after : ServerState) : Type 0 where
  pub reached : get after.connections asker ≡ Option.map (send out) (get before.connections asker)
  pub own : get after.connections responder ≡ some bound_responder
  pub others :
      (k : ℕ) → k ≢ asker → k ≢ responder → get after.connections k ≡ get before.connections k
  pub confirmed :
      get after.confirmations id ≡ Option.map (try_send out) (get before.confirmations id)
  pub unconfirmed : (k : ℕ) → k ≢ id → get after.confirmations k ≡ get before.confirmations k
  pub other_requests :
      (k : ℕ) → k ≢ id → get after.pending_requests k ≡ get before.pending_requests k

-- A response that reached no connection; the responder's own has its id bound and gets nothing.
pub record IsLate (id responder : ℕ) (out : Frame) (bound_responder : ConnectionState)
    (before after : ServerState) : Type 0 where
  pub own : get after.connections responder ≡ some bound_responder
  pub others : (k : ℕ) → k ≢ responder → get after.connections k ≡ get before.connections k
  pub confirmed :
      get after.confirmations id ≡ Option.map (try_send out) (get before.confirmations id)
  pub unconfirmed : (k : ℕ) → k ≢ id → get after.confirmations k ≡ get before.confirmations k
  pub other_requests :
      (k : ℕ) → k ≢ id → get after.pending_requests k ≡ get before.pending_requests k

module _ (codec : Postcard) (fresh : Fresh) (t : ServerState) (b : ℕ) (answer : Frame)
    (reply : Message) (responder : ConnectionState) (out : Frame) (id : ℕ)
    (r : IsRouted codec t b answer reply responder out) (to : reply.correlation_id ≡ some id) where
  abbrev answered : ServerState
  answered = route_frame codec fresh b answer t

  bound_state : ServerState
  bound_state = set_connection b (bound responder reply) t

  answered_lem : answered ≡ respond id out bound_state
  unfolding bound_state
  answered_lem =
      route_frame-Admitted codec fresh t b answer reply responder r.decoded r.connected r.admitted
      ∙ forward-response codec reply b responder.verified_name responder.trust_vector _
          r.not_started to r.encoded

  answered-connections :
      (k : ℕ)
      → get answered.connections k ≡ (
          if is_target (get t.pending_requests id) k
          then Option.map (send out) (get bound_state.connections k)
          else get bound_state.connections k)
  unfolding bound_state
  answered-connections k =
      ap (λ s. get s.connections k) answered_lem ∙ respond-connections id out bound_state k

  bound_state-own : get bound_state.connections b ≡ some (bound responder reply)
  unfolding bound_state
  bound_state-own = get-adjust b (λ _. bound responder reply) t.connections ∙ rw r.connected refl

  bound_state-other : (k : ℕ) → k ≢ b → get bound_state.connections k ≡ get t.connections k
  unfolding bound_state
  bound_state-other k ne =
      get-adjust_ne b k (λ _. bound responder reply) t.connections (λ e. ne (sym e))

  answered-confirmations :
      (k : ℕ)
      → get answered.confirmations k ≡ (
          if id == k
          then Option.map (try_send out) (get t.confirmations k)
          else get t.confirmations k)
  unfolding bound_state
  answered-confirmations k =
      ap (λ s. get s.confirmations k) answered_lem
      ∙ (ap (λ m. get m k) (respond-confirmations id out bound_state)
          ∙ get-adjust_if id k (try_send out) t.confirmations)

  confirmed_lem : get answered.confirmations id ≡ Option.map (try_send out) (get t.confirmations id)
  confirmed_lem = answered-confirmations id ∙ rw ((==_iff id id).1 refl) refl

  unconfirmed_lem : (k : ℕ) → k ≢ id → get answered.confirmations k ≡ get t.confirmations k
  unconfirmed_lem k ne = answered-confirmations k ∙ rw (beq-ne id k (λ e. ne (sym e))) refl

  other_requests_lem : (k : ℕ) → k ≢ id → get answered.pending_requests k ≡ get t.pending_requests k
  unfolding bound_state
  other_requests_lem k ne =
      ap (λ s. get s.pending_requests k) answered_lem
      ∙ respond-spares id out bound_state k (λ e. ne (sym e))

  answered-pending : get answered.pending_requests id ≡ none
  answered-pending =
      ap (λ s. get s.pending_requests id) answered_lem ∙ respond-pending id out bound_state

  answered-IsAnswered :
      (a : ℕ)
      → get t.pending_requests id ≡ some a
      → b ≢ a
      → IsAnswered id a b out (bound responder reply) t answered
  answered-IsAnswered a pending apart = record {
    reached =
        answered-connections a
        ∙ rw (pending, (==_iff a a).1 refl, bound_state-other a (λ e. apart (sym e))) refl;
    own = answered-connections b ∙ rw (pending, beq-ne a b (λ e. apart (sym e))) bound_state-own;
    others = λ k ne ne'.
        answered-connections k
        ∙ rw (pending, beq-ne a k (λ e. ne (sym e))) (bound_state-other k ne');
    confirmed = confirmed_lem;
    unconfirmed = unconfirmed_lem;
    other_requests = other_requests_lem;
  }

  answered-IsLate :
      get t.pending_requests id ≡ none → IsLate id b out (bound responder reply) t answered
  answered-IsLate spent = record {
    own = answered-connections b ∙ rw spent bound_state-own;
    others = λ k ne. answered-connections k ∙ rw spent (bound_state-other k ne);
    confirmed = confirmed_lem;
    unconfirmed = unconfirmed_lem;
    other_requests = other_requests_lem;
  }

-- A request that was routed, and then, after whatever else the server has done but for a request of
-- that id and the end of the connection that asked, a response to it by another connection, and after
-- more of that a second response. The first reaches the connection that asked, if it is still there,
-- and no other; the second reaches none. Of either the host's confirmation channel for the id gets a
-- copy as far as it has room, no other channel does, and no other request is forgotten.
pub request-response :
    (codec : Postcard) (fresh fresh' fresh'' : Fresh) (s t u : ServerState) (a b c : ℕ)
    (payload answer answer' frame out out' : Frame) (msg reply reply' : Message)
    (asker responder late : ConnectionState)
    → IsRouted codec s a payload msg asker frame
    → msg.correlation_id ≡ none
    → Later msg.msg_id a (route_frame codec fresh a payload s) t
    → b ≢ a
    → IsRouted codec t b answer reply responder out
    → reply.correlation_id ≡ some msg.msg_id
    → Later msg.msg_id a (route_frame codec fresh' b answer t) u
    → IsRouted codec u c answer' reply' late out'
    → reply'.correlation_id ≡ some msg.msg_id
    → IsAnswered msg.msg_id a b out (bound responder reply) t (route_frame codec fresh' b answer t)
      × IsLate msg.msg_id c out' (bound late reply') u (route_frame codec fresh'' c answer' u)
request-response codec fresh fresh' fresh'' s t u a b c payload answer answer' frame out out' msg
      reply reply' asker responder late asked request meanwhile apart first to_request afterwards
      second to_request' =
    (
      answered-IsAnswered codec fresh' t b answer reply responder out msg.msg_id first to_request a
          (Later-IsPending true pending meanwhile) apart,
      answered-IsLate codec fresh'' u c answer' reply' late out' msg.msg_id second to_request' (
          Later-IsPending false
            (answered-pending codec fresh' t b answer reply responder out msg.msg_id first
              to_request)
            afterwards),
    )
  where
    pending : get (route_frame codec fresh a payload s).pending_requests msg.msg_id ≡ some a
    pending =
        (route_frame-request codec fresh s a payload msg asker asked.decoded asked.connected
          asked.admitted asked.not_started request asked.encoded).2

-- Nobody is below the highest level.
is_below-secrets_only : (level : SecurityLevel) → is_below secrets_only level ≡ false
is_below-secrets_only open_level = refl
is_below-secrets_only internal = refl
is_below-secrets_only profile_scoped = refl
is_below-secrets_only secrets_only = refl

-- A client whose key the registry does not know has, once connected, no name and the highest
-- clearance: a request of any level that another connection may send reaches it.
establish-unknown :
    (codec : Postcard) (fresh : Fresh) (s : ServerState) (cid : ℕ) (key : Pubkey) (a : ℕ)
    (payload : Frame) (msg : Message) (asker : ConnectionState) (frame : Frame)
    → lookup s.registry key ≡ none
    → a ≢ cid
    → IsRouted codec (establish cid key s) a payload msg asker frame
    → msg.correlation_id ≡ none
    → (client : ConnectionState) × (get (establish cid key s).connections cid ≡ some client)
      × (client.verified_name ≡ none)
      × (get (route_frame codec fresh a payload (establish cid key s)).connections cid
          ≡ some (send frame client))
unfolding establish clearance_of
establish-unknown codec fresh s cid key a payload msg asker frame unknown apart asked request =
    (client, present, rw unknown refl, reaches ∙ ap some (rw cleared refl))
  where
    client : ConnectionState
    client = record {
      daemon_id = none;
      verified_name = (clearance_of s.registry key).1;
      tx = channel;
      security_clearance = (clearance_of s.registry key).0;
      trust_vector = some handshake_trust;
    }

    present : get (establish cid key s).connections cid ≡ some client
    present = get-insert cid client s.connections

    cleared : is_below client.security_clearance msg.security_level ≡ false
    cleared = rw unknown (is_below-secrets_only msg.security_level)

    reaches :
        get (route_frame codec fresh a payload (establish cid key s)).connections cid
        ≡ some (
            if is_below client.security_clearance msg.security_level
            then client
            else send frame client)
    reaches =
        (route_frame-request codec fresh (establish cid key s) a payload msg asker asked.decoded
            asked.connected asked.admitted asked.not_started request asked.encoded).0
          cid client (λ e. apart (sym e)) present
