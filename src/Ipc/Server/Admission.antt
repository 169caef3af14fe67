-- ===== src/Ipc/Server/Admission.antt =====
-- What the sender of a frame must fulfil, and what it hears if it does not.
use open_sesame.Prelude.{ℕ, ◌≡◌, refl, ◌⊎◌, inl, inr, true, false, some, if◌then◌else◌, Bool-cases}
use open_sesame.Prelude.Text.{Text, codes}
use open_sesame.Prelude.Maps.{nat_eq, list_eq, get}
use open_sesame.Ipc.Server.{Frame, Message, Postcard, ConnectionState, ServerState, is_below}
use open_sesame.Ipc.Server.Route.{
  Fresh, send_access_denied, keeps_identity, below_reason, admit, forward, set_connection,
  route_frame,
}

-- The sender has not changed its id, and its clearance is not below the message's level.
abbrev pub Admitted : ConnectionState → Message → Type 0
Admitted conn msg =
    (keeps_identity conn.daemon_id msg.sender ≡ true)
    × (is_below conn.security_clearance msg.security_level ≡ false)

abbrev pub Refused : ConnectionState → Message → Type 0
Refused conn msg =
    (keeps_identity conn.daemon_id msg.sender ≡ false)
    ⊎ (is_below conn.security_clearance msg.security_level ≡ true)

abbrev pub bound : ConnectionState → Message → ConnectionState
bound conn msg = record conn { daemon_id = some msg.sender }

module _ (codec : Postcard) (fresh : Fresh) (msg : Message) (conn : ConnectionState) where
  admit-Admitted : Admitted conn msg → admit codec fresh msg conn ≡ (true, bound conn msg)
  unfolding admit
  admit-Admitted ok = rw (ok.0, ok.1) refl

  -- The reason that is given first.
  abbrev pub reason : Text
  reason =
      if keeps_identity conn.daemon_id msg.sender
      then below_reason conn.security_clearance msg.security_level
      else codes "sender identity changed mid-session"

  abbrev pub refused : ConnectionState
  refused =
      send_access_denied codec fresh msg.msg_id reason
        (if keeps_identity conn.daemon_id msg.sender then bound conn msg else conn)

  admit-Refused : Refused conn msg → admit codec fresh msg conn ≡ (false, refused)
  unfolding admit
  admit-Refused (inl other) = rw other refl
  admit-Refused (inr low) = elim (Bool-cases (keeps_identity conn.daemon_id msg.sender)) [
    | inl same ↦ rw (same, low) refl
    | inr other ↦ rw other refl
  ]

module _ (codec : Postcard) (fresh : Fresh) (s : ServerState) (cid : ℕ) (payload : Frame)
    (msg : Message) (conn : ConnectionState) (decoded : codec.decode payload ≡ some msg)
    (connected : get s.connections cid ≡ some conn) where
  pub route_frame-Admitted :
      Admitted conn msg
      → route_frame codec fresh cid payload s
        ≡ forward codec msg cid conn.verified_name conn.trust_vector
            (set_connection cid (bound conn msg) s)
  unfolding route_frame
  route_frame-Admitted ok = rw (decoded, connected, admit-Admitted codec fresh msg conn ok) refl

  pub route_frame-Refused :
      Refused conn msg
      → route_frame codec fresh cid payload s ≡ set_connection cid (refused codec fresh msg conn) s
  unfolding route_frame
  route_frame-Refused no_pass =
      rw (decoded, connected, admit-Refused codec fresh msg conn no_pass) refl
