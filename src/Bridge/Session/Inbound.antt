-- ===== src/Bridge/Session/Inbound.antt =====
-- The peer-to-port side of an RFC2217 session: what reaches the port, and what the peer is answered.
use ttyforge.Common.{
  if◌then◌else◌, Bytes, is_empty, ◌≡◌, refl, sym, ap, ◌∙◌, Bool, true, false, List, [], ◌∷◌, ◌++◌,
  append-nil, append_assoc,
}
use ttyforge.Wire.Float.{Float64}
use ttyforge.Wire.Plan.{Cell}
use ttyforge.Wire.Plan.Payload.{payload}
use ttyforge.Wire.Delivery.{Sink, deliver}
use ttyforge.Wire.Delivery.Recorded.{recorder, IsClean, deliver-IsClean}
use ttyforge.Rfc2217.Telnet.{Decoded, Telnet, decode_onto, decode}
use ttyforge.Rfc2217.Telnet.Stream.{decode-append}
use ttyforge.Bridge.Session.{
  PeerRead, closed, received, peer_failed, Leg, Downlink, take_decoded, downlink_round,
  downlink_loop,
}
use ttyforge.Bridge.Session.Carries.{Carries, decode-reply, Silent, Silent-append}
use mathlib.Core.Path.{subst}

-- An end that takes every message and remembers it.
abbrev pub message_log : Sink (List Bytes)
message_log = record { write_all = λ now m ms. (ms ++ m ∷ [], true); done_at = λ now m ms. now }

-- The bytes that the peer sends before it goes away.
abbrev pub peer_bytes : List PeerRead → Bytes
peer_bytes [] = []
peer_bytes (received bytes ∷ rs) = bytes ++ peer_bytes rs
peer_bytes (closed ∷ rs) = []
peer_bytes (peer_failed ∷ rs) = []

module _ (fl : Float64) where
  open fl use {F}

  -- A session's peer-to-port side that is up, its wire clean, its answers so far without data, and
  -- `b` at the port.
  pub record IsTaking (d : Downlink F (List Cell) (List Bytes)) (b : Bytes) : Type 0 where
    pub up : d.leg.going ≡ true
    pub clean : IsClean fl d.leg.wire
    pub silent : Silent d.peer
    pub at_port : payload d.leg.sink ≡ b

  answered-Silent :
      (reply : Bytes) (peer : List Bytes)
      → Silent peer
      → Carries reply []
      → let answered : List Bytes × Bool =
          if is_empty reply then (peer, true) else (peer ++ reply ∷ [], true) in
        (answered.1 ≡ true) × Silent answered.0
  answered-Silent [] peer s c = (refl, s)
  answered-Silent (x ∷ xs) peer s c = (refl, Silent-append peer ((x ∷ xs) ∷ []) s (c, tt))

  -- The leg behind decoded data, which is delivered only if there is any.
  abbrev data_leg : Leg F (List Cell) → Bytes → Leg F (List Cell)
  data_leg l bytes =
      let (w', sent) = deliver fl recorder l.clock l.wire bytes l.sink in
      if is_empty bytes
      then l
      else record { wire = w'; clock = sent.clock; sink = sent.sink; going = sent.delivered }

  data_leg-IsClean :
      (l : Leg F (List Cell)) (bytes : Bytes)
      → l.going ≡ true
      → IsClean fl l.wire
      → ((data_leg l bytes).going ≡ true)
        × IsClean fl (data_leg l bytes).wire
        × (payload (data_leg l bytes).sink ≡ payload l.sink ++ bytes)
  data_leg-IsClean l [] up clean = (up, clean, sym (append-nil (payload l.sink)))
  data_leg-IsClean l (x ∷ xs) up clean =
      let (c, d, e) = deliver-IsClean fl l.clock l.wire (x ∷ xs) l.sink clean in (d, c, e)

  take_decoded-IsTaking :
      (d : Downlink F (List Cell) (List Bytes)) (t : Telnet) (out : Decoded) (b : Bytes)
      → IsTaking d b
      → Carries out.reply []
      → IsTaking (take_decoded fl recorder message_log d t out) (b ++ out.payload)
  unfolding take_decoded
  take_decoded-IsTaking d t out b h c =
      let (there, s) = answered-Silent out.reply d.peer h.silent c in
      let (u, w, e) = data_leg-IsClean d.leg out.payload h.up h.clean in
      rw there
        record { up = u; clean = w; silent = s; at_port = e ∙ ap (λ v. v ++ out.payload) h.at_port }

  -- A loop that has broken does no more, and one that is up takes the next read.
  downlink_loop_down :
      (d : Downlink F (List Cell) (List Bytes)) (rs : List PeerRead)
      → d.leg.going ≡ false
      → downlink_loop fl recorder message_log d rs ≡ d
  unfolding downlink_loop
  downlink_loop_down d [] h = refl
  downlink_loop_down d (r ∷ rs) h = λ i.
      if h i
      then downlink_loop fl recorder message_log (downlink_round fl recorder message_log d r) rs
      else d

  downlink_loop-step :
      (d : Downlink F (List Cell) (List Bytes)) (r : PeerRead) (rs : List PeerRead)
      → d.leg.going ≡ true
      → downlink_loop fl recorder message_log d (r ∷ rs)
        ≡ downlink_loop fl recorder message_log (downlink_round fl recorder message_log d r) rs
  unfolding downlink_loop
  downlink_loop-step d r rs h = λ i.
      if h i
      then downlink_loop fl recorder message_log (downlink_round fl recorder message_log d r) rs
      else d

  decode-payload_nil : (t : Telnet) (b : Bytes) → b ≡ b ++ (decode t []).1.payload
  unfolding decode decode_onto
  decode-payload_nil t b = sym (append-nil b)

  -- What the peer has been answered, and what is at the port.
  abbrev pub Taken : Downlink F (List Cell) (List Bytes) → Bytes → Type 0
  Taken q b = Silent q.peer × (payload q.leg.sink ≡ b)

  downlink_loop_broken :
      (d q : Downlink F (List Cell) (List Bytes)) (r : PeerRead) (rs : List PeerRead) (b : Bytes)
      → downlink_round fl recorder message_log d r ≡ q
      → q.leg.going ≡ false
      → q.leg.sink ≡ d.leg.sink
      → q.peer ≡ d.peer
      → IsTaking d b
      → Taken
          (downlink_loop fl recorder message_log d (r ∷ rs))
          (b ++ (decode d.telnet []).1.payload)
  downlink_loop_broken d q r rs b e down s p h =
      let broken =
        downlink_loop-step d r rs h.up
        ∙ ap (λ v. downlink_loop fl recorder message_log v rs) e
        ∙ downlink_loop_down q rs down in
      subst (λ v. Taken v (b ++ (decode d.telnet []).1.payload)) (sym broken)
        (rw p h.silent, ap payload s ∙ h.at_port ∙ decode-payload_nil d.telnet b)

  pub downlink_loop-IsTaking :
      (d : Downlink F (List Cell) (List Bytes)) (rs : List PeerRead) (b : Bytes)
      → IsTaking d b
      → Taken
          (downlink_loop fl recorder message_log d rs)
          (b ++ (decode d.telnet (peer_bytes rs)).1.payload)
  unfolding downlink_loop downlink_round
  downlink_loop-IsTaking d [] b h = (h.silent, h.at_port ∙ decode-payload_nil d.telnet b)
  downlink_loop-IsTaking d (received bytes ∷ rs) b h =
      let (t, out) = decode d.telnet bytes in
      let d' = take_decoded fl recorder message_log d t out in
      let k = take_decoded-IsTaking d t out b h (decode-reply d.telnet bytes) in
      let (s, e) = downlink_loop-IsTaking d' rs (b ++ out.payload) k in
      subst (λ v. Taken v (b ++ (decode d.telnet (bytes ++ peer_bytes rs)).1.payload))
        (sym (downlink_loop-step d (received bytes) rs h.up))
        (s, rw (decode-append d.telnet bytes (peer_bytes rs)) (e ∙ append_assoc b _ _))
  downlink_loop-IsTaking d (closed ∷ rs) b h =
      downlink_loop_broken d _ closed rs b refl refl refl refl h
  downlink_loop-IsTaking d (peer_failed ∷ rs) b h =
      downlink_loop_broken d _ peer_failed rs b refl refl refl refl h
