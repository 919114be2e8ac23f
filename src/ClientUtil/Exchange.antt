-- ===== src/ClientUtil/Exchange.antt =====
-- src/client_util.cpp, src/wire.cpp and src/io.cpp together: a message sent is the one received.
use restuarant_ordering_csf.Base.{◌++◌, ◌<◌, ◌≡◌, sym, ap, ◌∙◌, [], length, Text}
use restuarant_ordering_csf.Except.{ok, ◌>>=◌}
use restuarant_ordering_csf.Message.{Message}
use restuarant_ordering_csf.Wire.{encode, decode}
use restuarant_ordering_csf.Wire.Shape.{IsSendable}
use restuarant_ordering_csf.Wire.RoundTrip.{decode-encode}
use restuarant_ordering_csf.Io.{Rio}
use restuarant_ordering_csf.Io.Framing.{Stream, framed, pending-send, receive-framed, receive-send}
use restuarant_ordering_csf.ClientUtil.{send_encoded, send_message, receive_message}

-- A message that is encoded in at most 9998 bytes.
pub record IsSendableShort (msg : Message) : Type 0 where
  pub sendable : IsSendable msg
  pub text : Text
  pub encoded : encode msg ≡ ok text
  pub short : length text < 9999

module _ {W : Type 0} (rio : Rio W) (stream : Stream rio) where
  -- A message whose data are valid and whose text is at most 9998 bytes long, sent on an idle
  -- connection that does not fail, is received as it was sent, and the connection is idle again.
  pub receive_message-send_message :
      (w : W) (msg : Message) (s : Text)
      → IsSendable msg
      → encode msg ≡ ok s
      → length s < 9999
      → stream.pending w ≡ []
      → ((receive_message rio (send_message rio msg w).1).0 ≡ ok msg)
        × (stream.pending (receive_message rio (send_message rio msg w).1).1 ≡ [])
  unfolding send_message send_encoded receive_message
  receive_message-send_message w msg s sendable e short idle =
      let (got, idle_again) = receive-send rio stream w s short idle in
      rw (e, got) (ap (λ m. m >>= decode) (sym e) ∙ decode-encode msg sendable, idle_again)

  pub pending-send_message :
      (w : W) (msg : Message) (h : IsSendableShort msg)
      → stream.pending (send_message rio msg w).1 ≡ stream.pending w ++ framed h.text
  unfolding send_message send_encoded
  pending-send_message w msg h = rw (h.encoded) ((pending-send rio stream w h.text h.short).1)

  pub receive_message-front :
      (w : W) (msg : Message) (h : IsSendableShort msg) (rest : Text)
      → stream.pending w ≡ framed h.text ++ rest
      → ((receive_message rio w).0 ≡ ok msg) × (stream.pending (receive_message rio w).1 ≡ rest)
  unfolding receive_message
  receive_message-front w msg h rest e =
      let (got, left) = receive-framed rio stream w h.text rest h.short e in
      (ap (λ m. m >>= decode) (got ∙ sym (h.encoded)) ∙ decode-encode msg (h.sendable), left)
