-- ===== src/Display/Program/Screens.antt =====
-- src/display_main.cpp, src/wire.cpp and src/io.cpp together: what a display prints for the messages
-- that are sent to it.
use restuarant_ordering_csf.Base.{ℕ, ◌≡◌, List, [], ◌∷◌, ◌++◌, Option, none, Text}
use restuarant_ordering_csf.Message.{Message}
use restuarant_ordering_csf.Io.{Rio}
use restuarant_ordering_csf.Io.Framing.{framed}
use restuarant_ordering_csf.ClientUtil.{send_message}
use restuarant_ordering_csf.ClientUtil.Exchange.{IsSendableShort}
use restuarant_ordering_csf.Display.{Orders, handle}
use restuarant_ordering_csf.Display.Program.{after_handler}

-- The bytes of a stream are the frames of the messages.
abbrev pub Carries : List Message → Text → Type 0
Carries [] t = t ≡ []
Carries (msg ∷ msgs) t =
    (s : IsSendableShort msg) × (rest : Text) × (t ≡ framed s.text ++ rest) × Carries msgs rest

abbrev pub AllShort : List Message → Type 0
AllShort [] = Unit
AllShort (msg ∷ msgs) = IsSendableShort msg × AllShort msgs

frames_of : (msgs : List Message) → AllShort msgs → Text
frames_of [] _ = []
frames_of (msg ∷ msgs) (h, hs) = framed h.text ++ frames_of msgs hs

-- What a display prints for a list of messages: the display after each of them, up to the first that
-- its handler refuses.
unfoldable pub shown : List Message → Orders → Option ℕ × Text
unfolding after_handler
shown [] orders = (none, [])
shown (msg ∷ msgs) orders = after_handler (shown msgs) msg (handle msg orders)

module _ {W : Type 0} (rio : Rio W) where
  unfoldable pub send_messages : List Message → W → W
  send_messages [] w = w
  send_messages (msg ∷ msgs) w = send_messages msgs (send_message rio msg w).1
