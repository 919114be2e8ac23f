-- ===== src/Io/Framing.antt =====
-- `IO::send` and `IO::receive` over a reliable stream: messages arrive whole and in order.
use restuarant_ordering_csf.Base.{
  ℕ, ◌+◌, ◌-◌, ◌<◌, ◌≤◌, pos, ◌≡◌, refl, sym, ap, ◌∙◌, List, [], ◌∷◌, ◌++◌, arith, Text, length,
  length-append, append_assoc, append-nil, map, Option, some, take-append, get_elem?, lt→ltb,
  eq_refl, nat_eq, All,
}
use mathlib.Core.Path.{subst}
use restuarant_ordering_csf.Except.{Result, ok, err, io_exception}
use restuarant_ordering_csf.Numbers.{show_ℕ}
use restuarant_ordering_csf.Io.Prefix.{length-prefix, make_length_prefix_lem, parse-make}
use restuarant_ordering_csf.Io.{
  Rio, newline, pad, make_length_prefix, parse_length_prefix, written, send, check_body,
  receive_prefix, receive,
}

-- A text with its prefix and its newline, as the stream carries it.
pub framed : Text → Text
framed s = pad 4 b'0' (show_ℕ (length s + 1)) ++ (s ++ newline ∷ [])

-- What is documented of `rio_writen` and `rio_readn` on a connection that does not fail: all bytes
-- are written behind those in flight, and bytes that are in flight are read from the front.
pub record Stream {W : Type 0} (rio : Rio W) : Type 0 where
  pub pending : W → Text
  pub writes :
      (w : W) (s : Text)
      → ((rio.writen w s).0 ≡ pos (length s)) × (pending (rio.writen w s).1 ≡ pending w ++ s)
  pub reads :
      (w : W) (s t : Text)
      → pending w ≡ s ++ t
      → ((rio.readn w (length s)).0 ≡ some s) × (pending (rio.readn w (length s)).1 ≡ t)

get_elem?-append : (s : Text) (c : ℕ) (t : Text) → get_elem? (s ++ c ∷ t) (length s) ≡ some c
get_elem?-append [] c t = refl
get_elem?-append (x ∷ s) c t = get_elem?-append s c t

last_index : (s : Text) (c : ℕ) → length (s ++ c ∷ []) - 1 ≡ length s
last_index s c = omega (arith, length-append s (c ∷ []))

check_body_lem : (s : Text) → check_body (length s + 1) (some (s ++ newline ∷ [])) ≡ ok s
unfolding check_body
check_body_lem s = rw (
  last_index s newline,
  get_elem?-append s newline [],
  length-append s (newline ∷ []),
  eq_refl (length s + 1),
  (let e : length s + 1 - 1 ≡ length s = omega arith in e),
  take-append s (newline ∷ []),
)

length-body : (s : Text) → length (s ++ newline ∷ []) ≡ length s + 1
length-body s = length-append s (newline ∷ [])

-- A text of 9999 bytes or more is refused, and nothing is written.
pub send_too_long :
    {W : Type 0} (rio : Rio W) (w : W) (s : Text)
    → 9999 ≤ length s
    → send rio s w ≡ (err (io_exception "message too long to frame"), w)
unfolding send make_length_prefix
send_too_long rio w s h = rw (lt→ltb 9999 (length s + 1) (omega arith))

receive_tail :
    {W : Type 0} (rio : Rio W) (w : W) (prefix s : Text)
    → length prefix ≡ 4
    → parse_length_prefix prefix ≡ ok (pos (length s + 1))
    → (rio.readn w (length s + 1)).0 ≡ some (s ++ newline ∷ [])
    → receive_prefix rio (some prefix, w) ≡ (ok s, (rio.readn w (length s + 1)).1)
unfolding receive_prefix
receive_tail rio w prefix s four parsed got = rw (four, parsed, got, check_body_lem s)

receive_whole :
    {W : Type 0} (rio : Rio W) (w : W) (first : Option Text × W) (prefix s : Text)
    → first.0 ≡ some prefix
    → length prefix ≡ 4
    → parse_length_prefix prefix ≡ ok (pos (length s + 1))
    → (rio.readn first.1 (length s + 1)).0 ≡ some (s ++ newline ∷ [])
    → receive_prefix rio first ≡ (ok s, (rio.readn first.1 (length s + 1)).1)
receive_whole rio w (got, w1) prefix s e four parsed body =
    rw e (receive_tail rio w1 prefix s four parsed body)

-- A run of sends, and of receives, one for each text.
module _ {W : Type 0} (rio : Rio W) where
  pub send_all : List Text → W → W
  send_all [] w = w
  send_all (s ∷ ss) w = send_all ss (send rio s w).1

  pub receive_all : List Text → W → List (Result Text)
  receive_all [] w = []
  receive_all (s ∷ ss) w = (receive rio w).0 ∷ receive_all ss (receive rio w).1

frames : List Text → Text
frames [] = []
frames (s ∷ ss) = framed s ++ frames ss

abbrev pub AllShort : List Text → Type 0
AllShort = All (λ s. length s < 9999)

module _ {W : Type 0} (rio : Rio W) (stream : Stream rio) where
  open stream use {pending, writes, reads}

  reads_n :
      (w : W) (n : ℕ) (s t : Text)
      → length s ≡ n
      → pending w ≡ s ++ t
      → ((rio.readn w n).0 ≡ some s) × (pending (rio.readn w n).1 ≡ t)
  reads_n w n s t e h =
      subst (λ k. ((rio.readn w k).0 ≡ some s) × (pending (rio.readn w k).1 ≡ t)) e (reads w s t h)

  written_lem :
      (w : W) (s : Text) → written rio (length s) (rio.writen w s) ≡ (ok tt, (rio.writen w s).1)
  unfolding written
  written_lem w s = ground (arith, (writes w s).0)

  send_short :
      (w : W) (s : Text) → length s < 9999 → send rio s w ≡ (ok tt, (rio.writen w (framed s)).1)
  unfolding send framed
  send_short w s h = rw (make_length_prefix_lem (length s + 1) (omega arith)) (written_lem w _)

  -- A text of up to 9998 bytes is sent, and its frame is behind what was in flight.
  pub pending-send :
      (w : W) (s : Text)
      → length s < 9999
      → ((send rio s w).0 ≡ ok tt) × (pending (send rio s w).1 ≡ pending w ++ framed s)
  pending-send w s h = rw (send_short w s h) (refl, (writes w (framed s)).1)

  -- The frame at the front of the stream is received as its text, and the rest stays.
  pub receive-framed :
      (w : W) (s rest : Text)
      → length s < 9999
      → pending w ≡ framed s ++ rest
      → ((receive rio w).0 ≡ ok s) × (pending (receive rio w).1 ≡ rest)
  unfolding receive framed
  receive-framed w s rest h front =
      let prefix : Text = pad 4 b'0' (show_ℕ (length s + 1)) in
      let four : length prefix ≡ 4 = length-prefix (length s + 1) (omega arith) in
      let parsed = parse-make (length s + 1) (omega arith) (omega arith) in
      let (first, left) =
        reads_n w 4 prefix _ four (front ∙ append_assoc prefix (s ++ newline ∷ []) rest) in
      let (body, rest_left) =
        reads_n (rio.readn w 4).1 (length s + 1) (s ++ newline ∷ []) rest (length-body s) left in
      rw (receive_whole rio w (rio.readn w 4) prefix s first four parsed body) (refl, rest_left)

  -- What is sent on an idle connection is what is received, and the connection is idle again.
  pub receive-send :
      (w : W) (s : Text)
      → length s < 9999
      → pending w ≡ []
      → ((receive rio (send rio s w).1).0 ≡ ok s) × (pending (receive rio (send rio s w).1).1 ≡ [])
  receive-send w s h idle =
      receive-framed (send rio s w).1 s [] h
        ((pending-send w s h).1 ∙ rw idle (sym (append-nil (framed s))))

  pending-send_all :
      (ss : List Text) (w : W) → AllShort ss → pending (send_all rio ss w) ≡ pending w ++ frames ss
  unfolding send_all frames
  pending-send_all [] w _ = sym (append-nil (pending w))
  pending-send_all (s ∷ ss) w (h, hs) =
      pending-send_all ss (send rio s w).1 hs
      ∙ rw ((pending-send w s h).1) (append_assoc (pending w) (framed s) (frames ss))

  receive_all-frames :
      (ss : List Text) (w : W)
      → AllShort ss
      → pending w ≡ frames ss
      → receive_all rio ss w ≡ map ok ss
  unfolding receive_all frames
  receive_all-frames [] w _ e = refl
  receive_all-frames (s ∷ ss) w (h, hs) e =
      let (received, left) = receive-framed w s (frames ss) h e in
      rw received (ap (◌∷◌ (ok s)) (receive_all-frames ss (receive rio w).1 hs left))

  -- Texts of up to 9998 bytes that are sent one after the other on an idle connection that does not
  -- fail are received whole and in the same order, whatever bytes they hold.
  pub receive_all-send_all :
      (ss : List Text) (w : W)
      → AllShort ss
      → pending w ≡ []
      → receive_all rio ss (send_all rio ss w) ≡ map ok ss
  receive_all-send_all ss w h idle =
      receive_all-frames ss (send_all rio ss w) h (pending-send_all ss w h ∙ rw idle)
