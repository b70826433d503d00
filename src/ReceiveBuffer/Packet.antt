-- ===== src/ReceiveBuffer/Packet.antt =====
-- update and nextMessage walk through the messages of a packet.
use mathlib.Core.Path.{subst}
use onwards.Prelude.{
  ℕ, ◌+◌, ◌≤◌, ◌<◌, ◌≡◌, refl, sym, List, [], ◌∷◌, ◌++◌, ℤ, pos, Width, int16, int32, size_of,
  half_range, +ℤ_pos, length, length-append, take, drop, take-append-drop, arith, ap, ◌∙◌,
  append_assoc, append-nil, le_bytes, length-le_bytes, signed_pos, narrow_pos, true, false, Bool,
  ◌^◌,
}
use onwards.Failure.{Run, ok}
use onwards.ReceiveBuffer.{ReceiveBuffer, next_message, update, give_value, int_of}
use onwards.ReceiveBuffer.Window.{advance, View, of_view, give_value-Reads}

-- A message as it travels: its length, which counts the header too, and its content.
abbrev pub frame : Width → List ℕ → List ℕ
frame w body = le_bytes (size_of w) (size_of w + length body) ++ body

abbrev pub frames : Width → List (List ℕ) → List ℕ
frames w [] = []
frames w (body ∷ bodies) = frame w body ++ frames w bodies

-- The content of a message that Z can measure.
abbrev pub IsShort : Width → List ℕ → Type 0
IsShort w body = size_of w + length body < half_range w

-- The buffer between two messages: `before` is what has been passed, `behind` what is to come.
abbrev pub between : Width → ℤ → ℤ → ℕ → List ℕ → List ℕ → List ℕ → ReceiveBuffer
between w p i m passed current behind = record {
  width = w;
  rbuf = passed ++ (current ++ behind);
  msg_length = pos m;
  sub_total = pos (length passed);
  packet_length = p;
  rindex = i;
}

int_of_pos : (w : Width) (n : ℕ) → n < half_range w → int_of w n ≡ pos n
int_of_pos int16 n h = refl
int_of_pos int32 n h = signed_pos int32 n h

header_fits : (w : Width) (n : ℕ) → n < half_range w → n < 256 ^ size_of w
header_fits int16 n h = omega arith
header_fits int32 n h = omega arith

-- While the packet goes on, nextMessage passes the rest of the current message, however much of it
-- was read, and opens the next.
pub next_message_lem :
    (w : Width) (p : ℕ) (i : ℤ) (passed current body more : List ℕ)
    → IsShort w body
    → length passed + length current < p
    → next_message (between w (pos p) i (length current) passed current (frame w body ++ more))
      ≡ ok true (
          of_view w (pos p) (record {
            before = passed ++ current;
            read = le_bytes (size_of w) (size_of w + length body);
            unread = body;
            behind = more;
          }))
unfolding next_message
next_message_lem w p i passed current body more short h = ground (
  arith,
  +ℤ_pos (length passed) (length current),
  opened,
  int_of_pos w (size_of w + length body) short,
  length-le_bytes (size_of w) (size_of w + length body),
)
  where
    header : List ℕ
    header = le_bytes (size_of w) (size_of w + length body)

    at_header : View
    at_header = record {
      before = passed ++ current;
      read = [];
      unread = header;
      behind = body ++ more;
    }

    start : ReceiveBuffer
    start = record {
      width = w;
      rbuf = passed ++ (current ++ ((header ++ body) ++ more));
      msg_length = pos (size_of w);
      sub_total = pos (length passed + length current);
      packet_length = pos p;
      rindex = pos 0;
    }

    same : start ≡ of_view w (pos p) at_header
    same = ground (
      arith,
      length-le_bytes (size_of w) (size_of w + length body),
      length-append passed current,
      append_assoc passed current (header ++ (body ++ more)),
      append_assoc header body more,
    )

    opened :
        give_value (size_of w) start
        ≡ ok
            (size_of w + length body)
            (of_view w (pos p) (record at_header { read = header; unread = [] }))
    opened =
        ap (give_value (size_of w)) same
        ∙ give_value-Reads (size_of w) (size_of w + length body) (header_fits w _ short) w (pos p)
            at_header [] (sym (append-nil header))

-- At the end of the packet it says so.
pub next_message_end :
    (w : Width) (p : ℕ) (i : ℤ) (passed current behind : List ℕ)
    → p ≤ length passed + length current
    → next_message (between w (pos p) i (length current) passed current behind)
      ≡ ok false (record (between w (pos p) i (length current) passed current behind) {
        sub_total = pos (length passed + length current);
      })
unfolding next_message
next_message_end w p i passed current behind h =
    ground (arith, +ℤ_pos (length passed) (length current))

-- A walk through a packet: each message opens with its content unread, nextMessage goes on after any
-- number of bytes of it has been read, and after the last there is none.
abbrev pub Walks : Width → ℤ → Run ReceiveBuffer Bool → List (List ℕ) → Type 0
Walks w p r [] = (b : ReceiveBuffer) × (r ≡ ok false b)
Walks w p r (body ∷ bodies) =
    (v : View) × (v.unread ≡ body)
    × (r ≡ ok true (of_view w p v))
    × ((n : ℕ)
        → Walks w p (next_message (of_view w p (advance (take n body) (drop n body) v))) bodies)

abbrev pub AllShort : Width → List (List ℕ) → Type 0
AllShort w [] = Unit
AllShort w (body ∷ bodies) = IsShort w body × AllShort w bodies

pub length-frame : (w : Width) (body : List ℕ) → length (frame w body) ≡ size_of w + length body
length-frame w body = omega (
  arith,
  length-append (le_bytes (size_of w) (size_of w + length body)) body,
  length-le_bytes (size_of w) (size_of w + length body),
)

pub header_pos : (w : Width) → 0 < size_of w
header_pos int16 = omega arith
header_pos int32 = omega arith

-- A message of which some is read is still one stretch of the block.
advance-between :
    (w : Width) (p : ℕ) (v : View) (body xs ys : List ℕ)
    → body ≡ xs ++ ys
    → of_view w (pos p) (advance xs ys v)
      ≡ between w
          (pos p)
          (pos (length (v.read ++ xs)))
          (length (v.read ++ body))
          v.before
          (v.read ++ body)
          v.behind
advance-between w p v body xs ys e = ground (
  arith,
  length-append v.read xs,
  length-append v.read body,
  length-append xs ys,
  ap length e,
  layout,
)
  where
    layout :
        v.before ++ ((v.read ++ xs) ++ (ys ++ v.behind))
        ≡ v.before ++ ((v.read ++ body) ++ v.behind)
    layout = rw e (simp append_assoc)

walk :
    (w : Width) (bodies : List (List ℕ)) (p : ℕ) (i : ℤ) (passed current slack : List ℕ)
    → AllShort w bodies
    → p ≡ length passed + length current + length (frames w bodies)
    → Walks w
        (pos p)
        (next_message
          (between w (pos p) i (length current) passed current (frames w bodies ++ slack)))
        bodies
walk w [] p i passed current slack short e =
    (_, next_message_end w p i passed current slack (omega arith))
walk w (body ∷ bodies) p i passed current slack short e = (
  opened,
  refl,
  ap (λ t. next_message (between w (pos p) i (length current) passed current t))
        (append_assoc (frame w body) (frames w bodies) slack)
      ∙ next_message_lem w p i passed current body (frames w bodies ++ slack) short.0
          (omega (arith, lengths, header_pos w)),
  λ n.
      subst (λ b. Walks w (pos p) (next_message b) bodies)
        (sym (
          advance-between w p opened body (take n body) (drop n body)
            (sym (take-append-drop n body))))
        (walk w bodies p _ (passed ++ current) (opened.read ++ body) slack short.1
          (omega (arith, lengths, length-append passed current, length-frame w body))),
)
  where
    opened : View
    opened = record {
      before = passed ++ current;
      read = le_bytes (size_of w) (size_of w + length body);
      unread = body;
      behind = frames w bodies ++ slack;
    }

    lengths : length (frames w (body ∷ bodies)) ≡ size_of w + length body + length (frames w bodies)
    lengths = omega (arith, length-append (frame w body) (frames w bodies), length-frame w body)

-- On a block that begins with a packet of fewer than 2 to the 31 bytes, of messages that are each
-- measurable in the header, update and then nextMessage open the messages one after the other,
-- with exactly the content of each to be read, and after the last say that there is none,
-- whatever number of bytes of each message is read before nextMessage is called.
pub update-Walks :
    (b : ReceiveBuffer) (bodies : List (List ℕ)) (slack : List ℕ)
    → AllShort b.width bodies
    → length (frames b.width bodies) < half_range int32
    → b.rbuf ≡ frames b.width bodies ++ slack
    → Walks b.width
        (pos (length (frames b.width bodies)))
        (update (length (frames b.width bodies)) b)
        bodies
unfolding update
update-Walks b bodies slack short small e =
    rw (narrow_pos int32 (length (frames b.width bodies)) small, e)
      (walk b.width bodies (length (frames b.width bodies)) b.rindex [] [] slack short
        (omega arith))
