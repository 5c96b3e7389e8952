-- ===== src/Proxy/Connector/Lines.antt =====
-- Which lines of the wire log close a connection.
use wiretally.Prelude.{
  ℕ, ◌+◌, ◌≡◌, refl, ◌∙◌, true, false, Bool, Bool-cases, inl, inr, Option, none, some, List, [],
  ◌∷◌, ◌++◌, length, Result, ok, err, ◌==◌, if◌then◌else◌, arith,
}
use wiretally.Text.{Text, chars}
use wiretally.Net.{IpAddr}
use wiretally.Stream.{IoError}
use wiretally.Map.{text_key}
use wiretally.Stats.{update}
use wiretally.Io.{
  ByteStream, Poll, pending, ready, Side, client, upstream, ConnLog, LogLine, event, tx, rx, logged,
  Counting, counting, on_read, on_write, count_read, count_write, read_side, write_side,
  record_egress, record_ingress,
}
use wiretally.Io.Run.{Op, read, write, write_vectored, flush, shutdown, step}
use wiretally.Proxy.Tunnel.{Connection, observe_peer, log_open}
use wiretally.Proxy.Splice.{Shared, log_close, close_line}

abbrev pub starts_with : Text → Text → Bool
starts_with [] t = true
starts_with (c ∷ s) [] = false
starts_with (c ∷ s) (d ∷ t) = let rest = starts_with s t in if c == d then rest else false

abbrev pub is_close : LogLine → Bool
is_close (id, body) = starts_with (chars "CLOSE") body

-- How many lines close a connection.
abbrev pub closes : List LogLine → ℕ
closes [] = 0
closes (l ∷ ls) = let rest = closes ls in if is_close l then 1 + rest else rest

pub closes-append : (ls ms : List LogLine) → closes (ls ++ ms) ≡ closes ls + closes ms
closes-append [] ms = omega arith
closes-append (l ∷ ls) ms = elim (Bool-cases (is_close l)) [
  | inl closing ↦ rw closing (omega (arith, closes-append ls ms))
  | inr other ↦ rw other (closes-append ls ms)
]

pub closes-event :
    (log : ConnLog) (body : Text) (ls : List LogLine)
    → starts_with (chars "CLOSE") body ≡ false
    → closes (event log body ls) ≡ closes ls
unfolding event
closes-event log body ls h = closes-append ls ((log.id, body) ∷ []) ∙ rw h (omega arith)

-- The wire log's other lines do not.
pub closes-logged :
    (log : Option ConnLog) (n : ℕ) (ls : List LogLine)
    → (closes (logged tx log n ls) ≡ closes ls) × (closes (logged rx log n ls) ≡ closes ls)
unfolding logged tx rx
closes-logged none n ls = (refl, refl)
closes-logged (some log) n ls = (closes-event log _ ls refl, closes-event log _ ls refl)

pub closes-log_open :
    (log : Option ConnLog) (c : Connection) (i : ℕ) (ip : Option IpAddr) (host : Text) (port : ℕ)
    → (closes (observe_peer ip i log host port c).lines ≡ closes c.lines)
      × ((observe_peer ip i log host port c).registry.open_connections
          ≡ c.registry.open_connections)
unfolding log_open observe_peer update
closes-log_open log c i none host port = (refl, refl)
closes-log_open none c i (some ip) host port = (refl, refl)
closes-log_open (some log) c i (some ip) host port = (closes-event log _ c.lines refl, refl)

pub closes-log_close :
    (log : ConnLog) (i : ℕ) (sh : Shared)
    → closes (log_close (some log) i sh).lines ≡ closes sh.lines + 1
unfolding log_close event close_line
closes-log_close log i sh = closes-append sh.lines _

module _ {S : Type 0} where
  closes-side :
      (side : Side) (n : ℕ) (c : Counting S)
      → (closes (read_side side n c).lines ≡ closes c.lines)
        × (closes (write_side side n c).lines ≡ closes c.lines)
  unfolding read_side write_side record_egress record_ingress
  closes-side client n c = closes-logged c.log n c.lines
  closes-side upstream n c = ((closes-logged c.log n c.lines).1, (closes-logged c.log n c.lines).0)

  closes-on :
      (n : ℕ) (c : Counting S)
      → (closes (on_read n c).lines ≡ closes c.lines)
        × (closes (on_write n c).lines ≡ closes c.lines)
  unfolding on_read on_write
  closes-on n c = elim (Bool-cases (n == 0)) [
    | inl none_moved ↦ rw none_moved (refl, refl)
    | inr some_moved ↦ rw some_moved (closes-side c.side n c)
  ]

  closes-count_read :
      (p : Poll (Result IoError (List ℕ))) (c : Counting S)
      → closes (count_read p c).lines ≡ closes c.lines
  unfolding count_read
  closes-count_read pending c = refl
  closes-count_read (ready (ok bytes)) c = (closes-on (length bytes) c).0
  closes-count_read (ready (err e)) c = refl

  closes-count_write :
      (p : Poll (Result IoError ℕ)) (c : Counting S)
      → closes (count_write p c).lines ≡ closes c.lines
  unfolding count_write
  closes-count_write pending c = refl
  closes-count_write (ready (ok n)) c = (closes-on n c).1
  closes-count_write (ready (err e)) c = refl

  pub closes-step :
      (b : ByteStream S) (op : Op) (c : Counting S)
      → closes (step (counting b) op c).1.lines ≡ closes c.lines
  unfolding step counting
  closes-step b (read room) c =
      closes-count_read (b.poll_read room c.inner).0
        (record c { inner = (b.poll_read room c.inner).1 })
  closes-step b (write buf) c =
      closes-count_write (b.poll_write buf c.inner).0
        (record c { inner = (b.poll_write buf c.inner).1 })
  closes-step b (write_vectored bufs) c =
      closes-count_write (b.poll_write_vectored bufs c.inner).0
        (record c { inner = (b.poll_write_vectored bufs c.inner).1 })
  closes-step b flush c = refl
  closes-step b shutdown c = refl
