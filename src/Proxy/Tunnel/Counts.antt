-- ===== src/Proxy/Tunnel/Counts.antt =====
-- What the figures and the two sides have seen of a pump of src/proxy/tunnel.rs.
use proxybear.Base.{
  refl, ℕ, Bool-cases, inl, inr, none, [], ◌∷◌, List, ◌+◌, ◌%◌, ◌^◌, ◌≡◌, ◌↔◌, true, false, some,
  length, length-append, arith,
}
use proxybear.Stats.{ProxyStats, add_up, add_down}
use proxybear.Proxy.Tunnel.{
  turn_at, finished, failed, Outcome, pump, pump_step, begin, going, Pump, Step, reads, read_fails,
  taken, given, data_message, eof_message, no_message, turn, Upload, reading, sending, ending,
  ended, Download, waiting, writing, upload, upload_read, download, is_upload,
}

-- The bytes that were read from one side and that the other has not taken yet.
abbrev pub up_in_flight : Upload → List ℕ
up_in_flight (sending bytes) = bytes
up_in_flight _ = []

abbrev pub down_in_flight : Download → List ℕ
down_in_flight waiting = []
down_in_flight (writing bytes) = bytes

-- The channel is released once the pump has ended; the end of the upload is passed on; and the figures
-- have grown by what each side has taken and what is still in flight.
pub record IsFair (start : ProxyStats) (p : Pump) : Type 0 where
  pub closed : (p.closed ≡ false) ↔ (p.outcome ≡ going)
  pub half : (p.up ≡ ended) ↔ (p.eof_sent ≡ true)
  pub up :
      p.stats.bytes_up % 2 ^ 64
      ≡ (start.bytes_up + length p.sent + length (up_in_flight p.up)) % 2 ^ 64
  pub down :
      p.stats.bytes_down % 2 ^ 64
      ≡ (start.bytes_down + length p.received + length (down_in_flight p.down)) % 2 ^ 64

module _ (s : ProxyStats) where
  upload_read-IsFair :
      (bs : List ℕ) (p : Pump) → p.up ≡ reading → IsFair s p → IsFair s (upload_read bs p)
  unfolding add_up
  upload_read-IsFair [] p e h = ground arith
  upload_read-IsFair (b ∷ bs) p e h = ground arith

  upload-IsFair :
      (u : Upload) (t : Step) (p : Pump)
      → p.up ≡ u
      → p.outcome ≡ going
      → IsFair s p
      → IsFair s (upload u t p)
  upload-IsFair reading (reads bs) p e g h = upload_read-IsFair bs p e h
  upload-IsFair reading (read_fails x) p e g h = ground arith
  upload-IsFair (sending bs) (taken none) p e g h = ground (arith, length-append p.sent bs)
  upload-IsFair (sending bs) (taken (some x)) p e g h = ground arith
  upload-IsFair ending (taken none) p e g h = ground arith
  upload-IsFair ending (taken (some x)) p e g h = ground arith
  upload-IsFair _ _ p e g h = h

  download-IsFair :
      (d : Download) (t : Step) (p : Pump)
      → p.down ≡ d
      → p.outcome ≡ going
      → IsFair s p
      → IsFair s (download d t p)
  unfolding add_down
  download-IsFair waiting (data_message bs) p e g h = ground arith
  download-IsFair waiting eof_message p e g h = ground arith
  download-IsFair waiting no_message p e g h = ground arith
  download-IsFair waiting _ p e g h = h
  download-IsFair (writing bs) (given none) p e g h = ground (arith, length-append p.received bs)
  download-IsFair (writing bs) (given (some x)) p e g h = ground arith
  download-IsFair (writing bs) _ p e g h = h

turn-IsFair :
    (s : ProxyStats) (t : Step) (p : Pump) → p.outcome ≡ going → IsFair s p → IsFair s (turn t p)
unfolding turn
turn-IsFair s t p g h = elim (Bool-cases (is_upload t)) [
  | inl e ↦ rw (e, turn) (upload-IsFair s p.up t p refl g h)
  | inr e ↦ rw (e, turn) (download-IsFair s p.down t p refl g h)
]

turn_at-IsFair :
    (s : ProxyStats) (t : Step) (p : Pump) (o : Outcome)
    → p.outcome ≡ o
    → IsFair s p
    → IsFair s (turn_at o t p)
turn_at-IsFair s t p going e h = turn-IsFair s t p e h
turn_at-IsFair s t p finished e h = h
turn_at-IsFair s t p (failed x) e h = h

pump_step-IsFair : (s : ProxyStats) (t : Step) (p : Pump) → IsFair s p → IsFair s (pump_step t p)
unfolding pump_step
pump_step-IsFair s t p h = turn_at-IsFair s t p p.outcome refl h

pump-IsFair : (s : ProxyStats) (ts : List Step) (p : Pump) → IsFair s p → IsFair s (pump ts p)
unfolding pump
pump-IsFair s [] p h = h
pump-IsFair s (t ∷ ts) p h = pump-IsFair s ts (pump_step t p) (pump_step-IsFair s t p h)

begin-IsFair : (s : ProxyStats) → IsFair s (begin s)
unfolding begin
begin-IsFair s = record {
  closed = (λ e. refl, λ e. refl);
  half = (λ e. cc, λ e. cc);
  up = omega arith;
  down = omega arith;
}

-- However the two directions of a pump take turns: the channel is closed exactly when the pump has
-- ended; the upload has ended exactly when the end of file was passed on; and the figures have grown by
-- the bytes that each side has taken and those that were read for it and that it has not taken yet,
-- modulo their width.
pub pump-begin-IsFair : (s : ProxyStats) (ts : List Step) → IsFair s (pump ts (begin s))
pump-begin-IsFair s ts = pump-IsFair s ts (begin s) (begin-IsFair s)
