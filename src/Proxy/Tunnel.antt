-- ===== src/Proxy/Tunnel.antt =====
-- src/proxy/tunnel.rs: `pump`, which copies between a client and an SSH channel, as the steps in which
-- its two directions take turns. The bytes of both sides, and the errors of writing, are in the steps.
pub mod Counts
use proxybear.Base.{
  ℕ, Bool, true, false, Option, none, some, List, [], ◌∷◌, ◌++◌, Text, codes, length, if◌then◌else◌,
}
use proxybear.Stats.{ProxyStats, add_up, add_down}

pub data TunnelError : Type 0 where
  local_io ssh : Text → TunnelError

unfoldable pub ssh_session_failed : TunnelError → Bool
ssh_session_failed (local_io t) = false
ssh_session_failed (ssh t) = true

-- `fmt`.
unfoldable pub error_text : TunnelError → Text
error_text (local_io t) = codes "local tunnel I/O failed: " ++ t
error_text (ssh t) = codes "SSH tunnel failed: " ++ t

-- How a pump ends, or that it goes on.
pub data Outcome : Type 0 where
  going finished : Outcome
  failed : TunnelError → Outcome

-- Where the upload stands: it reads from the client, waits until the channel has taken the bytes that
-- were read, waits until the channel has taken the end, or has ended.
pub data Upload : Type 0 where
  reading : Upload
  sending : List ℕ → Upload
  ending ended : Upload

-- Where the download stands: it waits for a message, or until the client has taken the bytes of one.
pub data Download : Type 0 where
  waiting : Download
  writing : List ℕ → Download

-- `sent` is what the channel took, `received` what the client took. Both sides are released once the
-- pump has ended.
pub record Pump : Type 0 where
  pub up : Upload
  pub down : Download
  pub sent : List ℕ
  pub received : List ℕ
  pub eof_sent : Bool
  pub closed : Bool
  pub outcome : Outcome
  pub stats : ProxyStats

unfoldable pub begin : ProxyStats → Pump
begin stats = record {
  up = reading;
  down = waiting;
  sent = [];
  received = [];
  eof_sent = false;
  closed = false;
  outcome = going;
  stats = stats;
}

-- What an `await` of the two directions comes back with: a read from the client, where no bytes are its
-- end, or its failure; that the channel has taken what it was given, or the error; a message of the
-- channel; and that the client has taken what it was given, or the error.
pub data Step : Type 0 where
  reads : List ℕ → Step
  read_fails : Text → Step
  taken : Option Text → Step
  data_message : List ℕ → Step
  eof_message other_message no_message : Step
  given : Option Text → Step

abbrev pub finish : Outcome → Pump → Pump
finish outcome p = record p { outcome = outcome; closed = true }

-- `local_read.read` has returned: the bytes are counted before the channel takes them.
abbrev pub upload_read : List ℕ → Pump → Pump
upload_read [] p = record p { up = ending }
upload_read (b ∷ bytes) p = record p {
  up = sending (b ∷ bytes);
  stats = add_up (length (b ∷ bytes)) p.stats;
}

-- `to_remote.data` or `to_remote.eof` has returned.
abbrev pub upload_taken : Upload → Option Text → Pump → Pump
upload_taken (sending bytes) none p = record p { up = reading; sent = p.sent ++ bytes }
upload_taken (sending bytes) (some e) p = finish (failed (ssh e)) p
upload_taken ending none p = record p { up = ended; eof_sent = true }
upload_taken ending (some e) p = finish (failed (ssh e)) p
upload_taken reading e p = p
upload_taken ended e p = p

-- What the upload does with a step; it takes only what it waits for.
abbrev pub upload : Upload → Step → Pump → Pump
upload reading (reads bytes) p = upload_read bytes p
upload reading (read_fails e) p = finish (failed (local_io e)) p
upload (sending bytes) (taken e) p = upload_taken (sending bytes) e p
upload ending (taken e) p = upload_taken ending e p
upload _ _ p = p

-- `from_remote.wait` has returned: the bytes are counted before the client takes them.
abbrev pub download_message : Step → Pump → Pump
download_message (data_message bytes) p = record p {
  down = writing bytes;
  stats = add_down (length bytes) p.stats;
}
download_message eof_message p = finish finished p
download_message no_message p = finish finished p
download_message _ p = p

-- `local_write.write_all` has returned.
abbrev pub download_given : List ℕ → Option Text → Pump → Pump
download_given bytes none p = record p { down = waiting; received = p.received ++ bytes }
download_given bytes (some e) p = finish (failed (local_io e)) p

-- What the download does with a step; while the client takes bytes no message is read.
abbrev pub download : Download → Step → Pump → Pump
download waiting s p = download_message s p
download (writing bytes) (given e) p = download_given bytes e p
download (writing bytes) _ p = p

-- Whether a step is one of the upload.
abbrev pub is_upload : Step → Bool
is_upload (reads bytes) = true
is_upload (read_fails e) = true
is_upload (taken e) = true
is_upload _ = false

-- One step of a pump that goes on; the end of the upload does not end the download.
unfoldable pub turn : Step → Pump → Pump
turn s p = if is_upload s then upload p.up s p else download p.down s p

-- After its end nothing is read or written any more.
abbrev pub turn_at : Outcome → Step → Pump → Pump
turn_at going s p = turn s p
turn_at finished s p = p
turn_at (failed e) s p = p

unfoldable pub pump_step : Step → Pump → Pump
pump_step s p = turn_at p.outcome s p

unfoldable pub pump : List Step → Pump → Pump
pump [] p = p
pump (s ∷ ss) p = pump ss (pump_step s p)
