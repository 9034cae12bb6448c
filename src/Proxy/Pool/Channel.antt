-- ===== src/Proxy/Pool/Channel.antt =====
-- src/proxy/pool.rs: `acquire`, `open_on` and `open_channel`, which open a channel on a session.
use proxybear.Base.{
  ℕ, zero, suc, ◌+◌, ◌-◌, Bool, true, not, Option, none, some, List, [], ◌∷◌, Text, codes, any, ltb,
  if◌then◌else◌, Error, Result, ok, err, bail,
}
use proxybear.Proxy.Pool.{
  Pool, is_live, load, kill, new_lease, drop_lease, live_sessions, check_sessions,
}

abbrev pub channel_open_attempts : ℕ
channel_open_attempts = 2

-- What russh answers to the request for a channel.
pub data Opening : Type 0 where
  opened : ℕ → Opening
  open_failure : Text → Opening
  other_error : Text → Opening

pub data ChannelAttempt : Type 0 where
  channel : ℕ → ChannelAttempt
  target : Text → ChannelAttempt
  session : Error → ChannelAttempt

unfoldable pub classify_channel_open : Opening → ChannelAttempt
classify_channel_open (opened c) = channel c
classify_channel_open (open_failure e) = target e
classify_channel_open (other_error e) = session (e ∷ [])

-- How the wait in `acquire` ends: in time, with what the other tasks did meanwhile, or not.
pub data Wait : Type 0 where
  timed_out : Wait
  ready : (Pool → Pool) → Wait

-- `min_by_key`: the first of the smallest.
unfoldable pub least_loaded_from : Pool → ℕ → List ℕ → ℕ
least_loaded_from p best [] = best
least_loaded_from p best (id ∷ ids) =
    least_loaded_from p (if ltb (load p id) (load p best) then id else best) ids

unfoldable pub least_loaded : Pool → List ℕ → Option ℕ
unfolding least_loaded_from
least_loaded p [] = none
least_loaded p (id ∷ ids) = some (least_loaded_from p id ids)

-- Whether a slot is empty or holds a session that is not live.
unfoldable pub slot_wants : Pool → Option ℕ → Bool
slot_wants p none = true
slot_wants p (some id) = not (is_live p id)

-- The first half of `acquire`: the client becomes a receiver, and wakes idle supervisors.
unfoldable pub subscribe : Pool → Pool
unfolding slot_wants
subscribe p =
    let p' = record p { receivers = p.receivers + 1 } in
    if any (slot_wants p') p'.slots then record p' { wakes = p'.wakes + 1 } else p'

unfoldable pub unsubscribe : Pool → Pool
unsubscribe p = record p { receivers = p.receivers - 1 }

-- The choice among the live sessions, and its lease.
unfoldable pub select : Pool → Pool × Result ℕ
unfolding least_loaded
select p = elim (least_loaded p (live_sessions p)) [
  | none ↦ (unsubscribe p, bail (codes "SSH session closed while being selected"))
  | some id ↦ (unsubscribe (new_lease p id), ok id)
]

unfoldable pub acquire : Wait → Pool → Pool × Result ℕ
unfolding subscribe unsubscribe select
acquire timed_out p =
    (unsubscribe (subscribe p), bail (codes "no SSH session became available within 10s"))
acquire (ready meanwhile) p = select (meanwhile (subscribe p))

-- How the request for a channel ends: at once; late, while some pings have already failed; or after
-- all pings were answered or missed.
pub data Response : Type 0 where
  prompt : Opening → Response
  late : (ℕ → Bool) → Opening → Response
  pinged : (ℕ → Bool) → Opening → Response

unfoldable pub open_on : Response → Pool → ℕ → Pool × ChannelAttempt
unfolding classify_channel_open
open_on (prompt o) p id = (p, classify_channel_open o)
open_on (late answers o) p id = (check_sessions answers p, classify_channel_open o)
open_on (pinged answers o) p id =
    let p' = check_sessions answers p in
    (
      p',
      if is_live p' id
          then classify_channel_open o
          else session (codes "SSH session did not answer ping within 3s" ∷ []),
    )

pub record Round : Type 0 where
  pub wait : Wait
  pub response : Response

-- A channel, and the session that its lease counts against.
pub record OpenedChannel : Type 0 where
  pub channel : ℕ
  pub lease : ℕ

-- What the loop does with one attempt: it ends with a result, or goes on after an error.
pub data Attempted : Type 0 where
  finished : Result OpenedChannel → Attempted
  failed : Error → Attempted

-- The lease is dropped unless the channel is returned with it.
unfoldable pub settle : ℕ → Pool × ChannelAttempt → Pool × Attempted
settle id (p, channel c) = (p, finished (ok (record { channel = c; lease = id })))
settle id (p, target e) =
    (drop_lease p id, finished (err (codes "SSH server failed to open target channel" ∷ e ∷ [])))
settle id (p, session e) = (drop_lease (kill p id) id, failed e)

unfoldable pub attempt_on : Response → Pool × Result ℕ → Pool × Attempted
unfolding settle open_on
attempt_on response (p, err e) = (p, finished (err e))
attempt_on response (p, ok id) = settle id (open_on response p id)

unfoldable pub attempt : Round → Pool → Pool × Attempted
unfolding attempt_on acquire
attempt r p = attempt_on r.response (acquire r.wait p)

-- The rest of the loop, where it goes on.
abbrev pub continue :
    Pool × Attempted → (Error → Pool → Pool × Result OpenedChannel) → Pool × Result OpenedChannel
continue (p, finished result) next = (p, result)
continue (p, failed e) next = next e p

-- The loop of `open_channel`, with the attempts left and the last error.
unfoldable pub attempts : ℕ → (ℕ → Round) → Error → Pool → Pool × Result OpenedChannel
attempts zero rounds last p = (p, err (codes "failed to open SSH channel" ∷ last))
attempts (suc n) rounds last p = continue (attempt (rounds n) p) λ e p'. attempts n rounds e p'

unfoldable pub open_channel : (ℕ → Round) → Pool → Pool × Result OpenedChannel
unfolding attempts
open_channel rounds p =
    attempts channel_open_attempts rounds (codes "no SSH session attempts were made" ∷ []) p
