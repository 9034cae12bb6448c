-- ===== src/Proxy/Pool/Leases.antt =====
-- The load of each session counts the channels that are open on it: `open_channel` of
-- src/proxy/pool.rs takes a lease for the channel that it returns, and leaves none behind.
use proxybear.Base.{
  ℕ, zero, suc, ◌+◌, ◌^◌, ◌<◌, ◌≡◌, refl, ◌∙◌, ◌≢◌, true, [], ◌∷◌, arith, codes, Result, ok, err,
  Error,
}
use native.Mathlib.Decide.{ℕ_discrete}
use proxybear.Proxy.Pool.{Pool, is_live, load, kill, new_lease, drop_lease}
use proxybear.Proxy.Pool.Select.{select_cases}
use proxybear.Proxy.Pool.Sessions.{
  load-kill, load-check_sessions, load-new_lease_self, load-new_lease_ne, load-drop_lease_ne,
  load-drop_lease_self,
}
use proxybear.Proxy.Pool.Channel.{
  channel_open_attempts, Response, prompt, late, pinged, Round, OpenedChannel, ChannelAttempt,
  channel, target, session, Attempted, finished, failed, Wait, timed_out, ready, subscribe,
  unsubscribe, select, acquire, open_on, settle, attempt_on, attempt, attempts, continue,
  open_channel,
}

-- One lease more than before on one session, and as many on every other.
pub record OneMore (before after : Pool) (id : ℕ) : Type 0 where
  pub leased : load after id ≡ load before id + 1
  pub others : (j : ℕ) → id ≢ j → load after j ≡ load before j

abbrev pub SameLoad : Pool → Pool → Type 0
SameLoad before after = (j : ℕ) → load after j ≡ load before j

-- No session has so many channels that its count would wrap.
abbrev pub HasRoom : Pool → Type 0
HasRoom p = (j : ℕ) → load p j + 1 < 2 ^ 64

pub OneMore-trans : (p q r : Pool) (id : ℕ) → OneMore p q id → SameLoad q r → OneMore p r id
OneMore-trans p q r id h k = record {
  leased = k id ∙ h.leased;
  others = λ j ne. k j ∙ h.others j ne;
}

new_lease-OneMore :
    (p : Pool) (id : ℕ) → HasRoom p → is_live p id ≡ true → OneMore p (new_lease p id) id
new_lease-OneMore p id room live = record {
  leased = omega (arith, load-new_lease_self p id live, room id);
  others = load-new_lease_ne p id;
}

pub drop_lease-SameLoad :
    (p q : Pool) (id : ℕ) → HasRoom p → OneMore p q id → SameLoad p (drop_lease q id)
drop_lease-SameLoad p q id room h j = elim (ℕ_discrete id j) [
  | yes e ↦
      rw (← e)
        (load-drop_lease_self q id (load p id) (omega (arith, h.leased)) (omega (arith, room id)))
  | no ne ↦ load-drop_lease_ne q id j ne ∙ h.others j ne
]

open_on-SameLoad : (r : Response) (p : Pool) (id : ℕ) → SameLoad p (open_on r p id).0
unfolding open_on
open_on-SameLoad (prompt o) p id j = refl
open_on-SameLoad (late answers o) p id j = load-check_sessions answers p j
open_on-SameLoad (pinged answers o) p id j = load-check_sessions answers p j

-- What an attempt leaves behind.
abbrev pub Counted : Pool → Pool → Attempted → Type 0
Counted before after (failed e) = SameLoad before after
Counted before after (finished (err e)) = SameLoad before after
Counted before after (finished (ok o)) = OneMore before after o.lease

settle-Counted :
    (p q : Pool) (id : ℕ) (a : ChannelAttempt)
    → HasRoom p
    → OneMore p q id
    → Counted p (settle id (q, a)).0 (settle id (q, a)).1
unfolding settle
settle-Counted p q id (channel c) room h = h
settle-Counted p q id (target e) room h = drop_lease-SameLoad p q id room h
settle-Counted p q id (session e) room h =
    drop_lease-SameLoad p (kill q id) id room (OneMore-trans p q (kill q id) id h (load-kill q id))

subscribe-SameLoad : (p : Pool) → SameLoad p (subscribe p)
unfolding subscribe load
subscribe-SameLoad p j = ground arith

unsubscribe-SameLoad : (p : Pool) → SameLoad p (unsubscribe p)
unfolding unsubscribe load
unsubscribe-SameLoad p j = refl

select-Counted :
    (p : Pool) (r : Response)
    → HasRoom p
    → Counted p (attempt_on r (select p)).0 (attempt_on r (select p)).1
unfolding attempt_on
select-Counted p r room =
    select_cases (λ x. Counted p (attempt_on r x).0 (attempt_on r x).1) p
      (λ message. unsubscribe-SameLoad p)
      λ id best.
        let q = unsubscribe (new_lease p id) in
        let one =
          OneMore-trans p (new_lease p id) q id (new_lease-OneMore p id room best.live)
            (unsubscribe-SameLoad (new_lease p id)) in
        settle-Counted p (open_on r q id).0 id (open_on r q id).1 room
          (OneMore-trans p q (open_on r q id).0 id one (open_on-SameLoad r q id))

SameLoad-HasRoom : (p q : Pool) → SameLoad p q → HasRoom p → HasRoom q
SameLoad-HasRoom p q h room j = rw (h j) (room j)

Counted-trans : (p q r : Pool) (a : Attempted) → SameLoad p q → Counted q r a → Counted p r a
Counted-trans p q r (failed e) h k = λ j. k j ∙ h j
Counted-trans p q r (finished (err e)) h k = λ j. k j ∙ h j
Counted-trans p q r (finished (ok o)) h k = record {
  leased = rw (← h o.lease) k.leased;
  others = λ j ne. k.others j ne ∙ h j;
}

-- The other tasks take and drop no leases while a client waits.
abbrev pub IsQuiet : Wait → Type 0
IsQuiet timed_out = Unit {0}
IsQuiet (ready meanwhile) = (p : Pool) → SameLoad p (meanwhile p)

attempt-Counted :
    (r : Round) (w : Wait) (p : Pool)
    → r.wait ≡ w
    → IsQuiet w
    → HasRoom p
    → Counted p (attempt r p).0 (attempt r p).1
unfolding attempt acquire
attempt-Counted r timed_out p e quiet room =
    rw (e, acquire) λ j. unsubscribe-SameLoad (subscribe p) j ∙ subscribe-SameLoad p j
attempt-Counted r (ready meanwhile) p e quiet room =
    let q = meanwhile (subscribe p) in
    let same : SameLoad p q = λ j. quiet (subscribe p) j ∙ subscribe-SameLoad p j in
    rw (e, acquire)
      (Counted-trans p q _ _ same (select-Counted q r.response (SameLoad-HasRoom p q same room)))

abbrev pub Leased : Pool → Pool → Result OpenedChannel → Type 0
Leased before after (ok o) = OneMore before after o.lease
Leased before after (err e) = SameLoad before after

continue-Leased :
    (p : Pool) (x : Pool × Attempted) (next : Error → Pool → Pool × Result OpenedChannel)
    → Counted p x.0 x.1
    → ((e : Error) → SameLoad p x.0 → Leased p (next e x.0).0 (next e x.0).1)
    → Leased p (continue x next).0 (continue x next).1
continue-Leased p (q, finished (ok o)) next h k = h
continue-Leased p (q, finished (err e)) next h k = h
continue-Leased p (q, failed e) next h k = k e h

Leased-trans :
    (p q r : Pool) (a : Result OpenedChannel) → SameLoad p q → Leased q r a → Leased p r a
Leased-trans p q r (ok o) h k = Counted-trans p q r (finished (ok o)) h k
Leased-trans p q r (err e) h k = Counted-trans p q r (finished (err e)) h k

attempts-Leased :
    (n : ℕ) (rounds : ℕ → Round) (last : Error) (p : Pool)
    → ((i : ℕ) → IsQuiet (rounds i).wait)
    → HasRoom p
    → let r = attempts n rounds last p in Leased p r.0 r.1
unfolding attempts
attempts-Leased zero rounds last p quiet room = λ j. refl
attempts-Leased (suc n) rounds last p quiet room =
    continue-Leased p (attempt (rounds n) p) (λ e p'. attempts n rounds e p')
      (attempt-Counted (rounds n) _ p refl (quiet n) room)
      λ e same.
        let q = (attempt (rounds n) p).0 in
        Leased-trans p q _ _ same
          (attempts-Leased n rounds e q quiet (SameLoad-HasRoom p q same room))

-- If the other tasks leave the loads alone while it waits and no load is at the end of its range,
-- `open_channel` adds one to the load of the session whose lease it returns and changes no other load;
-- where it fails it changes no load at all.
pub open_channel-Leased :
    (rounds : ℕ → Round) (p : Pool)
    → ((i : ℕ) → IsQuiet (rounds i).wait)
    → HasRoom p
    → Leased p (open_channel rounds p).0 (open_channel rounds p).1
unfolding open_channel
open_channel-Leased rounds p quiet room =
    attempts-Leased channel_open_attempts rounds (codes "no SSH session attempts were made" ∷ []) p
      quiet room
