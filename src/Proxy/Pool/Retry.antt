-- ===== src/Proxy/Pool/Retry.antt =====
-- How `open_channel` of src/proxy/pool.rs goes on after an attempt.
use proxybear.Base.{ℕ, ◌≡◌, ◌∙◌, ◌≢◌, false, arith, Result, ok, err, Error, subst}
use proxybear.Proxy.Pool.{Pool, is_live, kill}
use proxybear.Proxy.Pool.Select.{acquire-IsBest}
use proxybear.Proxy.Pool.Sessions.{is_live-kill, is_live-drop_lease}
use proxybear.Proxy.Pool.Channel.{
  Response, Round, ChannelAttempt, channel, target, session, failed, ready, subscribe, acquire,
  open_on, settle, attempt_on, attempt,
}

settle_failed :
    (id : ℕ) (x : Pool × ChannelAttempt) (e : Error)
    → (settle id x).1 ≡ failed e
    → is_live (settle id x).0 id ≡ false
unfolding settle
settle_failed id (p, channel c) e h = cc
settle_failed id (p, target t) e h = cc
settle_failed id (p, session f) e h = is_live-drop_lease (kill p id) id id ∙ is_live-kill p id

attempt_on_failed :
    (r : Response) (x : Pool × Result ℕ) (id : ℕ) (e : Error)
    → x.1 ≡ ok id
    → (attempt_on r x).1 ≡ failed e
    → is_live (attempt_on r x).0 id ≡ false
unfolding attempt_on
attempt_on_failed r (p, err f) id e h k = cc
attempt_on_failed r (p, ok i) id e h k =
    let same : i ≡ id = ground arith in
    subst (λ j. is_live (settle i (open_on r p i)).0 j ≡ false) same
      (settle_failed i (open_on r p i) e k)

-- A session on which an attempt failed is not live any more.
attempt_failed :
    (r : Round) (p : Pool) (id : ℕ) (e : Error)
    → (acquire r.wait p).1 ≡ ok id
    → (attempt r p).1 ≡ failed e
    → is_live (attempt r p).0 id ≡ false
unfolding attempt
attempt_failed r p id e h k = attempt_on_failed r.response (acquire r.wait p) id e h k

-- Other tasks never bring a session back to life.
abbrev pub NoRevival : (Pool → Pool) → Type 0
NoRevival meanwhile = (p : Pool) (id : ℕ) → is_live p id ≡ false → is_live (meanwhile p) id ≡ false

is_live-subscribe : (p : Pool) (id : ℕ) → is_live (subscribe p) id ≡ is_live p id
unfolding subscribe is_live
is_live-subscribe p id = ground arith

-- After a failed attempt on a session the next attempt gets another one, if the other tasks bring no
-- session back to life in between.
pub attempt-elsewhere :
    (r : Round) (p : Pool) (id : ℕ) (e : Error) (meanwhile : Pool → Pool) (id' : ℕ)
    → (acquire r.wait p).1 ≡ ok id
    → (attempt r p).1 ≡ failed e
    → NoRevival meanwhile
    → (acquire (ready meanwhile) (attempt r p).0).1 ≡ ok id'
    → id ≢ id'
attempt-elsewhere r p id e meanwhile id' h k keep h' same =
    let q = (attempt r p).0 in
    let best = acquire-IsBest meanwhile q id' h' in
    let gone = keep (subscribe q) id (is_live-subscribe q id ∙ attempt_failed r p id e h k) in
    cc (best.live, gone, same)
