-- ===== src/Fred/Reset.antt =====
-- src/adapters/fred_executor.rs: an executor resets its connection at most once.
use srh_rs.Base.{
  ◌≤◌, ◌≡◌, refl, false, List, [], ◌∷◌, Result, ok, err, Text, text, if◌then◌else◌, arith, inl, inr,
  Option-cases,
}
use srh_rs.Resp.{ExecError, RespValue, RedisCommand}
use srh_rs.Fred.{Frame}
use srh_rs.Fred.Client.{
  ClientError, Sent, FredExecutor, raw, mapped, transaction, queue, not_queued, not_opened, replied,
  execute, pipeline, send_all, take_all, exec, discard, as_sent, control, hash_of, Routing,
}

-- The calls of an executor.
pub data Request : Type 0 where
  executes : RedisCommand → Request
  pipelines transacts : List RedisCommand → Request

-- An executor that has not started a reset has made none, and one that has made one.
abbrev Once : FredExecutor → Type 0
Once x = x.resets ≡ (if x.reset_started then 1 else 0)

mapped-Once :
    {A : Type 0} (x : FredExecutor) (r : Result A ClientError) → Once x → Once (mapped x r).0
unfolding mapped
mapped-Once x (ok a) once = once
mapped-Once x (err e) once = ground arith

bounded : (x : FredExecutor) → Once x → x.resets ≤ 1
bounded x once = ground arith

module _ (show_debug : RespValue → Text)
    (answer : FredExecutor → Sent → Result Frame ClientError) where
  raw-Once : (x : FredExecutor) (s : Sent) → Once x → Once (raw show_debug answer x s).0
  unfolding raw
  raw-Once x s once = mapped-Once _ (answer x s) once

  replied-Once :
      (p : FredExecutor × Result Frame ExecError) → Once p.0 → Once (replied show_debug answer p).0
  replied-Once (x, ok f) once = once
  replied-Once (x, err e) once = once

  exec-Once :
      (p : FredExecutor × Result Frame ExecError) → Once p.0 → Once (exec show_debug answer p).0
  unfolding exec
  exec-Once (x, ok f) once = once
  exec-Once (x, err e) once = once

  queue-Once :
      (hash : Routing) (x : FredExecutor) (cs : List RedisCommand)
      → Once x
      → Once (queue show_debug answer hash x cs).0
  unfolding queue
  queue-Once hash x [] once =
      exec-Once (raw show_debug answer x (control hash (text "EXEC"))) (raw-Once x _ once)
  queue-Once hash x (c ∷ cs) once =
      let sent = raw show_debug answer x (as_sent hash c) in
      let (x', r) = replied show_debug answer sent in
      let once' : Once x' = replied-Once sent (raw-Once x (as_sent hash c) once) in
      elim (Option-cases (not_queued show_debug answer r)) [
        | inl queued ↦ rw (queued, queue) (queue-Once hash x' cs once')
        | inr (e, refused) ↦ rw (refused, queue) (unfold discard in raw-Once x' _ once')
      ]

  transaction-Once :
      (x : FredExecutor) (cs : List RedisCommand)
      → Once x
      → Once (transaction show_debug answer x cs).0
  unfolding transaction
  transaction-Once x [] once = once
  transaction-Once x (c ∷ cs) once =
      let hash = hash_of (c ∷ cs) in
      let sent = raw show_debug answer x (control hash (text "MULTI")) in
      let (x', r) = replied show_debug answer sent in
      let once' : Once x' = replied-Once sent (raw-Once x _ once) in
      elim (Option-cases (not_opened show_debug answer r)) [
        | inl opened ↦ rw (opened, transaction) (queue-Once hash x' (c ∷ cs) once')
        | inr (e, refused) ↦ rw (refused, transaction) once'
      ]

  send_all-Once :
      (x : FredExecutor) (cs : List RedisCommand)
      → Once x
      → Once (send_all show_debug answer x cs).0
  unfolding send_all
  send_all-Once x [] once = once
  send_all-Once x (c ∷ cs) once = send_all-Once _ cs once

  take_all-Once :
      (x : FredExecutor) (answers : List (Result Frame ClientError))
      → Once x
      → Once (take_all show_debug answer x answers).0
  unfolding take_all
  take_all-Once x [] once = once
  take_all-Once x (a ∷ answers) once =
      take_all-Once (replied show_debug answer (mapped x a)).0 answers
        (replied-Once (mapped x a) (mapped-Once x a once))

  unfoldable pub serve : FredExecutor → Request → FredExecutor
  unfolding execute pipeline transaction
  serve x (executes c) = (execute show_debug answer x c).0
  serve x (pipelines cs) = (pipeline show_debug answer x cs).0
  serve x (transacts cs) = (transaction show_debug answer x cs).0

  serve-Once : (x : FredExecutor) (q : Request) → Once x → Once (serve x q)
  unfolding serve
  serve-Once x (executes c) once = replied-Once _ (raw-Once x _ once)
  serve-Once x (pipelines cs) once =
      take_all-Once (send_all show_debug answer x cs).0 (send_all show_debug answer x cs).1
        (send_all-Once x cs once)
  serve-Once x (transacts cs) once = transaction-Once x cs once

  unfoldable pub serve_all : FredExecutor → List Request → FredExecutor
  unfolding serve
  serve_all x [] = x
  serve_all x (q ∷ qs) = serve_all (serve x q) qs

  serve_all-Once : (x : FredExecutor) (qs : List Request) → Once x → Once (serve_all x qs)
  unfolding serve_all
  serve_all-Once x [] once = once
  serve_all-Once x (q ∷ qs) once = serve_all-Once (serve x q) qs (serve-Once x q once)

  -- Whatever an executor is asked and whatever its client answers, it resets the connection at most
  -- once.
  pub one_reset :
      (qs : List Request)
      → (serve_all (record { sent = []; resets = 0; reset_started = false }) qs).resets ≤ 1
  one_reset qs =
      let x = serve_all (record { sent = []; resets = 0; reset_started = false }) qs in
      let once : Once x = serve_all-Once _ qs refl in bounded x once
