-- ===== src/Auth/Progress.antt =====
-- What becomes of a request.
use otel_hive.Base.{
  ℕ, zero, suc, ◌≡◌, refl, subst, Option, none, some, List, [], ◌∷◌, ◌++◌, map, get_elem?,
}
use otel_hive.Text.{Text}
use otel_hive.Api.{Response, Outcome, Reader}
use otel_hive.Auth.{
  TokenPair, Task, sent, waiting, resent, settled, Client, Event, set, wake, finish_refresh, step,
  run, store_tokens, end_session,
}
use otel_hive.Auth.Moves.{
  Move, IsOpen, IsFirst, stays, registers, sends, settles, leaves_null, starts, joins, sticks,
  fails, renews, logs_in, knows, ends, step-Move,
}

-- A request is sent, waits at most once, is sent again at most once, and keeps its outcome.
pub data Later {J : Type 0} : Task J → Task J → Type 0 where
  same : {t : Task J} → Later t t
  waits : {a : Option Text} {r : Response J} → Later (sent a) (waiting r)
  answered : {a : Option Text} {o : Outcome J} → Later (sent a) (settled o)
  sent_then_resent : {a b : Option Text} → Later (sent a) (resent b)
  retried : {r : Response J} {b : Option Text} → Later (waiting r) (resent b)
  gave_up : {r : Response J} {o : Outcome J} → Later (waiting r) (settled o)
  answered_again : {b : Option Text} {o : Outcome J} → Later (resent b) (settled o)

Later-trans : {J : Type 0} {s t u : Task J} → Later s t → Later t u → Later s u
Later-trans same k = k
Later-trans waits same = waits
Later-trans waits retried = sent_then_resent
Later-trans waits gave_up = answered
Later-trans answered same = answered
Later-trans sent_then_resent same = sent_then_resent
Later-trans sent_then_resent answered_again = answered
Later-trans retried same = retried
Later-trans retried answered_again = gave_up
Later-trans gave_up same = gave_up
Later-trans answered_again same = answered_again

-- The request at index `i` is there, at its old or at a later stage.
abbrev pub Advances : {J : Type 0} → ℕ → Task J → List (Task J) → Type 0
Advances {J} i t tasks = (u : Task J) × (get_elem? tasks i ≡ some u) × Later t u

module _ {J : Type 0} where
  snoc-Advances :
      (xs : List (Task J)) (i : ℕ) (v : Task J) {t : Task J}
      → get_elem? xs i ≡ some t
      → Advances i t (xs ++ v ∷ [])
  snoc-Advances [] i v h = cc
  snoc-Advances (x ∷ xs) zero v h = (x, refl, subst (λ u. Later u x) (cc) same)
  snoc-Advances (x ∷ xs) (suc i) v h = snoc-Advances xs i v h

  -- Writing a later stage of what stands at `j`.
  set-Advances :
      (P : Option (Task J) → Type 0) (v : Task J)
      → ((t : Task J) → P (some t) → Later t v)
      → (xs : List (Task J)) (i j : ℕ) {t : Task J} → P (get_elem? xs j)
      → get_elem? xs i ≡ some t
      → Advances i t (set xs j v)
  set-Advances P v later [] i j p h = cc
  set-Advances P v later (x ∷ xs) zero zero {t} p h = (v, refl, later t (subst P h p))
  set-Advances P v later (x ∷ xs) zero (suc j) p h = (x, refl, subst (λ u. Later u x) (cc) same)
  set-Advances P v later (x ∷ xs) (suc i) zero {t} p h = (t, h, same)
  set-Advances P v later (x ∷ xs) (suc i) (suc j) p h = set-Advances P v later xs i j p h

  open-Later : (o : Outcome J) (t : Task J) → IsOpen (some t) → Later t (settled o)
  open-Later o (sent a) p = answered
  open-Later o (waiting r) p = absurd p
  open-Later o (resent a) p = answered_again
  open-Later o (settled o') p = absurd p

  first-Later : (o : Outcome J) (t : Task J) → IsFirst (some t) → Later t (settled o)
  first-Later o (sent a) p = answered
  first-Later o (waiting r) p = absurd p
  first-Later o (resent a) p = absurd p
  first-Later o (settled o') p = absurd p

  first-waits : (r : Response J) (t : Task J) → IsFirst (some t) → Later t (waiting r)
  first-waits r (sent a) p = waits
  first-waits r (waiting r') p = absurd p
  first-waits r (resent a) p = absurd p
  first-waits r (settled o) p = absurd p

  wake-Later : (read : Reader J) (token : Option Text) (t : Task J) → Later t (wake read token t)
  unfolding wake
  wake-Later read none (waiting r) = gave_up
  wake-Later read (some []) (waiting r) = gave_up
  wake-Later read (some (c ∷ s)) (waiting r) = retried
  wake-Later read none (sent a) = same
  wake-Later read (some []) (sent a) = same
  wake-Later read (some (c ∷ s)) (sent a) = same
  wake-Later read none (resent a) = same
  wake-Later read (some []) (resent a) = same
  wake-Later read (some (c ∷ s)) (resent a) = same
  wake-Later read none (settled o) = same
  wake-Later read (some []) (settled o) = same
  wake-Later read (some (c ∷ s)) (settled o) = same

  wake-Advances :
      (read : Reader J) (token : Option Text) (xs : List (Task J)) (i : ℕ) {t : Task J}
      → get_elem? xs i ≡ some t
      → Advances i t (map (wake read token) xs)
  wake-Advances read token [] i h = cc
  wake-Advances read token (x ∷ xs) zero h = (
    wake read token x,
    refl,
    subst (λ u. Later u (wake read token x)) (cc) (wake-Later read token x),
  )
  wake-Advances read token (x ∷ xs) (suc i) h = wake-Advances read token xs i h

module _ {J U : Type 0} (read : Reader J) (tokens_of : J → Option TokenPair) where
  Move-Advances :
      {c d : Client J U} (i : ℕ) {t : Task J}
      → Move read tokens_of c d
      → get_elem? c.tasks i ≡ some t
      → Advances i t d.tasks
  unfolding finish_refresh store_tokens end_session
  Move-Advances i {t} stays h = (t, h, same)
  Move-Advances i {t} registers h = (t, h, same)
  Move-Advances {c} i sends h = snoc-Advances c.tasks i _ h
  Move-Advances {c} i (settles j o p) h =
      set-Advances IsOpen (settled o) (open-Later o) c.tasks i j p h
  Move-Advances {c} i (leaves_null j o p e f) h =
      set-Advances IsFirst (settled o) (first-Later o) c.tasks i j p h
  Move-Advances {c} i (starts j r p e) h =
      set-Advances IsFirst (waiting r) (first-waits r) c.tasks i j p h
  Move-Advances {c} i (joins j r p e) h =
      set-Advances IsFirst (waiting r) (first-waits r) c.tasks i j p h
  Move-Advances i {t} (sticks e) h = (t, h, same)
  Move-Advances {c} i (fails e) h = wake-Advances read none c.tasks i h
  Move-Advances {c} i (renews now tokens e) h =
      wake-Advances read (some tokens.access_token) c.tasks i h
  Move-Advances i {t} (logs_in now tokens) h = (t, h, same)
  Move-Advances i {t} (knows me) h = (t, h, same)
  Move-Advances i {t} ends h = (t, h, same)

  -- In every order of events a request only moves on: it is sent at most twice, waits at most once
  -- and, once it has settled, keeps its outcome.
  pub run-Advances :
      (c : Client J U) (es : List (Event J U)) (i : ℕ) (t : Task J)
      → get_elem? c.tasks i ≡ some t
      → Advances i t (run read tokens_of c es).tasks
  unfolding run
  run-Advances c [] i t h = (t, h, same)
  run-Advances c (e ∷ es) i t h =
      let (u, f, l) = Move-Advances i (step-Move read tokens_of c e) h in
      let (v, g, m) = run-Advances (step read tokens_of c e) es i u f in (v, g, Later-trans l m)
