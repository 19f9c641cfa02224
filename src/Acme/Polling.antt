-- ===== src/Acme/Polling.antt =====
-- How long the two loops wait, and what they have seen when they end.
use certforge.Base.{
  Text, Bytes, length, ℕ, zero, suc, ◌+◌, ◌*◌, ◌≤◌, arith, Option, none, some, ◌∷◌, ◌≡◌, refl, ap,
  ◌∙◌,
}
use certforge.Error.{eq_of_ok, Result, ok, err, panic}
use certforge.Exec.{raise, continue, ◌>>=◌}
use certforge.Exec.Logs.{bind-ok, bind-rest}
use certforge.World.{
  sleep, refresh, finalize, fetch_certificate, Log, Io, OrderStatus, pending, ready, processing,
  valid, invalid, Env, ok_or_err, ask, observe, attempt,
}
use certforge.Acme.{
  request_failed, refreshed, pause, after_pending, on_status, wait_ready, finalize_order,
  issued_chain, fetch_chain, after_processing, on_download, wait_valid, download_certificate,
}

eq_of_suc : (a b : ℕ) → suc a ≡ suc b → a ≡ b
eq_of_suc a b e = omega arith

-- The order is past its challenges.
abbrev pub IsPast : Option OrderStatus → Type 0
IsPast none = ⊥
IsPast (some pending) = ⊥
IsPast (some invalid) = ⊥
IsPast (some ready) = Unit
IsPast (some processing) = Unit
IsPast (some valid) = Unit

module _ (env : Env) where
  -- The last request was for the order's status, and the answer lets it be finalized.
  abbrev SawPast : Log → Type 0
  SawPast t = (h : Log) × (t ≡ refresh ∷ h) × IsPast (env.order_status h)

  -- a try and what follows it, where the order's status is `o`
  abbrev after :
      (o : Option OrderStatus) (retries : ℕ) → Io (Unit {0}) → Log → Result (Unit {0}) × Log
  after o retries again h =
      continue (ok_or_err (request_failed env) o) (on_status env retries again) (refresh ∷ h)

  after-SawPast :
      (h : Log) (o : Option OrderStatus) (retries : ℕ) (again : Io (Unit {0}))
      → env.order_status h ≡ o
      → ((t : Log) → (again t).0 ≡ ok tt → SawPast (again t).1)
      → (after o retries again h).0 ≡ ok tt
      → SawPast (after o retries again h).1
  unfolding on_status after_pending pause observe ◌>>=◌
  after-SawPast h none retries again q k e = absurd cc
  after-SawPast h (some ready) retries again q k e = (h, refl, rw q tt)
  after-SawPast h (some processing) retries again q k e = (h, refl, rw q tt)
  after-SawPast h (some valid) retries again q k e = (h, refl, rw q tt)
  after-SawPast h (some invalid) retries again q k e = absurd cc
  after-SawPast h (some pending) zero again q k e = absurd cc
  after-SawPast h (some pending) (suc retries) again q k e = k _ e

  wait_ready-SawPast :
      (retries : ℕ) (h : Log)
      → (wait_ready env retries h).0 ≡ ok tt
      → SawPast (wait_ready env retries h).1
  unfolding wait_ready refreshed ask ◌>>=◌
  wait_ready-SawPast zero h e =
      after-SawPast h (env.order_status h) zero (raise (request_failed env)) refl (λ t f. absurd cc)
        e
  wait_ready-SawPast (suc retries) h e =
      after-SawPast h (env.order_status h) (suc retries) (wait_ready env retries) refl
        (wait_ready-SawPast retries) e

  -- If `finalize_order` ends well, its last two requests asked for the status of the order, which
  -- was ready, processing or valid, and finalized it.
  pub finalize_order-SawPast :
      (csr_der : Bytes) (h : Log)
      → (finalize_order env csr_der h).0 ≡ ok tt
      → (t : Log) × ((finalize_order env csr_der h).1 ≡ finalize csr_der ∷ refresh ∷ t)
        × IsPast (env.order_status t)
  unfolding finalize_order attempt
  finalize_order-SawPast csr_der h e =
      let (_, a, _) = bind-ok (wait_ready env 20) _ h e in
      let (t, p, past) = wait_ready-SawPast 20 h a in
      (
        t,
        ap (λ r. r.1) (bind-rest (wait_ready env 20) _ h a) ∙ ap (λ l. finalize csr_der ∷ l) p,
        past,
      )

  after-length :
      (h : Log) (o : Option OrderStatus) (retries : ℕ) (again : Io (Unit {0}))
      → ((t : Log) (n : ℕ) → retries ≡ suc n → length (again t).1 ≤ length t + 2 * n + 1)
      → length (after o retries again h).1 ≤ length h + 2 * retries + 1
  unfolding on_status after_pending pause observe ◌>>=◌
  after-length h none retries again k = omega arith
  after-length h (some ready) retries again k = omega arith
  after-length h (some processing) retries again k = omega arith
  after-length h (some valid) retries again k = omega arith
  after-length h (some invalid) retries again k = omega arith
  after-length h (some pending) zero again k = omega arith
  after-length h (some pending) (suc retries) again k =
      omega (arith, k (sleep 3 ∷ refresh ∷ h) retries refl)

  -- The first loop makes at most one request for each try and each pause.
  wait_ready-length :
      (retries : ℕ) (h : Log) → length (wait_ready env retries h).1 ≤ length h + 2 * retries + 1
  unfolding wait_ready refreshed ask ◌>>=◌
  wait_ready-length zero h =
      after-length h (env.order_status h) zero (raise (request_failed env)) (λ t n q. absurd cc)
  wait_ready-length (suc retries) h =
      after-length h (env.order_status h) (suc retries) (wait_ready env retries)
        (λ t n q. rw (← eq_of_suc retries n q) (wait_ready-length retries t))

  -- a try of `download_certificate` and what follows it
  abbrev downloaded : (o : Option OrderStatus) (retries : ℕ) → Io Text → Log → Result Text × Log
  downloaded o retries again h =
      continue (ok_or_err (request_failed env) o) (on_download env retries again) (refresh ∷ h)

  fetch_chain-issued :
      (h : Log) (chain : Text) → (fetch_chain env h).0 ≡ ok chain → env.issued h ≡ some (some chain)
  unfolding fetch_chain issued_chain ask ◌>>=◌
  fetch_chain-issued h chain e = cases (env.issued h) refl e
    where
      cases :
          (o : Option (Option Text))
          → env.issued h ≡ o
          → (continue
              (ok_or_err (request_failed env) o)
              (issued_chain env)
              (fetch_certificate ∷ h)).0
            ≡ ok chain
          → env.issued h ≡ some (some chain)
      cases none q f = absurd cc
      cases (some none) q f = absurd cc
      cases (some (some c)) q f = q ∙ ap (λ x. some (some x)) (eq_of_ok _ _ f)

  -- The chain was handed out while the order was valid.
  abbrev IsIssued : Text → Type 0
  IsIssued chain =
      (h : Log) × (env.order_status h ≡ some valid) × (env.issued (refresh ∷ h) ≡ some (some chain))

  downloaded-IsIssued :
      (h : Log) (o : Option OrderStatus) (retries : ℕ) (again : Io Text) (chain : Text)
      → env.order_status h ≡ o
      → ((t : Log) → (again t).0 ≡ ok chain → IsIssued chain)
      → (downloaded o retries again h).0 ≡ ok chain
      → IsIssued chain
  unfolding on_download after_processing pause observe ◌>>=◌
  downloaded-IsIssued h none retries again chain q k e = absurd cc
  downloaded-IsIssued h (some ready) retries again chain q k e = absurd cc
  downloaded-IsIssued h (some pending) retries again chain q k e = absurd cc
  downloaded-IsIssued h (some invalid) retries again chain q k e = absurd cc
  downloaded-IsIssued h (some valid) retries again chain q k e =
      (h, q, fetch_chain-issued (refresh ∷ h) chain e)
  downloaded-IsIssued h (some processing) zero again chain q k e = absurd cc
  downloaded-IsIssued h (some processing) (suc retries) again chain q k e = k _ e

  wait_valid-IsIssued :
      (retries : ℕ) (h : Log) (chain : Text)
      → (wait_valid env retries h).0 ≡ ok chain
      → IsIssued chain
  unfolding wait_valid refreshed ask ◌>>=◌
  wait_valid-IsIssued zero h chain e =
      downloaded-IsIssued h (env.order_status h) zero (raise (request_failed env)) chain refl
        (λ t f. absurd cc) e
  wait_valid-IsIssued (suc retries) h chain e =
      downloaded-IsIssued h (env.order_status h) (suc retries) (wait_valid env retries) chain refl
        (λ t f. wait_valid-IsIssued retries t chain f) e

  -- A chain that is downloaded is one that the server handed out just after it had called the order
  -- valid.
  pub download_certificate-IsIssued :
      (h : Log) (chain : Text)
      → (download_certificate env h).0 ≡ ok chain
      → (t : Log) × (env.order_status t ≡ some valid)
        × (env.issued (refresh ∷ t) ≡ some (some chain))
  unfolding download_certificate
  download_certificate-IsIssued h chain e = wait_valid-IsIssued 20 h chain e

  -- `finalize_order` ends within 42 requests, whatever the server answers.
  pub finalize_order-length :
      (csr_der : Bytes) (h : Log) → length (finalize_order env csr_der h).1 ≤ length h + 42
  unfolding finalize_order attempt ◌>>=◌
  finalize_order-length csr_der h = ends (wait_ready env 20 h).0
    where
      bound : length (wait_ready env 20 h).1 ≤ length h + 41
      bound = omega (arith, wait_ready-length 20 h)

      ends :
          (r : Result (Unit {0}))
          → length
              (continue r
                (λ _. attempt env (finalize csr_der) (request_failed env))
                (wait_ready env 20 h).1).1
            ≤ length h + 42
      ends (ok u) = omega (arith, bound)
      ends (err x) = omega (arith, bound)
      ends panic = omega (arith, bound)
