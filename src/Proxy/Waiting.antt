-- ===== src/Proxy/Waiting.antt =====
-- internal/server/branch_endpoints.go: the waits for a backend and for the end of the connections.
use neon_selfhost.Prelude.{
  ℕ, zero, suc, ◌+◌, ◌*◌, ◌/◌, ◌≤◌, ◌<◌, ◌≡◌, refl, Text, Bool, true, false, Result, err, ltb,
  if_split, arith,
}
use neon_selfhost.Proxy.World.{Host, Settings, ProxyError, Proxy}
use neon_selfhost.Proxy.Backend.{backend_interval, dialled, wait_for_backend_from, wait_for_backend}

abbrev pub is_rounds_over : {A : Type 0} → Result ProxyError A → Bool
is_rounds_over (err ProxyError.rounds_over) = true
is_rounds_over _ = false

-- The clock never goes back, and a sleep takes its time.
pub record HostTicks {D : Type 0} (h : Host D) : Type 0 where
  pub dial : (name : Text) (d : D) → h.now d ≤ h.now (h.dial name d).0
  pub sleep : (ms : ℕ) (d : D) → h.now d + ms ≤ h.now (h.sleep ms d)

module _ {D : Type 0} (c : Settings) (h : Host D) (ticks : HostTicks h) where
  abbrev Ends : {S A : Type 0} → S × Result ProxyError A → Type 0
  Ends r = is_rounds_over r.1 ≡ false

  dialled-Ends :
      (again : D → D × Result ProxyError Unit) (d e : D) (b : Bool)
      → ((x : D) → h.now e ≤ h.now x → Ends (again (h.sleep backend_interval x)))
      → h.now e ≤ h.now d
      → Ends (dialled c h again (d, b))
  dialled-Ends again d e true k le = refl
  dialled-Ends again d e false k le = k d le

  wait_for_backend_from-Ends :
      (n deadline : ℕ) (name : Text) (d : D)
      → deadline < h.now d + backend_interval * n
      → Ends (wait_for_backend_from c h (suc n) deadline name d)
  unfolding wait_for_backend_from
  wait_for_backend_from-Ends zero deadline name d late =
      if_split (λ (x : D × Result ProxyError Unit). Ends x) (ltb deadline (h.now d)) _ _ (λ _. refl)
        (λ early. absurd (ground arith))
  wait_for_backend_from-Ends (suc n) deadline name d late =
      if_split (λ (x : D × Result ProxyError Unit). Ends x) (ltb deadline (h.now d)) _ _ (λ _. refl)
        (λ early.
          dialled-Ends (wait_for_backend_from c h (suc n) deadline name) (h.dial name d).0 d
            (h.dial name d).1
            (λ x later.
              wait_for_backend_from-Ends n deadline name (h.sleep backend_interval x)
                (omega (arith, ticks.sleep backend_interval x)))
            (ticks.dial name d))

  -- Where the clock does not go back and a sleep takes its time, waitForBackend ends by a dial
  -- that succeeds or by its timeout, within the rounds of the model.
  pub wait_for_backend-Ends :
      (name : Text) (w : Proxy D) → is_rounds_over (wait_for_backend c h name w).1 ≡ false
  unfolding wait_for_backend
  wait_for_backend-Ends name w =
      wait_for_backend_from-Ends (c.startup_timeout / backend_interval + 1)
        (h.now w.host + c.startup_timeout) name w.host (omega arith)
