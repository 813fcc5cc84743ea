-- ===== src/Proxy/Counts.antt =====
-- internal/server/branch_endpoints.go: the count of the connections of a branch, while clients come
-- and go in any order.
use neon_selfhost.Prelude.{
  if_split, ℕ, ◌+◌, ◌-◌, ◌≤◌, ◌<◌, ◌≡◌, refl, Text, Bool, true, false, List, [], ◌∷◌, text_eq,
  text_eq_iff, text_eq_refl, leb, ltb, ◌&&◌, if◌then◌else◌, arith,
}
use mathlib.Core.Path.{subst}
use neon_selfhost.Prelude.Map.{put, lookup-put, lookup-erase}
use neon_selfhost.Proxy.World.{Settings, Proxy, count_of, try_increment_active, decrement_active}

-- how many of the clients are connected to the branch
unfoldable pub occurrences : Text → List Text → ℕ
occurrences name [] = 0
occurrences name (k ∷ ks) = let n = occurrences name ks in if text_eq k name then n + 1 else n

unfoldable pub without_one : Text → List Text → List Text
without_one name [] = []
without_one name (k ∷ ks) =
    let rest = without_one name ks in if text_eq k name then ks else k ∷ rest

-- The controller with the branches of the clients that it has let in and that have not left.
pub record Hall (D : Type 0) : Type 0 where
  pub proxy : Proxy D
  pub clients : List Text

-- One goroutine does one thing that the mutex makes one step. `other` is any step that leaves the
-- counts alone: what a client does between its two ends, timers, errors, listeners that start.
pub data HallStep {D : Type 0} (c : Settings) (s : Hall D) : Hall D → Type 0 where
  come :
      (name : Text) {w : Proxy D}
      → try_increment_active c name s.proxy ≡ (w, true)
      → HallStep c s (record { proxy = w; clients = name ∷ s.clients })
  turned_away :
      (name : Text) {w : Proxy D}
      → try_increment_active c name s.proxy ≡ (w, false)
      → HallStep c s (record { proxy = w; clients = s.clients })
  leave :
      (name : Text)
      → 0 < occurrences name s.clients
      → HallStep c s
          (record { proxy = decrement_active name s.proxy; clients = without_one name s.clients })
  other :
      {w : Proxy D}
      → w.active_conns ≡ s.proxy.active_conns
      → HallStep c s (record { proxy = w; clients = s.clients })

pub data HallReach {D : Type 0} (c : Settings) (s : Hall D) : Hall D → Type 0 where
  begin : HallReach c s s
  and_then : {t u : Hall D} → HallReach c s t → HallStep c t u → HallReach c s u

occurrences-without_one :
    (name k : Text) (ks : List Text)
    → occurrences k (without_one name ks)
      ≡ (if text_eq name k then occurrences k ks - 1 else occurrences k ks)
unfolding occurrences without_one
occurrences-without_one name k [] = ground arith
occurrences-without_one name k (j ∷ ks) = ground (
  arith,
  text_eq_iff j name,
  text_eq_iff j k,
  text_eq_iff name k,
  text_eq_refl k,
  occurrences-without_one name k ks,
)

module _ {D : Type 0} (c : Settings) where
  -- The count of a branch is the number of its clients, and within the limit.
  pub record IsCounted (s : Hall D) : Type 0 where
    pub counted : (k : Text) → count_of k s.proxy ≡ occurrences k s.clients
    pub limited : (k : Text) → 0 < c.max_active → count_of k s.proxy ≤ c.max_active

  -- what an attempt to come in does to the counts
  record IsTried (name : Text) (w : Proxy D) (r : Proxy D × Bool) : Type 0 where
    refused : r.1 ≡ false → r.0.active_conns ≡ w.active_conns
    admitted :
        r.1 ≡ true
        → (r.0.active_conns ≡ put name (count_of name w + 1) w.active_conns)
          × (0 < c.max_active → count_of name w < c.max_active)

  try_increment_active-IsTried :
      (name : Text) (w : Proxy D) → IsTried name w (try_increment_active c name w)
  unfolding try_increment_active
  try_increment_active-IsTried name w =
      if_split (IsTried name w) (ltb 0 c.max_active && leb c.max_active (count_of name w)) _ _
        (λ full. record { refused = λ _. refl; admitted = λ e. absurd (ground arith) })
        (λ room. record {
          refused = λ e. absurd (ground arith);
          admitted = λ _. (refl, λ some_limit. ground arith);
        })

  IsTried-of :
      (name : Text) (w v : Proxy D) (b : Bool)
      → try_increment_active c name w ≡ (v, b)
      → IsTried name w (v, b)
  IsTried-of name w v b h = subst (IsTried name w) h (try_increment_active-IsTried name w)

  come-IsCounted :
      (name : Text) (s : Hall D) (w : Proxy D)
      → IsTried name s.proxy (w, true)
      → IsCounted s
      → IsCounted (record { proxy = w; clients = name ∷ s.clients })
  unfolding occurrences
  come-IsCounted name s w t i = record {
    counted = λ k. ground (
      arith,
      (t.admitted refl).0,
      text_eq_iff name k,
      i.counted k,
      i.counted name,
      lookup-put name k (count_of name s.proxy + 1) s.proxy.active_conns,
    );
    limited = λ k some_limit. ground (
      arith,
      (t.admitted refl).0,
      (t.admitted refl).1 some_limit,
      text_eq_iff name k,
      i.limited k some_limit,
      lookup-put name k (count_of name s.proxy + 1) s.proxy.active_conns,
    );
  }

  decrement_active_lem :
      (name k : Text) (w : Proxy D)
      → count_of k (decrement_active name w)
        ≡ (if text_eq name k then count_of k w - 1 else count_of k w)
  unfolding decrement_active
  decrement_active_lem name k w = ground (
    arith,
    text_eq_iff name k,
    lookup-put name k (count_of name w - 1) w.active_conns,
    lookup-erase name k w.active_conns,
  )

  HallStep-IsCounted : {s t : Hall D} → HallStep c s t → IsCounted s → IsCounted t
  HallStep-IsCounted {s} (come name {w} h) i =
      come-IsCounted name s w (IsTried-of name s.proxy w true h) i
  HallStep-IsCounted {s} (turned_away name {w} h) i =
      let same = (IsTried-of name s.proxy w false h).refused refl in
      record { counted = λ k. rw same (i.counted k); limited = λ k l. rw same (i.limited k l) }
  HallStep-IsCounted {s} (leave name here) i = record {
    counted = λ k. ground (
      arith,
      decrement_active_lem name k s.proxy,
      occurrences-without_one name k s.clients,
      i.counted k,
    );
    limited = λ k l. ground (arith, decrement_active_lem name k s.proxy, i.limited k l);
  }
  HallStep-IsCounted {s} (other {w} same) i = record {
    counted = λ k. rw same (i.counted k);
    limited = λ k l. rw same (i.limited k l);
  }

  -- While clients of any branches are let in, turned away and leave in any order, and the other
  -- goroutines do nothing to the counts, the count of every branch is the number of its clients
  -- that are in, and it is within the limit if there is one; it is so after the steps where it
  -- was so before.
  pub HallReach-IsCounted : {s t : Hall D} → IsCounted s → HallReach c s t → IsCounted t
  HallReach-IsCounted i begin = i
  HallReach-IsCounted i (and_then r st) = HallStep-IsCounted st (HallReach-IsCounted i r)
