-- ===== src/Proxy/Ports.antt =====
-- internal/server/branch_endpoints.go: no two active branches are published on one port.
use neon_selfhost.Prelude.{
  ℕ, zero, suc, ◌+◌, ◌-◌, ◌≤◌, ◌≡◌, refl, ◌∙◌, sym, Text, Bool, true, false, Bool-cases, inl, inr,
  Option, none, some, List, [], ◌∷◌, All, Result, ok, text_eq, text_eq_iff, if_split, if◌then◌else◌,
  arith,
}
use mathlib.Core.Path.{subst}
use neon_selfhost.Prelude.Int.{ℤ, pos, negsuc}
use neon_selfhost.Prelude.Map.{
  lookup-put_self, Map, lookup, put, erase, keys, Distinct, lookup-put, keys-put-Distinct,
}
use neon_selfhost.Branch.Types.{Branch, active}
use neon_selfhost.Branch.Store.{Store, list_active}
use neon_selfhost.Branch.Store.Endpoints.{EndpointSet, same, set, with_endpoint, list_active-All}
use neon_selfhost.Proxy.World.{
  Host, Settings, ProxyError, Proxy, same_port, is_published, published_ports, used_ports, is_used,
  start_listener, bound, allocate_from, allocate_port_and_start_listener, listening, replaced,
}

-- Active branches that are published on one port are one branch.
pub record ArePortsApart (m : Map Branch) : Type 0 where
  pub distinct : Distinct (keys m)
  pub apart :
      (j k : Text) (b d : Branch)
      → active j m ≡ some b
      → active k m ≡ some d
      → is_published b ≡ true
      → is_published d ≡ true
      → same_port b.endpoint_port d.endpoint_port ≡ true
      → j ≡ k

-- No active branch is published on the port.
abbrev pub IsFree : ℤ → Map Branch → Type 0
IsFree p m =
    (j : Text) (b : Branch)
    → active j m ≡ some b
    → is_published b ≡ true
    → same_port b.endpoint_port p ≡ false

abbrev Misses : ℤ → Branch → Type 0
Misses p b = is_published b ≡ true → same_port b.endpoint_port p ≡ false

is_used-All :
    (p : ℤ) (bs : List Branch) → is_used p (published_ports bs) ≡ false → All (Misses p) bs
unfolding is_used published_ports
is_used-All p [] h = tt
is_used-All p (b ∷ bs) h = elim (Bool-cases (is_published b)) [
  | inl yes' ↦ (λ _. ground arith, is_used-All p bs (ground arith))
  | inr no' ↦ (λ e. absurd (ground arith), is_used-All p bs (ground arith))
]

unused-IsFree :
    (p : ℤ) (s : Store)
    → Distinct (keys s.branches)
    → is_used p (used_ports s) ≡ false
    → IsFree p s.branches
unused-IsFree p s d h j b here =
    list_active-All (Misses p) s j b d here (is_used-All p (list_active s) h)

active-put :
    (k j : Text) (v : Branch) (m : Map Branch)
    → v.deleted ≡ false
    → active j (put k v m) ≡ (if text_eq k j then some v else active j m)
unfolding active
active-put k j v m live = ground (arith, lookup-put k j v m)

active_live : (k : Text) (m : Map Branch) (b : Branch) → active k m ≡ some b → b.deleted ≡ false
unfolding active
active_live k m b h = ground arith

module _ (m : Map Branch) (apart : ArePortsApart m) (k : Text) (v : Branch)
    (live : v.deleted ≡ false) (fits : is_published v ≡ true → IsFree v.endpoint_port m) where
  same_port_sym : (p q : ℤ) → same_port p q ≡ same_port q p
  same_port_sym p q = ground arith

  -- the new entry shares its port with no other branch
  clash :
      (b : Branch)
      → v ≡ b
      → (j : Text) (d : Branch) → active j m ≡ some d
      → is_published b ≡ true
      → is_published d ≡ true
      → same_port b.endpoint_port d.endpoint_port ≡ false
  clash b vb j d hd pb pd =
      same_port_sym b.endpoint_port d.endpoint_port
      ∙ subst (λ (x : Branch). same_port d.endpoint_port x.endpoint_port ≡ false) (vb)
          (fits (rw vb pb) j d hd pd)

  pub put-ArePortsApart : ArePortsApart (put k v m)
  put-ArePortsApart = record {
    distinct = keys-put-Distinct k v m apart.distinct;
    apart = λ i j b d hb hd pb pd p. elim (Bool-cases (text_eq k i)) [
      | inl ki ↦ elim (Bool-cases (text_eq k j)) [
        | inl kj ↦ sym ((text_eq_iff k i).0 ki) ∙ (text_eq_iff k j).0 kj
        | inr nj ↦
            let old : active j m ≡ some d = ground (arith, active-put k j v m live) in
            let new : v ≡ b = ground (arith, active-put k i v m live) in
            absurd (ground (arith, clash b new j d old pb pd))
      ]
      | inr ni ↦ elim (Bool-cases (text_eq k j)) [
        | inl kj ↦
            let old : active i m ≡ some b = ground (arith, active-put k i v m live) in
            let new : v ≡ d = ground (arith, active-put k j v m live) in
            absurd (
              ground
                (arith, clash d new i b old pd pb, same_port_sym b.endpoint_port d.endpoint_port))
        | inr nj ↦
            apart.apart i j b d (ground (arith, active-put k i v m live))
              (ground (arith, active-put k j v m live)) pb pd p
      ]
    ];
  }

-- Setting an endpoint keeps the ports apart, where a published one is free.
pub set-ArePortsApart :
    (k : Text) (published : Bool) (port : ℤ) (m n : Map Branch)
    → EndpointSet k published port m n
    → (published ≡ true → IsFree port m)
    → ArePortsApart m
    → ArePortsApart n
set-ArePortsApart k published port m n (same e) free apart = rw e apart
set-ArePortsApart k published port m n (set b here e) free apart = rw e (
    put-ArePortsApart m apart k (with_endpoint published port b) (active_live k m b here)
      (fits published free))
  where
    fits :
        (c : Bool)
        → (c ≡ true → IsFree port m)
        → is_published (with_endpoint c port b) ≡ true
        → IsFree (with_endpoint c port b).endpoint_port m
    fits true free p = free refl
    fits false free p = absurd (ground arith)

module _ {D : Type 0} (h : Host D) where
  -- What an allocation keeps and gives.
  record IsAllocated (used : List ℤ) (name : Text) (lo hi : ℕ) (w : Proxy D)
      (out : Proxy D × Result ProxyError ℤ) : Type 0 where
    pub store : out.0.store ≡ w.store
    port :
        (p : ℤ)
        → out.1 ≡ ok p
        → (is_used p used ≡ false)
          × (lookup name out.0.listeners ≡ some p)
          × ((n : ℕ) × (p ≡ pos n) × (lo ≤ n) × (suc n ≤ hi))

  -- A listener that starts is at the port, and the store is not touched.
  pub record Listens (name : Text) (p : ℤ) (w : Proxy D) (out : Proxy D × Bool) : Type 0 where
    pub store : out.0.store ≡ w.store
    pub listener : out.1 ≡ true → lookup name out.0.listeners ≡ some p

  listening-Listens :
      (name : Text) (p : ℤ) (w v : Proxy D) (r : D × Bool)
      → v.store ≡ w.store
      → Listens name p w (listening h name p v r)
  listening-Listens name p w v (d, false) e = record {
    store = e;
    listener = λ x. absurd (ground arith);
  }
  listening-Listens name p w v (d, true) e = record {
    store = e;
    listener = λ _. lookup-put_self name p v.listeners;
  }

  same_port_eq : (p q : ℤ) → same_port p q ≡ true → p ≡ q
  same_port_eq (pos a) (pos b) e = ground arith
  same_port_eq (pos a) (negsuc b) e = absurd (ground arith)
  same_port_eq (negsuc a) (pos b) e = absurd (ground arith)
  same_port_eq (negsuc a) (negsuc b) e = ground arith

  replaced-Listens :
      (name : Text) (p : ℤ) (w : Proxy D) (o : Option ℤ)
      → lookup name w.listeners ≡ o
      → Listens name p w (replaced h name p w o)
  replaced-Listens name p w none here = listening-Listens name p w w _ refl
  replaced-Listens name p w (some q) here =
      if_split (Listens name p w) (same_port q p) _ _
        (λ e. record { store = refl; listener = λ _. rw (← same_port_eq q p e) here })
        (λ _.
          listening-Listens name p w
            (record w { listeners = erase name w.listeners; host = h.hang_up q w.host }) _ refl)

  pub start_listener-Listens :
      (name : Text) (p : ℤ) (w : Proxy D) → Listens name p w (start_listener h name p w)
  unfolding start_listener
  start_listener-Listens name p w = replaced-Listens name p w (lookup name w.listeners) refl

  bound-IsAllocated :
      (again : Bool → Proxy D → Proxy D × Result ProxyError ℤ) (used : List ℤ) (name : Text)
      (lo hi n : ℕ) (w : Proxy D) (r : Proxy D × Bool)
      → is_used (pos n) used ≡ false
      → lo ≤ n
      → suc n ≤ hi
      → Listens name (pos n) w r
      → ((b : Bool) (v : Proxy D) → v.store ≡ w.store → IsAllocated used name lo hi w (again b v))
      → IsAllocated used name lo hi w (bound h again n r)
  bound-IsAllocated again used name lo hi n w (v, true) free a b l go_on = record {
    store = l.store;
    port = λ p e. let np : pos n ≡ p = cc in rw (← np) (free, l.listener refl, (n, refl, a, b));
  }
  bound-IsAllocated again used name lo hi n w (v, false) free a b l go_on = go_on true v l.store

  allocate_from-IsAllocated :
      (n port : ℕ) (name : Text) (used : List ℤ) (failed : Bool) (lo hi : ℕ) (w v : Proxy D)
      → lo ≤ port
      → port + n ≤ hi
      → v.store ≡ w.store
      → IsAllocated used name lo hi w (allocate_from h n port name used failed v)
  unfolding allocate_from
  allocate_from-IsAllocated zero port name used failed lo hi w v a b e = record {
    store = e;
    port = λ p x. absurd (ground arith);
  }
  allocate_from-IsAllocated (suc n) port name used failed lo hi w v a b e =
      if_split (IsAllocated used name lo hi w) (is_used (pos port) used) _ _
        (λ _.
          allocate_from-IsAllocated n (port + 1) name used failed lo hi w v (omega arith)
            (omega arith) e)
        (λ free.
          bound-IsAllocated (allocate_from h n (port + 1) name used) used name lo hi port w
            (start_listener h name (pos port) v) free a (omega arith)
            (let l = start_listener-Listens name (pos port) v in
              record { store = l.store ∙ e; listener = l.listener })
            (λ f u same.
              allocate_from-IsAllocated n (port + 1) name used f lo hi w u (omega arith)
                (omega arith) same))

  -- Where the names of the store are distinct and the port range is in order, a port that is
  -- allocated lies in the range, has the listener of the branch, and is the published port of no
  -- active branch.
  pub allocate_port-IsAllocated :
      (c : Settings) (name : Text) (w : Proxy D) (p : ℤ)
      → Distinct (keys w.store.branches)
      → c.port_start ≤ c.port_end + 1
      → (allocate_port_and_start_listener h c name w).1 ≡ ok p
      → IsFree p w.store.branches
        × (lookup name (allocate_port_and_start_listener h c name w).0.listeners ≡ some p)
        × ((n : ℕ) × (p ≡ pos n) × (c.port_start ≤ n) × (n ≤ c.port_end))
  unfolding allocate_port_and_start_listener
  allocate_port-IsAllocated c name w p d range got =
      let a =
        allocate_from-IsAllocated (c.port_end + 1 - c.port_start) c.port_start name
          (used_ports w.store) false c.port_start (c.port_end + 1) w w (omega arith) (omega arith)
          refl in
      let (free, listens, (n, eq, low, high)) = a.port p got in
      (unused-IsFree p w.store d free, listens, (n, eq, low, omega arith))

  pub allocate_port-store :
      (c : Settings) (name : Text) (w : Proxy D)
      → c.port_start ≤ c.port_end + 1
      → (allocate_port_and_start_listener h c name w).0.store ≡ w.store
  unfolding allocate_port_and_start_listener
  allocate_port-store c name w range =
      (allocate_from-IsAllocated (c.port_end + 1 - c.port_start) c.port_start name
        (used_ports w.store) false c.port_start (c.port_end + 1) w w (omega arith) (omega arith)
        refl).store
