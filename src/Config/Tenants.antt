-- ===== src/Config/Tenants.antt =====
-- internal/config/config.go, `parsePageserverValidGenerations`: what a list that is accepted holds.
use neon_selfhost.Prelude.{
  ℕ, ◌<◌, ◌^◌, ◌≡◌, refl, sym, ap, ◌∙◌, Text, false, true, Bool-cases, inl, inr, Option, none, some,
  List, [], ◌∷◌, ◌++◌, map, All, All-append, if◌then◌else◌, ok, is_empty, is_some, text_eq,
  text_eq_iff, not, ◌||◌, arith,
}
use neon_selfhost.Prelude.Trim.{trim_space}
use neon_selfhost.Prelude.Case.{to_lower}
use neon_selfhost.Prelude.Map.{
  Map, keys, lookup, put, lookup-put, lookup-put_self, Distinct, keys-put-Distinct, contains,
  contains-keys, put_absent,
}
use mathlib.Core.Path.{subst}
use mathlib.Core.List.{append-nil, append_assoc, map-append}
use neon_selfhost.Config.Parse.{unsigned}
use neon_selfhost.Config.Generations.{
  cut, cut_entry, added, add_entry, add_entries, split_on, parse_uint32, bounded_generation,
  is_tenant_shard, parse_pageserver_valid_generations,
}
use neon_selfhost.Config.Bounds.{Gives, Gives-ok, Gives-err, Gives-bind, if-Gives}

-- the tenant and the generation that an entry of the list states
abbrev pub tenant_of : Text → Text
tenant_of raw = to_lower (trim_space (cut b':' (trim_space raw)).0)

abbrev parsed : Option Text → Option ℕ
parsed none = none
parsed (some raw) = parse_uint32 (trim_space raw)

abbrev pub generation_of : Text → Option ℕ
generation_of raw = parsed (cut b':' (trim_space raw)).1

-- The map has the tenants of the entries in their order, no two alike, each under the generation
-- of its entry; a tenant is an id and a generation fits into 32 bits.
abbrev pub States : Map ℕ → Text → Type 0
States m raw = (n : ℕ) × (generation_of raw ≡ some n) × (lookup (tenant_of raw) m ≡ some n)

pub record AreGenerations (raws : List Text) (m : Map ℕ) : Type 0 where
  pub named : keys m ≡ map tenant_of raws
  pub once : Distinct (map tenant_of raws)
  pub stated : All (States m) raws
  pub entry : (t : Text) (n : ℕ) → lookup t m ≡ some n → (is_tenant_shard t ≡ true) × (n < 2 ^ 32)

still-States :
    (t : Text) (n : ℕ) (m : Map ℕ) (raws : List Text)
    → lookup t m ≡ none
    → All (States m) raws
    → All (States (put t n m)) raws
still-States t n m [] h a = tt
still-States t n m (raw ∷ raws) h ((k, stated, found), more) = (
  (
    k,
    stated,
    ground (arith, lookup-put t (tenant_of raw) n m, text_eq_iff t (tenant_of raw), h, found),
  ),
  still-States t n m raws h more,
)

keys-append : (m : Map ℕ) (t : Text) (n : ℕ) → keys (m ++ (t, n) ∷ []) ≡ keys m ++ t ∷ []
keys-append [] t n = refl
keys-append ((k, v) ∷ m) t n = ap (◌∷◌ k) (keys-append m t n)

put-AreGenerations :
    (raws : List Text) (raw : Text) (n : ℕ) (m : Map ℕ)
    → is_tenant_shard (tenant_of raw) ≡ true
    → n < 2 ^ 32
    → generation_of raw ≡ some n
    → lookup (tenant_of raw) m ≡ none
    → AreGenerations raws m
    → AreGenerations (raws ++ raw ∷ []) (put (tenant_of raw) n m)
put-AreGenerations raws raw n m shard small says new g =
    let t = tenant_of raw in
    let absent : contains t (keys m) ≡ false = ground (arith, contains-keys t m) in
    let named : keys (put t n m) ≡ map tenant_of (raws ++ raw ∷ []) =
      ap keys (put_absent t n m absent)
      ∙ keys-append m t n
      ∙ ap (λ ks. ks ++ t ∷ []) g.named
      ∙ sym (map-append tenant_of raws (raw ∷ [])) in
    record {
      named = named;
      once = subst Distinct (named) (keys-put-Distinct t n m (subst Distinct (sym g.named) g.once));
      stated =
          All-append (States (put t n m)) raws (raw ∷ []) (still-States t n m raws new g.stated)
            ((n, says, lookup-put_self t n m), tt);
      entry = λ s k h. elim (Bool-cases (text_eq t s)) [
        | inl same ↦
            let e : t ≡ s = (text_eq_iff t s).0 same in
            let f : n ≡ k = ground (arith, lookup-put t s n m) in rw (← e, ← f) (shard, small)
        | inr other ↦ g.entry s k (ground (arith, lookup-put t s n m))
      ];
    }

bounded_generation-bound : (r : Option ℕ) (n : ℕ) → bounded_generation r ≡ some n → n < 2 ^ 32
bounded_generation-bound none n h = absurd (cc)
bounded_generation-bound (some k) n h = ground arith

parse_uint32-bound : (s : Text) (n : ℕ) → parse_uint32 s ≡ some n → n < 2 ^ 32
unfolding parse_uint32
parse_uint32-bound s n h = bounded_generation-bound (unsigned s) n h

module _ (raws : List Text) (raw : Text) (m : Map ℕ) (g : AreGenerations raws m) where
  abbrev Next : Map ℕ → Type 0
  Next next = AreGenerations (raws ++ raw ∷ []) next

  added-Gives :
      (r : Option ℕ)
      → is_tenant_shard (tenant_of raw) ≡ true
      → generation_of raw ≡ r
      → ((n : ℕ) → r ≡ some n → n < 2 ^ 32)
      → Gives Next (added (tenant_of raw) m r)
  added-Gives none shard says small = Gives-err _ _
  added-Gives (some n) shard says small =
      if-Gives _ (is_some (lookup (tenant_of raw) m)) _ _ (Gives-err _ _) (λ new.
        Gives-ok _ _ (put-AreGenerations raws raw n m shard (small n refl) says (ground arith) g))

  cut_entry-Gives :
      (r : Option Text)
      → (cut b':' (trim_space raw)).1 ≡ r
      → Gives Next (cut_entry (tenant_of raw) r m)
  cut_entry-Gives none e = Gives-err _ _
  cut_entry-Gives (some after) e =
      if-Gives _ (is_some (cut b':' (trim_space after)).1 || not (is_tenant_shard (tenant_of raw)))
        _ _ (Gives-err _ _)
        (λ h.
          added-Gives (parse_uint32 (trim_space after)) (ground arith) (ap parsed e)
            (parse_uint32-bound (trim_space after)))

  add_entry-Gives : Gives Next (add_entry raw m)
  unfolding add_entry
  add_entry-Gives = cut_entry-Gives (cut b':' (trim_space raw)).1 refl

add_entries-Gives :
    (more done : List Text) (m : Map ℕ)
    → AreGenerations done m
    → Gives (AreGenerations (done ++ more)) (add_entries more m)
unfolding add_entries
add_entries-Gives [] done m g = rw (append-nil done) (Gives-ok _ m g)
add_entries-Gives (raw ∷ more) done m g =
    Gives-bind (add_entry raw m) _ (add_entry-Gives done raw m g) (λ next h.
      rw (← append_assoc done (raw ∷ []) more) (add_entries-Gives more (done ++ raw ∷ []) next h))

-- the entries of a list: a blank one has none
abbrev pub entries_in : Text → List Text
entries_in raw = if is_empty (trim_space raw) then [] else split_on b',' raw

-- A list of tenant generations that is accepted has entries that name different tenants, each by
-- an id of 32 hexadecimal digits with or without a shard and with a generation below 2^32; the
-- map that it gives has just these tenants, each with the generation of its entry.
pub parse_generations-AreGenerations :
    (raw : Text) (m : Map ℕ)
    → parse_pageserver_valid_generations raw ≡ ok m
    → AreGenerations (entries_in raw) m
unfolding parse_pageserver_valid_generations
parse_generations-AreGenerations raw m h =
    let start : AreGenerations [] [] = record {
      named = refl;
      once = tt;
      stated = tt;
      entry = λ t n e. absurd (unfold lookup in cc);
    } in
    elim (Bool-cases (is_empty (trim_space raw))) [
      | inl blank ↦
          let none_left : [] ≡ m = ground arith in
          rw blank (subst (AreGenerations []) (none_left) start)
      | inr full ↦ rw full ((add_entries-Gives (split_on b',' raw) [] [] start).at m (rw full at h))
    ]
