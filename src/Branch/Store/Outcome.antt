-- ===== src/Branch/Store/Outcome.antt =====
-- What a writing operation may do: leave the store as it is, or write one entry that fits.
use neon_selfhost.Prelude.{
  ℕ, Text, ◌≡◌, refl, Bool, true, false, Option, [], ◌∙◌, none, some, Option-cases, Bool-cases, inl,
  inr, Result, text_eq, is_empty, ◌||◌, ◌&&◌, not, if◌then◌else◌, arith,
}
use neon_selfhost.Prelude.Int.{ℤ, pos}
use neon_selfhost.Prelude.Trim.{trim_space, trim_space_idem}
use neon_selfhost.Prelude.Map.{lookup, keys, contains, contains-keys}
use neon_selfhost.Branch.Types.{Branch, Error, main, active, in_port_range}
use neon_selfhost.Branch.File.{FileIo}
use neon_selfhost.Branch.Store
use neon_selfhost.Branch.Store.{
  Store, store_branch, updated, parent_or_main, is_active, create_locked, deleted_at,
}
use neon_selfhost.Branch.Store.WellFormed.{IsWellFormed, IsEntry, HasParent, EndpointFits}
use neon_selfhost.Branch.Store.Ops.{Op, apply}

pub record Fits (s : Store) (k : Text) (b : Branch) : Type 0 where
  pub entry : IsEntry s.branches k b
  pub live : text_eq k main ≡ true → b.deleted ≡ false

pub data Outcome (s : Store) (out : Store × Result Error Branch) : Type 0 where
  kept : out.0 ≡ s → Outcome s out
  wrote :
      (io : FileIo) (k : Text) (b : Branch)
      → Fits s k b
      → out ≡ store_branch io k b s
      → Outcome s out

Outcome-if :
    {s : Store} (c : Bool) (x y : Store × Result Error Branch)
    → (c ≡ true → Outcome s x)
    → (c ≡ false → Outcome s y)
    → Outcome s (if c then x else y)
Outcome-if true x y hx hy = hx refl
Outcome-if false x y hx hy = hy refl

-- An active branch is in the map, and is not deleted.
pub active-lookup :
    (name : Text) (s : Store) (b : Branch)
    → active name s.branches ≡ some b
    → (lookup name s.branches ≡ some b) × (b.deleted ≡ false)
unfolding active
active-lookup name s b h = ground arith

updated-Outcome :
    (io : FileIo) (name : Text) (change : Branch → Branch) (s : Store)
    → ((b : Branch) → active name s.branches ≡ some b → Fits s name (change b))
    → Outcome s (updated io name change (active name s.branches) s)
updated-Outcome io name change s fits = elim (Option-cases (active name s.branches)) [
  | inl gone ↦ rw gone (kept refl)
  | inr (b, here) ↦ rw here (wrote io name (change b) (fits b here) refl)
]

HasParent-of-eq :
    (s : Store) (b c : Branch)
    → c.parent ≡ b.parent
    → HasParent s.branches b
    → HasParent s.branches c
HasParent-of-eq s b c e h = record {
  trimmed = rw e h.trimmed;
  nonempty = rw e h.nonempty;
  known = rw e h.known;
}

-- An update of an active branch that leaves its name, its parent and its deletion alone.
module _ (s : Store) (w : IsWellFormed s.branches) (name : Text) (b : Branch)
    (h : active name s.branches ≡ some b) where
  entry : IsEntry s.branches name b
  entry = w.entries name b (active-lookup name s b h).0

  Fits-update :
      (c : Branch)
      → c.name ≡ b.name
      → c.parent ≡ b.parent
      → c.deleted ≡ b.deleted
      → c.deleted_at ≡ b.deleted_at
      → EndpointFits c
      → Fits s name c
  Fits-update c en ep ed ea fits = record {
    entry = record {
      named = en ∙ entry.named;
      trimmed = entry.trimmed;
      nonempty = entry.nonempty;
      parent = λ e. HasParent-of-eq s b c ep (entry.parent e);
      dated = rw (ed, ea) entry.dated;
      endpoint = fits;
    };
    live = λ _. ed ∙ (active-lookup name s b h).1;
  }

abbrev with_endpoint : Bool → ℤ → Branch → Branch
with_endpoint published port b = record b {
  endpoint_published = published;
  endpoint_port = if published then port else pos 0;
}

endpoint_of_range :
    (published : Bool) (port : ℤ) (b : Branch)
    → (published && not (in_port_range port)) ≡ false
    → EndpointFits (with_endpoint published port b)
endpoint_of_range true port b h = ground arith
endpoint_of_range false port b h = refl

parent_or_main-trimmed : (p : Text) → trim_space (parent_or_main p) ≡ parent_or_main p
unfolding parent_or_main
parent_or_main-trimmed p = elim (Bool-cases (is_empty (trim_space p))) [
  | inl blank ↦ rw blank (unfold trim_space in refl)
  | inr given ↦ rw given (trim_space_idem p)
]

parent_or_main-nonempty : (p : Text) → is_empty (parent_or_main p) ≡ false
unfolding parent_or_main
parent_or_main-nonempty p = elim (Bool-cases (is_empty (trim_space p))) [
  | inl blank ↦ rw blank refl
  | inr given ↦ rw given given
]

active-known :
    (s : Store) (p : Text)
    → is_active (active p s.branches) ≡ true
    → contains p (keys s.branches) ≡ true
unfolding active
active-known s p h = rw contains-keys (ground arith)

module _ (s : Store) (w : IsWellFormed s.branches) (io : FileIo) (now : ℕ) where
  create_locked-Outcome :
      (name parent t l p : Text) → Outcome s (create_locked io now name parent t l p s)
  unfolding create_locked
  create_locked-Outcome name parent t l p =
      Outcome-if (is_empty (trim_space name)) _ _ (λ _. kept refl)
        λ named.
          Outcome-if (not (is_active (active (parent_or_main parent) s.branches))) _ _
            (λ _. kept refl)
            λ has_parent.
              Outcome-if (is_active (active (trim_space name) s.branches)) _ _ (λ _. kept refl)
                λ free.
                  wrote io (trim_space name) _
                    (record {
                      entry = record {
                        named = refl;
                        trimmed = trim_space_idem name;
                        nonempty = named;
                        parent = λ _. record {
                          trimmed = parent_or_main-trimmed parent;
                          nonempty = parent_or_main-nonempty parent;
                          known = active-known s (parent_or_main parent) (ground arith);
                        };
                        dated = refl;
                        endpoint = refl;
                      };
                      live = λ _. refl;
                    })
                    refl

  Fits-deleted :
      (name : Text) (b : Branch)
      → text_eq name main ≡ false
      → lookup name s.branches ≡ some b
      → Fits s name (record b { deleted = true; deleted_at = some now })
  Fits-deleted name b not_main h =
      let e = w.entries name b h in
      record {
        entry = record {
          named = e.named;
          trimmed = e.trimmed;
          nonempty = e.nonempty;
          parent = λ p. HasParent-of-eq s b _ refl (e.parent p);
          dated = refl;
          endpoint = e.endpoint;
        };
        live = λ is_main. absurd (ground arith);
      }

  deleted_at-Outcome :
      (name : Text) (o : Option Branch)
      → text_eq name main ≡ false
      → lookup name s.branches ≡ o
      → Outcome s (deleted_at io now name o s)
  deleted_at-Outcome name none not_main h = kept refl
  deleted_at-Outcome name (some b) not_main h =
      Outcome-if (b.deleted) _ _ (λ _. kept refl)
        λ _. wrote io name _ (Fits-deleted name b not_main h) refl

  soft_delete-Outcome : (name : Text) → Outcome s (Store.soft_delete io now name s)
  unfolding Store.soft_delete
  soft_delete-Outcome name =
      Outcome-if (is_empty (trim_space name)) _ _ (λ _. kept refl)
        λ named.
          Outcome-if (text_eq (trim_space name) main) _ _ (λ _. kept refl)
            λ not_main.
              deleted_at-Outcome (trim_space name) (lookup (trim_space name) s.branches) not_main
                refl

  set_attachment-Outcome : (name t l : Text) → Outcome s (Store.set_attachment io name t l s)
  unfolding Store.set_attachment
  set_attachment-Outcome name t l =
      Outcome-if (is_empty (trim_space name)) _ _ (λ _. kept refl)
        λ _.
          Outcome-if (is_empty (trim_space t) || is_empty (trim_space l)) _ _ (λ _. kept refl)
            λ _.
              updated-Outcome io (trim_space name) _ s
                λ b h. Fits-update s w _ b h _ refl refl refl refl (entry s w _ b h).endpoint

  set_password-Outcome : (name p : Text) → Outcome s (Store.set_password io name p s)
  unfolding Store.set_password
  set_password-Outcome name p =
      Outcome-if (is_empty (trim_space name)) _ _ (λ _. kept refl)
        λ _.
          Outcome-if (is_empty (trim_space p)) _ _ (λ _. kept refl)
            λ _.
              updated-Outcome io (trim_space name) _ s
                λ b h. Fits-update s w _ b h _ refl refl refl refl (entry s w _ b h).endpoint

  set_endpoint-Outcome :
      (name : Text) (published : Bool) (port : ℤ)
      → Outcome s (Store.set_endpoint io name published port s)
  unfolding Store.set_endpoint
  set_endpoint-Outcome name published port =
      Outcome-if (is_empty (trim_space name)) _ _ (λ _. kept refl)
        λ _.
          Outcome-if (published && not (in_port_range port)) _ _ (λ _. kept refl)
            λ in_range. updated-Outcome io (trim_space name) (with_endpoint published port) s λ b h.
              Fits-update s w _ b h (with_endpoint published port b) refl refl refl refl
                (endpoint_of_range published port b in_range)

  -- Every writing operation, on every branch.
  pub apply-Outcome : (op : Op) → Outcome s (apply op io now s)
  unfolding apply Store.create Store.create_with_password Store.create_with_attachment
      Store.create_with_attachment_and_password
  apply-Outcome (Op.set_attachment name t l) = set_attachment-Outcome name t l
  apply-Outcome (Op.set_password name p) = set_password-Outcome name p
  apply-Outcome (Op.set_endpoint name published port) = set_endpoint-Outcome name published port
  apply-Outcome (Op.create name parent) = create_locked-Outcome name parent [] [] []
  apply-Outcome (Op.create_with_password name parent p) =
      Outcome-if (is_empty (trim_space p)) _ _ (λ _. kept refl)
        λ _. create_locked-Outcome name parent [] [] (trim_space p)
  apply-Outcome (Op.create_with_attachment name parent t l) =
      Outcome-if (is_empty (trim_space t) || is_empty (trim_space l)) _ _ (λ _. kept refl)
        λ _. create_locked-Outcome name parent (trim_space t) (trim_space l) []
  apply-Outcome (Op.create_with_attachment_and_password name parent t l p) =
      Outcome-if (is_empty (trim_space t) || is_empty (trim_space l) || is_empty (trim_space p)) _ _
        (λ _. kept refl)
        λ _. create_locked-Outcome name parent (trim_space t) (trim_space l) (trim_space p)
  apply-Outcome (Op.soft_delete name) = soft_delete-Outcome name
