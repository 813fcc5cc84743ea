-- ===== src/Attachment/Rounds.antt =====
-- internal/server/branch_attachment.go: the branches that a walk along the parents has not visited.
use neon_selfhost.Prelude.{
  ℕ, ◌+◌, ◌≤◌, ◌<◌, ◌≡◌, refl, Text, text_eq, text_eq_iff, true, false, Bool-cases, inl, inr, List,
  [], ◌∷◌, length, if◌then◌else◌, arith,
}
use neon_selfhost.Prelude.Map.{contains}

-- The number of keys that are not visited.
unfoldable pub fresh : List Text → List Text → ℕ
fresh visiting [] = 0
fresh visiting (k ∷ ks) = (if contains k visiting then 0 else 1) + fresh visiting ks

pub fresh-nil : (ks : List Text) → fresh [] ks ≡ length ks
unfolding fresh contains
fresh-nil [] = refl
fresh-nil (k ∷ ks) = omega (arith, fresh-nil ks)

fresh_more : (name : Text) (v ks : List Text) → fresh (name ∷ v) ks ≤ fresh v ks
unfolding fresh contains
fresh_more name v [] = omega arith
fresh_more name v (k ∷ ks) = ground (arith, fresh_more name v ks)

pub fresh_fewer :
    (name : Text) (v ks : List Text)
    → contains name ks ≡ true
    → contains name v ≡ false
    → fresh (name ∷ v) ks < fresh v ks
unfolding fresh contains
fresh_fewer name v [] h out = absurd (ground arith)
fresh_fewer name v (k ∷ ks) h out = elim (Bool-cases (text_eq k name)) [
  | inl same ↦
      let e : k ≡ name = (text_eq_iff k name).0 same in
      rw e (ground (arith, fresh_more name v ks, text_eq_iff name name))
  | inr other ↦ ground (arith, fresh_fewer name v ks (ground arith) out)
]
