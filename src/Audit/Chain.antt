-- ===== src/Audit/Chain.antt =====
-- A chain of events that verify_integrity accepts, described beside its loop, and what keeps it: rows
-- that are added at its end and tables that grow.
use acvjepa_project.Prelude.Int.{int_eq}
use acvjepa_project.Prelude.Dict.{lookup}
use acvjepa_project.Prelude.{
  string_eq, nat_eq, length, ok, ℕ, suc, ◌+◌, String, ◌≡◌, refl, subst, Bool, true, false, Option,
  none, some, List, [], ◌∷◌, ◌++◌, arith, eq_iff,
}
use acvjepa_project.Audit.Types.{Crypto}
use acvjepa_project.Audit.{Identity, Evidence, EventRow, AuditLedger}
use acvjepa_project.Audit.Integrity.{
  role_allows, has_root, signed_by, row_hash, verify_event, verify_events,
}

-- An event in its place: of an identity whose role allows it, for the registered root of its case, with
-- the hash of its own content, and signed by its identity.
pub record IsGoodEvent (c : Crypto) (s : AuditLedger) (n : ℕ) (previous : String) (r : EventRow)
    : Type 0 where
  pub in_order : r.sequence ≡ n
  pub linked : r.previous_event_hash ≡ previous
  pub allowed : role_allows r.event_type (lookup r.signer_id s.identities) ≡ true
  pub bound : has_root r.root (lookup r.case_id s.evidence) ≡ true
  pub hashed : row_hash c r ≡ r.event_hash
  pub signed :
      signed_by c (c.from_hex r.event_hash) r.signature (lookup r.signer_id s.identities) ≡ true

abbrev pub IsChained : Crypto → AuditLedger → ℕ → String → List EventRow → Type 0
IsChained c s n p [] = Unit
IsChained c s n p (r ∷ rs) = IsGoodEvent c s n p r × IsChained c s (n + 1) r.event_hash rs

module _ (c : Crypto) (s : AuditLedger) where
  verify_event-ok :
      (n : ℕ) (p : String) (r : EventRow) → verify_event c s n p r ≡ ok tt → IsGoodEvent c s n p r
  verify_event-ok n p r h =
      let hashed : row_hash c r ≡ r.event_hash =
        ground (arith, eq_iff (row_hash c r) r.event_hash) in
      let signed : signed_by c (c.from_hex (row_hash c r)) r.signature
            (lookup r.signer_id s.identities)
          ≡ true =
        ground arith in
      record {
        in_order = ground arith;
        linked = ground (arith, eq_iff r.previous_event_hash p);
        allowed = ground arith;
        bound = ground arith;
        hashed = hashed;
        signed = rw hashed at signed;
      }

  ok-verify_event :
      (n : ℕ) (p : String) (r : EventRow) → IsGoodEvent c s n p r → verify_event c s n p r ≡ ok tt
  ok-verify_event n p r g =
      let signed : signed_by c (c.from_hex (row_hash c r)) r.signature
            (lookup r.signer_id s.identities)
          ≡ true =
        rw g.hashed g.signed in
      ground (
        arith,
        g.in_order,
        g.linked,
        g.allowed,
        g.bound,
        g.hashed,
        eq_iff r.previous_event_hash p,
        eq_iff (row_hash c r) r.event_hash,
      )

  -- The loop accepts just the chains.
  pub verify_events-IsChained :
      (n : ℕ) (p : String) (rs : List EventRow)
      → verify_events c s n p rs ≡ ok tt
      → IsChained c s n p rs
  verify_events-IsChained n p [] h = tt
  verify_events-IsChained n p (r ∷ rs) h = (
    verify_event-ok n p r (ground arith),
    verify_events-IsChained (n + 1) r.event_hash rs (ground arith),
  )

  pub IsChained-verify_events :
      (n : ℕ) (p : String) (rs : List EventRow)
      → IsChained c s n p rs
      → verify_events c s n p rs ≡ ok tt
  IsChained-verify_events n p [] g = refl
  IsChained-verify_events n p (r ∷ rs) (g, gs) =
      rw (verify_events, ok-verify_event n p r g)
        (IsChained-verify_events (n + 1) r.event_hash rs gs)

-- Where a chain ends.
abbrev pub end_hash : String → List EventRow → String
end_hash p [] = p
end_hash p (r ∷ rs) = end_hash r.event_hash rs

pub IsChained-append :
    (c : Crypto) (s : AuditLedger) (n : ℕ) (p : String) (rs : List EventRow) (r : EventRow)
    → IsChained c s n p rs
    → IsGoodEvent c s (n + length rs) (end_hash p rs) r
    → IsChained c s n p (rs ++ r ∷ [])
IsChained-append c s n p [] r g new =
    let e : n + 0 ≡ n = omega arith in (subst (λ m. IsGoodEvent c s m p r) e new, tt)
IsChained-append c s n p (q ∷ qs) r (g, gs) new =
    let e : n + suc (length qs) ≡ n + 1 + length qs = omega arith in
    (
      g,
      IsChained-append c s (n + 1) q.event_hash qs r gs
          (subst (λ m. IsGoodEvent c s m (end_hash q.event_hash qs) r) e new),
    )

-- What stands in the tables stays there.
pub record Grows (s s' : AuditLedger) : Type 0 where
  pub keeps_identity :
      (k : String) (i : Identity) → lookup k s.identities ≡ some i → lookup k s'.identities ≡ some i
  pub keeps_evidence :
      (k : String) (e : Evidence) → lookup k s.evidence ≡ some e → lookup k s'.evidence ≡ some e

pub Grows-refl : (s : AuditLedger) → Grows s s
Grows-refl s = record { keeps_identity = λ k i h. h; keeps_evidence = λ k e h. h }

-- A test that a missing row fails, and that a row passes, is passed wherever the row is kept.
pub kept :
    {V : Type 0} (f : Option V → Bool) (a b : Option V)
    → f none ≡ false
    → ((v : V) → a ≡ some v → b ≡ some v)
    → f a ≡ true
    → f b ≡ true
kept f none b e k h = absurd (ground arith)
kept f (some v) b e k h = rw (k v refl) h

module _ (c : Crypto) (s s' : AuditLedger) (g : Grows s s') where
  pub identity-kept :
      (f : Option Identity → Bool) (k : String)
      → f none ≡ false
      → f (lookup k s.identities) ≡ true
      → f (lookup k s'.identities) ≡ true
  identity-kept f k e h = kept f (lookup k s.identities) _ e (g.keeps_identity k) h

  pub IsGoodEvent-Grows :
      (n : ℕ) (p : String) (r : EventRow) → IsGoodEvent c s n p r → IsGoodEvent c s' n p r
  IsGoodEvent-Grows n p r e = record {
    in_order = e.in_order;
    linked = e.linked;
    allowed = identity-kept (role_allows r.event_type) r.signer_id refl e.allowed;
    bound =
        kept (has_root r.root) (lookup r.case_id s.evidence) _ refl (g.keeps_evidence r.case_id)
          e.bound;
    hashed = e.hashed;
    signed =
        identity-kept (signed_by c (c.from_hex r.event_hash) r.signature) r.signer_id refl e.signed;
  }

  pub IsChained-Grows :
      (n : ℕ) (p : String) (rs : List EventRow) → IsChained c s n p rs → IsChained c s' n p rs
  IsChained-Grows n p [] h = tt
  IsChained-Grows n p (r ∷ rs) (h, hs) =
      (IsGoodEvent-Grows n p r h, IsChained-Grows (n + 1) r.event_hash rs hs)
